-- ===== src/SessionControl/Exists.antt =====
-- `session_check_exists_by_id` of src/data/sessioncontrol.c, beside `session_get_session`: two loops of
-- their own over the keys.
use whisp.Prelude.{ℕ, ◌≡◌, refl, ap, Option, some, List, [], ◌∷◌, map, arith, All}
use whisp.CString.{Bytes}
use whisp.Outcome.{done, Slot}
use whisp.Btree.{BTree, Entry}
use whisp.Btree.Pointers.{first_text}
use whisp.Process.{
  Session, Process, peer_tree_compare, session_tree_compare, Ref, no_tree, tree, dangling,
}
use whisp.SessionControl.{
  exists_loop, found_session, session_get_session, exists_by_id_in, session_check_exists_by_id,
}
use whisp.SessionControl.View.{
  HeldSession, AreSessions, AreValidIn, SessionsAreValid, listed_in, session_at, lookups,
  session_get_session_lem,
}
use whisp.SessionControl.Changes.{AreValidIn-map}

exists_loop-first_text :
    (S : BTree session_tree_compare) (t : S.Tree) (sessions : ℕ → Option Session) (next : ℕ)
    (id : Bytes) (es : List Entry)
    → All (HeldSession sessions next) es
    → All (λ (e : Entry). S.lookup t e.0 ≡ some e.1) es
    → exists_loop S t sessions id (map (λ e. e.0) es) ≡ done (found_session (first_text id es)).0
unfolding exists_loop first_text
exists_loop-first_text S t sessions next id [] h l = refl
exists_loop-first_text S t sessions next id ((k, a) ∷ es) h l =
    ground (arith, h.0.at, h.0.named, exists_loop-first_text S t sessions next id es h.1 l.1)

module _ {P : BTree peer_tree_compare} {S : BTree session_tree_compare} where
  exists_tree :
      (p : Process P S) (t : S.Tree) (id : Bytes)
      → AreSessions p.sessions p.next (S.entries t)
      → exists_loop S t p.sessions id (S.keys t)
        ≡ done (found_session (first_text id (S.entries t))).0
  exists_tree p t id v =
      rw S.keys_lem
        (exists_loop-first_text S t p.sessions p.next id (S.entries t) v.held (lookups p t v))

  -- The check leaves the sessions as they are, but that the tree is there.
  pub record Checked (r : Ref S.Tree) (id : Bytes) (p : Process P S) : Type 0 where
    pub there : Ref S.Tree
    pub ran :
        exists_by_id_in r id p
        ≡ done
            ((found_session (first_text id (listed_in S r))).0, record p { session_tree = there })
    pub valid : (q : Process P S) → AreValidIn r q → AreValidIn there q
    pub same : listed_in S there ≡ listed_in S r

  pub exists_kept :
      (r : Ref S.Tree) (id : Bytes) (p : Process P S)
      → p.session_tree ≡ r
      → AreValidIn r p
      → Checked r id p
  unfolding exists_by_id_in first_text
  exists_kept no_tree id p e v = record {
    there = tree S.create;
    ran = refl;
    valid = λ q w. rw S.entries-create (record { held = tt; distinct = tt });
    same = S.entries-create;
  }
  exists_kept (tree t) id p e v = record {
    there = tree t;
    ran = rw (exists_tree p t id v) (
        ap
          (λ (x : Ref S.Tree).
            done ((found_session (first_text id (S.entries t))).0, record p { session_tree = x }))
          e);
    valid = λ q w. w;
    same = refl;
  }
  exists_kept dangling id p e v = absurd v

  -- What the search and the check both come to.
  pub record SameAnswer (id : Bytes) (p : Process P S) : Type 0 where
    pub answer : ℕ
    pub handle : Slot ℕ
    pub by_id : (answer, handle) ≡ found_session (session_at p id)
    pub after : Process P S
    pub got : session_get_session id p ≡ done (answer, handle)
    pub checked : session_check_exists_by_id id p ≡ done (answer, after)
    pub only_tree : after ≡ record p { session_tree = after.session_tree }
    pub same : listed_in S after.session_tree ≡ listed_in S p.session_tree
    pub valid : SessionsAreValid after

  -- On well-formed sessions `session_get_session` and `session_check_exists_by_id` both end, with the
  -- same answer: 1 where a session of the tree has the id, whose pointer the search also gives, and else 0.
  -- The check may create the tree; the sessions of the tree stay, and they are well formed.
  pub session_check_exists_by_id_lem :
      (id : Bytes) (p : Process P S) → SessionsAreValid p → SameAnswer id p
  unfolding session_check_exists_by_id
  session_check_exists_by_id_lem id p v =
      let c = exists_kept p.session_tree id p refl v in
      record {
        answer = (found_session (session_at p id)).0;
        handle = (found_session (session_at p id)).1;
        by_id = refl;
        after = record p { session_tree = c.there };
        got = session_get_session_lem id p v;
        checked = c.ran;
        only_tree = refl;
        same = c.same;
        valid =
            c.valid (record p { session_tree = c.there })
              (AreValidIn-map p.session_tree p (record p { session_tree = c.there }) (λ es w. w) v);
      }
