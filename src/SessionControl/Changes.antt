-- ===== src/SessionControl/Changes.antt =====
-- What `session_add`, `session_create` and `session_destroy` of src/data/sessioncontrol.c do to the
-- sessions.
use whisp.Prelude.{
  ℕ, ◌+◌, ◌≤◌, ◌<◌, ◌≡◌, refl, ap, subst, ◌∙◌, Option, none, some, List, arith, length,
  if◌then◌else◌,
}
use whisp.CString.{Bytes, CStr, strcmp_eq}
use whisp.Outcome.{done, set}
use whisp.Btree.{BTree, Entry, Inserts}
use whisp.Btree.Pointers.{
  Absent, All-map, All-Inserts, Distinct-Inserts, length-Inserts, find-Absent, first_text-Inserts,
}
use whisp.Process.{
  Session, Process, peer_tree_compare, session_tree_compare, Ref, no_tree, tree, dangling, ensured,
}
use whisp.Peerstore.Changes.{length-map}
use whisp.SessionControl.{session_add, sessions_in, session_count}
use whisp.SessionControl.View.{
  HeldSession, AreSessions, listed_in, session_at, AreValidIn, SessionsAreValid,
  session_tree_compare-ByAddress,
}
use whisp.SessionControl.Unique.{OnlyAt, OnlyAt-Inserts}

HeldSession-Agrees :
    (new old : ℕ → Option Session) (next later : ℕ) (e : Entry)
    → ((b : ℕ) → b < next → new b ≡ old b)
    → next ≤ later
    → HeldSession old next e
    → HeldSession new later e
HeldSession-Agrees new old next later e same le h = record {
  session = h.session;
  state = h.state;
  at = same e.1 h.below ∙ h.at;
  named = h.named;
  in_state = h.in_state;
  key_below = omega arith;
  below = omega arith;
}

pub AreSessions-Agrees :
    (new old : ℕ → Option Session) (next later : ℕ) (es : List Entry)
    → ((b : ℕ) → b < next → new b ≡ old b)
    → next ≤ later
    → AreSessions old next es
    → AreSessions new later es
AreSessions-Agrees new old next later es same le v = record {
  held =
      All-map (HeldSession old next) es (λ e h. HeldSession-Agrees new old next later e same le h)
        v.held;
  distinct = v.distinct;
}

pub sessions_in_tree :
    (S : BTree session_tree_compare) (t : S.Tree)
    → sessions_in S (tree t) ≡ done (length (S.entries t))
unfolding sessions_in
sessions_in_tree S t = rw S.keys_lem (ap done (length-map (λ (e : Entry). e.0) (S.entries t)))

module _ {P : BTree peer_tree_compare} {S : BTree session_tree_compare} where
  pub AreValidIn-map :
      (r : Ref S.Tree) (p q : Process P S)
      → ((es : List Entry) → AreSessions p.sessions p.next es → AreSessions q.sessions q.next es)
      → AreValidIn r p
      → AreValidIn r q
  AreValidIn-map no_tree p q f v = tt
  AreValidIn-map (tree t) p q f v = f (S.entries t) v
  AreValidIn-map dangling p q f v = v

  -- A tree that is there, or was created just now, holds the entries of the sessions.
  pub ensured-listed :
      (r : Ref S.Tree) (p : Process P S)
      → AreValidIn r p
      → (t : S.Tree) × (ensured S.create r ≡ done t)
        × (S.entries t ≡ listed_in S r)
        × AreSessions p.sessions p.next (S.entries t)
  ensured-listed no_tree p v =
      (S.create, refl, S.entries-create, rw S.entries-create (record { held = tt; distinct = tt }))
  ensured-listed (tree t) p v = (t, refl, refl, v)
  ensured-listed dangling p v = absurd v

  pub session_add_ran :
      (a : ℕ) (p : Process P S) (t : S.Tree) (s : Session) (k : CStr)
      → ensured S.create p.session_tree ≡ done t
      → p.sessions a ≡ some s
      → s.session_id ≡ set k
      → length (S.entries (S.add t k a)) ≡ length (S.entries t) + 1
      → session_add a p ≡ done (record p { session_tree = tree (S.add t k a) })
  unfolding session_add session_count
  session_add_ran a p t s k e at named more =
      rw e (
        rw (sessions_in_tree S t, at, named, sessions_in_tree S (S.add t k a), more) (ground arith))

  -- What adding the session at `a`, with id `k`, promises.
  pub record SessionAdded (k : CStr) (a : ℕ) (p : Process P S) : Type 0 where
    pub after : Process P S
    pub ran : session_add a p ≡ done after
    pub valid : SessionsAreValid after
    pub only_tree : after ≡ record p { session_tree = after.session_tree }
    pub map_after :
        (id : Bytes)
        → session_at after id ≡ (if strcmp_eq k.text id then some a else session_at p id)
    pub count_after : session_count after ≡ done (length (listed_in S p.session_tree) + 1)
    pub only_after : OnlyAt k.text a (listed_in S after.session_tree)
    pub joined : Inserts (k, a) (listed_in S p.session_tree) (listed_in S after.session_tree)

  -- A session whose id is not in use, neither its text nor its pointer, is added: no check of the
  -- count stops the program, the sessions stay well formed, the new one is found under its id and
  -- every other id as before, and nothing else changes.
  pub session_add_lem :
      (a : ℕ) (p : Process P S) (k : CStr)
      → SessionsAreValid p
      → HeldSession p.sessions p.next (k, a)
      → Absent k (listed_in S p.session_tree)
      → session_at p k.text ≡ none
      → SessionAdded k a p
  unfolding session_count
  session_add_lem a p k v h fresh new =
      let (t, e, same, w) = ensured-listed p.session_tree p v in
      let absent : Absent k (S.entries t) = rw same fresh in
      let i =
        S.entries-add t k a (find-Absent session_tree_compare-ByAddress k (S.entries t) absent) in
      let more : length (S.entries (S.add t k a)) ≡ length (S.entries t) + 1 =
        omega (arith, length-Inserts i) in
      record {
        after = record p { session_tree = tree (S.add t k a) };
        ran = session_add_ran a p t h.session k e h.at h.named more;
        valid = record {
          held = All-Inserts (HeldSession p.sessions p.next) i h w.held;
          distinct = Distinct-Inserts i absent w.distinct;
        };
        only_tree = refl;
        map_after = λ id. first_text-Inserts k a id i (rw same new) ∙ rw same refl;
        count_after = sessions_in_tree S (S.add t k a) ∙ ap done (more ∙ rw same refl);
        only_after = OnlyAt-Inserts k a i (rw same new);
        joined = subst (λ (es : List Entry). Inserts (k, a) es (S.entries (S.add t k a))) same i;
      }
