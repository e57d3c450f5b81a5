-- ===== src/Sound/Additions.antt =====
-- Sessions that are added, made and taken out (src/data/sessioncontrol.c), whatever ids are in use,
-- leave the sessions well formed.
use whisp.Prelude.{ℕ, ◌+◌, ◌==◌, ◌≤◌, ◌≡◌, refl, ap, ◌∙◌, sym, List, arith, length}
use whisp.CString.{CStr}
use whisp.Outcome.{Outcome, done, >>=-eq-done, jnx_check, ◌>>=◌, ◌>>◌}
use whisp.Btree.{BTree}
use whisp.Btree.Pointers.{
  Absent, All-map, All-Inserts, Distinct-Inserts, length-Inserts, find-Absent,
}
use whisp.Process.{
  Session, Process, pre_handshake, peer_tree_compare, session_tree_compare, tree, ensured, object,
}
use whisp.SessionControl.{session_add, session_count, session_create, session_generate_id}
use whisp.SessionControl.View.{
  HeldSession, listed_in, SessionsAreValid, listed_held, session_tree_compare-ByAddress,
}
use whisp.SessionControl.Changes.{AreSessions-Agrees, ensured-listed, session_add_ran}
use whisp.SessionControl.Create.{new_session, allocated}
use whisp.Peerstore.View.{StoreIsValid}
use whisp.Sound.{IsSound, Keeps, store-Agrees}

-- A last count that is checked does not change what is returned.
counted {ℓ} :
    {A : Type ℓ} (count : Outcome ℕ) (c : ℕ) (x y : A)
    → (count >>= λ n. jnx_check (n == c) >> done x) ≡ done y
    → x ≡ y
counted count c x y h =
    let (n, hn, h1) = >>=-eq-done count (λ n. jnx_check (n == c) >> done x) h in
    let (u, hu, h2) = >>=-eq-done (jnx_check (n == c)) (λ _. done x) h1 in cc

module _ {P : BTree peer_tree_compare} {S : BTree session_tree_compare} where
  -- Only the tree of the sessions differs.
  pub record Joined (p q : Process P S) : Type 0 where
    pub valid : SessionsAreValid q
    pub in_tree : S.Tree
    pub only_tree : q ≡ record p { session_tree = tree in_tree }

  -- A session with a pointer that is no key yet joins the others, also where its text is in use.
  pub session_add-Joined :
      (a : ℕ) (k : CStr) (p q : Process P S)
      → SessionsAreValid p
      → HeldSession p.sessions p.next (k, a)
      → Absent k (listed_in S p.session_tree)
      → session_add a p ≡ done q
      → Joined p q
  session_add-Joined a k p q v h fresh ran =
      let (t, e, same, w) = ensured-listed p.session_tree p v in
      let absent : Absent k (S.entries t) = rw same fresh in
      let i =
        S.entries-add t k a (find-Absent session_tree_compare-ByAddress k (S.entries t) absent) in
      let more : length (S.entries (S.add t k a)) ≡ length (S.entries t) + 1 =
        omega (arith, length-Inserts i) in
      let r : Process P S = record p { session_tree = tree (S.add t k a) } in
      let is : q ≡ r = let go = session_add_ran a p t h.session k e h.at h.named more in cc in
      record {
        valid = rw is (record {
          held = All-Inserts (HeldSession p.sessions p.next) i h w.held;
          distinct = Distinct-Inserts i absent w.distinct;
        });
        in_tree = S.add t k a;
        only_tree = is;
      }

  -- The keys of the sessions lie below `next`.
  pub listed-Absent :
      (k : CStr) (p : Process P S)
      → SessionsAreValid p
      → p.next ≤ k.at
      → Absent k (listed_in S p.session_tree)
  listed-Absent k p v le =
      All-map (HeldSession p.sessions p.next) (listed_in S p.session_tree)
        (λ e h. omega (arith, h.key_below)) (listed_held p.session_tree p v)

  -- The process with the session that `session_create` makes, before it is added.
  made_lem :
      (t : S.Tree) (s : Session) (p : Process P S)
      → SessionsAreValid p
      → ensured S.create p.session_tree ≡ done t
      → SessionsAreValid (allocated t s p)
  made_lem t s p v e =
      let (t', e', same, w) = ensured-listed p.session_tree p v in
      let is : t ≡ t' = cc in
      rw is (
        AreSessions-Agrees (allocated t' s p).sessions p.sessions p.next (p.next + 2) (S.entries t')
          (λ b h. ground arith) (omega arith) w)

  -- The pointer of a new text is no key of the tree that was there, or was created just now.
  made-Absent :
      (t : S.Tree) (k : CStr) (p : Process P S)
      → SessionsAreValid p
      → ensured S.create p.session_tree ≡ done t
      → p.next ≤ k.at
      → Absent k (S.entries t)
  made-Absent t k p v e le =
      let (t', e', same, w) = ensured-listed p.session_tree p v in
      let is : t ≡ t' = cc in rw is (rw same (listed-Absent k p v le))

  -- From `p` over `m`, with the same peers and settings, to `q`.
  pub added_Keeps :
      (p m q : Process P S)
      → StoreIsValid p
      → Joined m q
      → m.store ≡ p.store
      → m.peers ≡ p.peers
      → m.configuration ≡ p.configuration
      → p.next ≤ m.next
      → Keeps p q
  added_Keeps p m q v j e1 e2 e3 le =
      let w : StoreIsValid m = store-Agrees p m v e1 (λ b h. rw e2 refl) le in
      let o = j.only_tree in
      record {
        sound = record {
          store =
              store-Agrees m q w (ap (λ (x : Process P S). x.store) o)
                (λ b h. ap (λ (x : Process P S). x.peers b) o)
                (let e = ap (λ (x : Process P S). x.next) o in omega arith);
          sessions = j.valid;
        };
        configuration = ap (λ (x : Process P S). x.configuration) o ∙ e3;
        grows = let e = ap (λ (x : Process P S). x.next) o in omega arith;
      }

  -- A session that was made between two peers, whatever its id.
  pub session_create-Keeps :
      (local foriegn : ℕ) (g : List ℕ) (id : CStr) (p q : Process P S)
      → IsSound p
      → session_create local foriegn g p ≡ done (id, q)
      → Keeps p q
  unfolding session_create
  session_create-Keeps local foriegn g id p q v h =
      let (t, ht, h1) = >>=-eq-done (ensured S.create p.session_tree) _ h in
      let (text, hx, h2) = >>=-eq-done (session_generate_id g) _ h1 in
      let (l, hl, h3) = >>=-eq-done (object (p.peers local)) _ h2 in
      let k : CStr = record { at = p.next + 1; text = text } in
      let s = new_session local foriegn k l.guid in
      let m = allocated t s p in
      let (c, hc, h4) = >>=-eq-done (session_count m) _ h3 in
      let (r, hr, h5) = >>=-eq-done (session_add p.next m) _ h4 in
      let pair = counted (session_count r) (c + 1) (k, r) (id, q) h5 in
      let is : q ≡ r = sym (ap (λ (x : CStr × Process P S). x.1) pair) in
      let w = made_lem t s p v.sessions ht in
      let held : HeldSession m.sessions m.next (k, p.next) = record {
        session = s;
        state = pre_handshake;
        at = ground arith;
        named = refl;
        in_state = refl;
        key_below = omega arith;
        below = omega arith;
      } in
      let fresh = made-Absent t k p v.sessions ht (omega arith) in
      let j = session_add-Joined p.next k m r w held fresh hr in
      rw is (added_Keeps p m r v.store j refl refl refl (omega arith))
