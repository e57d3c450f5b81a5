-- ===== src/Sound/Checks.antt =====
-- What the check for a known session decides (`passive_listener_callback` of src/net/passive.c).
use whisp.Prelude.{
  ℕ, zero, suc, ◌==◌, ==_iff, ◌<◌, ◌≤◌, ◌≡◌, refl, ◌∙◌, sym, subst, Option, none, some, List, [],
  ◌∷◌, arith, All, Option-cases, Bool-cases, inl, inr,
}
use whisp.CString.{Bytes, CStr, strcmp_eq}
use whisp.Outcome.{done, done_injective, set, >>=-eq-done, ◌>>=◌}
use whisp.Btree.{BTree, Entry}
use whisp.Btree.Pointers.{Absent, All-map, first_text}
use whisp.Process.{Session, State, Process, Ref, write, peer_tree_compare, session_tree_compare}
use whisp.SessionControl.{session_add, found_session}
use whisp.SessionControl.View.{
  HeldSession, AreValidIn, listed_in, session_at, session_get_session_lem, listed_held,
}
use whisp.SessionControl.Changes.{AreValidIn-map, AreSessions-Agrees}
use whisp.Encryption.{Crypto}
use whisp.Authentication.{Draws, put_session, authentication_session_update}
use whisp.Passive.{replace_session, keep_session, updated}
use whisp.Sound.{IsSound, Keeps, Keeps-refl, store-Agrees, sessions-Agree}
use whisp.Sound.Lookups.{OnlyReads}
use whisp.Sound.Messages.{added_and_updated}
use whisp.Sound.Replacements.{Room, replace_session-Keeps, written}

-- The result of a search that found something.
found_at : (o : Option ℕ) (n : ℕ) (a : ℕ) → found_session o ≡ (suc n, set a) → o ≡ some a
found_at none n a h = cc
found_at (some b) n a h = cc

-- What is found lies below what all entries lie below.
entry_below :
    (id : Bytes) (o a : ℕ) (es : List Entry)
    → All (λ (e : Entry). (e.0.at < a) × (e.1 < a)) es
    → first_text id es ≡ some o
    → o < a
unfolding first_text
entry_below id o a [] h e = cc
entry_below id o a ((k, b) ∷ es) h e = elim (Bool-cases (strcmp_eq k.text id)) [
  | inl f ↦ let same : b ≡ o = ground (arith, e, f) in rw (← same) h.0.1
  | inr f ↦ entry_below id o a es h.1 (ground (arith, e, f))
]

-- Neither reading nor the new session changed what was on the heap.
pub unread :
    (a b : ℕ) (v : Option Session) (heap old : ℕ → Option Session)
    → b < a
    → heap b ≡ old b
    → write heap a v b ≡ old b
unread a b v heap old h e = ground arith

module _ {P : BTree peer_tree_compare} {S : BTree session_tree_compare} where
  Room-IsSound :
      (a : ℕ) (k : CStr) (s : Session) (p : Process P S)
      → Room a k p
      → p.sessions a ≡ some s
      → IsSound p
  Room-IsSound a k s p room at = record {
    store = room.store;
    sessions =
        sessions-Agree (put_session a s p) p (room.sessions s) refl
          (λ b h. elim (Bool-cases (a == b)) [
            | inl e ↦ rw (← (==_iff a b).0 e) (at ∙ sym (written a s p.sessions))
            | inr e ↦ rw e refl
          ])
          (omega arith);
  }

  Room-Absent :
      (a : ℕ) (k : CStr) (p : Process P S) → Room a k p → Absent k (listed_in S p.session_tree)
  Room-Absent a k p room =
      All-map (λ (e : Entry). (e.0.at < a) × (e.1 < a)) (listed_in S p.session_tree)
        (λ e h. let f = room.key_above in omega arith) room.old

  updated-some :
      (C : Crypto) (a : ℕ) (d : Draws) (t p q : Process P S)
      → updated C a d (some t) p ≡ done q
      → (state : State) × (authentication_session_update C a d t ≡ done (state, q))
  unfolding updated
  updated-some C a d t p q h =
      let ((state, z), hz, h1) =
        >>=-eq-done (authentication_session_update C a d t) (λ x. done x.1) h in
      let same : z ≡ q = done_injective h1 in
      (state, subst (λ x. authentication_session_update C a d t ≡ done (state, x)) same hz)

  -- On the result of the check. Where the search fails nothing is done.
  pub keep_session-Keeps :
      (C : Crypto) (found a : ℕ) (k : CStr) (s : Session) (d : Draws) (p : Process P S)
      (r : Option (Process P S)) (q : Process P S)
      → Room a k p
      → p.sessions a ≡ some s
      → s.session_id ≡ set k
      → keep_session found a k.text p ≡ done r
      → updated C a d r p ≡ done q
      → Keeps p q
  unfolding keep_session updated
  keep_session-Keeps C zero a k s d p r q room at named h run =
      let (t, ht, h1) = >>=-eq-done (session_add a p) (λ q. done (some q)) h in
      let is : some t ≡ r = done_injective h1 in
      let (state, hz) =
        updated-some C a d t p q (subst (λ x. updated C a d x p ≡ done q) (sym is) run) in
      added_and_updated C a k s d state p t q (Room-IsSound a k s p room at) at named
        (Room-Absent a k p room) room.below room.key_below ht hz
  keep_session-Keeps C (suc n) a k s d p r q room at named h run =
      let v = Room-IsSound a k s p room at in
      let found = session_get_session_lem k.text p v.sessions in
      elim (Option-cases (session_at p k.text)) [
        | inl e ↦
            let is : r ≡ none = ground (arith, h, found, e) in
            let same : q ≡ p =
              done_injective (sym (subst (λ x. updated C a d x p ≡ done q) is run)) in
            rw same (Keeps-refl p v)
        | inr (o, e) ↦
            let go : (replace_session o a p >>= λ t. done (some t)) ≡ done r =
              ground (arith, h, found, e) in
            let (t, ht, h1) = >>=-eq-done (replace_session o a p) (λ t. done (some t)) go in
            let is : some t ≡ r = done_injective h1 in
            let (state, hz) =
              updated-some C a d t p q (subst (λ x. updated C a d x p ≡ done q) (sym is) run) in
            replace_session-Keeps C o a k s d state p t q room at named e
              (entry_below k.text o a (listed_in S p.session_tree) room.old e) ht hz
      ]

  -- A session that was read is at an address that no entry has.
  pub Room-arrived :
      (a : ℕ) (k : CStr) (s : Session) (p m : Process P S)
      → IsSound p
      → OnlyReads p m
      → a ≡ p.next
      → a < m.next
      → a ≤ k.at
      → k.at < m.next
      → (there : Ref S.Tree)
      → ((x : Process P S)
          → AreValidIn {P = P} {S = S} p.session_tree x
          → AreValidIn {P = P} {S = S} there x)
      → listed_in S there ≡ listed_in S p.session_tree
      → Room a k (record (put_session a s m) { session_tree = there })
  Room-arrived a k s p m v reads here below above key_below there valid same =
      let q : Process P S = record (put_session a s m) { session_tree = there } in
      record {
        store = store-Agrees m q reads.store refl (λ b h. refl) (omega arith);
        sessions = λ s'.
            let z = put_session a s' q in
            valid z (
              AreValidIn-map p.session_tree p z
                (λ es w.
                  AreSessions-Agrees z.sessions p.sessions p.next z.next es
                    (λ b h. unread a b (some s') q.sessions p.sessions (omega arith) (
                      unread a b (some s) m.sessions p.sessions (omega arith)
                        (rw reads.sessions_after refl)))
                    reads.grows w)
                v.sessions);
        old = rw same (
            All-map (HeldSession p.sessions p.next) (listed_in S p.session_tree)
              (λ e h. (omega (arith, h.key_below), omega (arith, h.below)))
              (listed_held p.session_tree p v.sessions));
        below = below;
        key_above = above;
        key_below = key_below;
      }
