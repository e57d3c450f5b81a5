-- ===== src/SessionControl/Destroy.antt =====
-- `session_destroy` of src/data/sessioncontrol.c: a session goes from the tree.
use whisp.Prelude.{
  All, ℕ, ◌+◌, ◌≡◌, refl, ap, ◌∙◌, sym, ◌≢◌, Option, none, some, arith, length, if◌then◌else◌,
  Bool-cases, inl, inr,
}
use whisp.CString.{Bytes, CStr, strcmp_eq}
use whisp.Outcome.{done, unset, set}
use whisp.Btree.{BTree, Entry, find, Inserts}
use whisp.Btree.Pointers.{
  Absent, All-map₂, All-Inserts_rest, All-Inserts_new, Distinct-Inserts_rest,
  first_text-Inserts_other, length-Inserts,
}
use whisp.Process.{
  Session, Process, peer_tree_compare, session_tree_compare, Ref, no_tree, tree, dangling, write,
}
use whisp.Peerstore.{existing}
use whisp.SessionControl.{session_destroy}
use whisp.SessionControl.View.{
  HeldSession, AreSessions, listed_in, session_at, AreValidIn, SessionsAreValid,
}

-- A freed session is no other entry's.
freed-HeldSession :
    (sessions : ℕ → Option Session) (next a : ℕ) (s : Session) (k : CStr) (e : Entry)
    → sessions a ≡ some s
    → s.session_id ≡ set k
    → e.0.at ≢ k.at
    → HeldSession sessions next e
    → HeldSession (write sessions a none) next e
freed-HeldSession sessions next a s k e at named apart h =
    let other : a ≢ e.1 = λ same.
      let stored : sessions e.1 ≡ some s = ap sessions (sym same) ∙ at in
      let keys : k ≡ e.0 = ground (arith, stored, h.at, named, h.named) in
      apart (ap (λ (c : CStr). c.at) (sym keys)) in
    record {
      session = h.session;
      state = h.state;
      at = ground arith;
      named = h.named;
      in_state = h.in_state;
      key_below = h.key_below;
      below = h.below;
    }

-- The pointers that the function tests were written.
pub record IsReadable (s : Session) : Type 0 where
  pub secret : s.shared_secret ≢ unset
  pub foriegn_key : s.foriegn_public_key ≢ unset
  pub local_key : s.local_public_key ≢ unset

module _ {P : BTree peer_tree_compare} {S : BTree session_tree_compare} where
  existing-listed :
      (r : Ref S.Tree) (k : CStr) (a : ℕ) (p : Process P S)
      → AreValidIn r p
      → find session_tree_compare k (listed_in S r) ≡ some a
      → (t : S.Tree) × (existing r ≡ done t)
        × (S.entries t ≡ listed_in S r)
        × AreSessions p.sessions p.next (S.entries t)
  unfolding find
  existing-listed no_tree k a p v h = cc
  existing-listed (tree t) k a p v h = (t, refl, refl, v)
  existing-listed dangling k a p v h = absurd v

  session_destroy_ran :
      (a : ℕ) (s : Session) (k : CStr) (p : Process P S) (t : S.Tree)
      → p.sessions a ≡ some s
      → existing p.session_tree ≡ done t
      → s.session_id ≡ set k
      → IsReadable s
      → session_destroy a p
        ≡ done (record p { session_tree = tree (S.remove t k); sessions = write p.sessions a none })
  unfolding session_destroy
  session_destroy_ran a s k p t at e named r = rw (at, e, named) (ground arith)

  -- What `session_destroy` promises for the session at `a`, with id `k`.
  pub record Destroyed (a : ℕ) (k : CStr) (p : Process P S) : Type 1 where
    pub after : Process P S
    pub ran : session_destroy a p ≡ done after
    pub valid : SessionsAreValid after
    pub gone : Absent k (listed_in S after.session_tree)
    pub map_other :
        (id : Bytes)
        → session_at after id
          ≡ (if strcmp_eq k.text id then session_at after id else session_at p id)
    pub sessions_after : after.sessions ≡ write p.sessions a none
    pub next_after : after.next ≡ p.next
    pub peers_after : after.peers ≡ p.peers
    pub store_after : after.store ≡ p.store
    pub configuration_after : after.configuration ≡ p.configuration
    pub sent_after : after.sent ≡ p.sent
    pub kept :
        (Q : Entry → Type 0)
        → All Q (listed_in S p.session_tree)
        → All Q (listed_in S after.session_tree)
    pub count_after :
        length (listed_in S p.session_tree) ≡ length (listed_in S after.session_tree) + 1

  -- A session of the tree is destroyed: its pointer is no key any more, there is one session less,
  -- every other id is found as before, no other session is touched, and all stays well formed.
  pub session_destroy_lem :
      (a : ℕ) (s : Session) (k : CStr) (p : Process P S)
      → SessionsAreValid p
      → p.sessions a ≡ some s
      → s.session_id ≡ set k
      → find session_tree_compare k (listed_in S p.session_tree) ≡ some a
      → IsReadable s
      → Destroyed a k p
  session_destroy_lem a s k p v at named found readable =
      let (t, e, same, w) = existing-listed p.session_tree k a p v found in
      let r = S.entries-remove t k a (rw same found) in
      let h = All-Inserts_new (HeldSession p.sessions p.next) r.taken w.held in
      let key_is : r.key ≡ k = ground (arith, h.at, h.named) in
      let taken : Inserts (k, a) (S.entries (S.remove t k)) (S.entries t) = rw key_is at r.taken in
      let (distinct, gone) = Distinct-Inserts_rest taken w.distinct in
      record {
        after = record p { session_tree = tree (S.remove t k); sessions = write p.sessions a none };
        ran = session_destroy_ran a s k p t at e named readable;
        valid = record {
          held =
              All-map₂ (λ (f : Entry). f.0.at ≢ k.at) (S.entries (S.remove t k))
                (λ f apart hf. freed-HeldSession p.sessions p.next a s k f at named apart hf) gone
                (All-Inserts_rest (HeldSession p.sessions p.next) taken w.held);
          distinct = distinct;
        };
        gone = gone;
        map_other = λ id. elim (Bool-cases (strcmp_eq k.text id)) [
          | inl e ↦ rw e refl
          | inr e ↦ rw e (sym (first_text-Inserts_other k a id taken e) ∙ rw same refl)
        ];
        sessions_after = refl;
        next_after = refl;
        peers_after = refl;
        store_after = refl;
        configuration_after = refl;
        sent_after = refl;
        kept = λ Q h. All-Inserts_rest Q taken (rw same h);
        count_after = rw (← same) (omega (arith, length-Inserts taken));
      }
