-- ===== src/Sound/Updates.antt =====
-- An update of a session (src/net/authentication.c), a message that is sent
-- (src/net/secure_channel.c) and a pulse (src/net/discovery.c) leave a process well formed.
use whisp.Prelude.{ℕ, ◌≤◌, ◌==◌, ==_iff, ◌≡◌, ◌≢◌, refl, ◌∙◌, some, arith, Bool-cases, inl, inr}
use whisp.Outcome.{done, set, >>=-eq-done, deref-eq-done, deref}
use whisp.Btree.{BTree}
use whisp.Process.{
  Session, State, Process, peer_tree_compare, session_tree_compare, object, object-eq-done,
}
use whisp.SessionControl.View.{SessionsAreValid}
use whisp.SessionControl.Unique.{write-AreValidIn}
use whisp.Encryption.{Crypto}
use whisp.Authentication.{Draws, put_session, authentication_session_update}
use whisp.Authentication.Frame.{Leaves, InState}
use whisp.Authentication.Progress.{next_state, authentication_session_update-Follows}
use whisp.Sound.{IsSound, Keeps, store-Agrees, sessions-Agree}

module _ {P : BTree peer_tree_compare} {S : BTree session_tree_compare} where
  -- A session of the heap is written with its id and some state.
  pub write-SessionsAreValid :
      (a : ℕ) (s s' : Session) (state : State) (p q : Process P S)
      → SessionsAreValid p
      → p.sessions a ≡ some s
      → s'.session_id ≡ s.session_id
      → s'.current_state ≡ set state
      → q.session_tree ≡ p.session_tree
      → p.next ≤ q.next
      → q.sessions a ≡ some s'
      → ((b : ℕ) → b ≢ a → q.sessions b ≡ p.sessions b)
      → SessionsAreValid q
  write-SessionsAreValid a s s' state p q v at id in_state e le here others =
      let r = put_session a s' p in
      let w : SessionsAreValid r =
        write-AreValidIn p.session_tree a s s' state p r v at id in_state (omega arith) refl in
      sessions-Agree r q w e
        (λ b h. elim (Bool-cases (a == b)) [
          | inl i ↦ rw (← (==_iff a b).0 i) (here ∙ ground arith)
          | inr i ↦ others b (λ g. ground arith) ∙ rw i refl
        ])
        le

  -- What is updated is a session in some state.
  pub updated_session :
      (C : Crypto) (a : ℕ) (d : Draws) (state' : State) (p q : Process P S)
      → authentication_session_update C a d p ≡ done (state', q)
      → (s : Session) × (state : State) × (p.sessions a ≡ some s) × (s.current_state ≡ set state)
  unfolding authentication_session_update
  updated_session C a d state' p q h =
      let (s, hs, h1) = >>=-eq-done (object (p.sessions a)) _ h in
      let (state, hst, h2) = >>=-eq-done (deref s.current_state) _ h1 in
      (s, state, object-eq-done (p.sessions a) hs, deref-eq-done s.current_state hst)

  Advances-Keeps :
      (a : ℕ) (s : Session) (state : State) (p q : Process P S)
      → IsSound p
      → p.sessions a ≡ some s
      → Leaves a p q
      → InState a s state q
      → Keeps p q
  Advances-Keeps a s state p q v at l i = record {
    sound = record {
      store = store-Agrees p q v.store l.store (λ b h. rw l.peers refl) l.grows;
      sessions =
          write-SessionsAreValid a s i.session state p q v.sessions at i.session_id i.in_state
            l.session_tree l.grows i.at l.others;
    };
    configuration = l.configuration;
    grows = l.grows;
  }

  -- Any update of a session that goes through.
  pub authentication_session_update-Keeps :
      (C : Crypto) (a : ℕ) (d : Draws) (state' : State) (p q : Process P S)
      → IsSound p
      → authentication_session_update C a d p ≡ done (state', q)
      → Keeps p q
  authentication_session_update-Keeps C a d state' p q v h =
      let (s, state, at, in_state) = updated_session C a d state' p q h in
      let (e, l, i) =
        authentication_session_update-Follows C a s state state' d p q at in_state h in
      Advances-Keeps a s (next_state state) p q v at l i
