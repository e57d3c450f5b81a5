-- ===== src/Main/Signals.antt =====
-- What `signal_callback` of src/main/main.c does to the sessions, and to the user in one of them.
use whisp.Prelude.{
  ℕ, ◌==◌, ◌≡◌, ◌⊎◌, inl, inr, refl, ap, ◌∙◌, some, List, [], ◌∷◌, All, Bool-cases, ==_iff,
}
use whisp.Outcome.{Outcome, done}
use whisp.Btree.{BTree, Entry}
use whisp.Btree.Pointers.{All-map}
use whisp.Process.{Process, peer_tree_compare, session_tree_compare}
use whisp.SessionControl.View.{HeldSession, SessionsAreValid, listed_in, listed_held}
use whisp.SessionControl.Connected.{
  connected_of, connected_list, IsClosed, Closed, session_shutdown_lem,
  session_get_connected_sessions_lem,
}
use whisp.CString.{Bytes}
use whisp.Encryption.{Crypto}
use whisp.Des.{Cipher}
use whisp.UserInput.{Typed, commanding, in_session, user_input}
use whisp.UserInput.Typing.{user_input_closed}
use whisp.Main.Closing.{
  HasState, Closing, IsClosed-Closing, HasState-Closing, Closing-then, connected_of-Closing,
  All-HasState,
}
use whisp.Main.{Node, sigint, shutdown_loop, shutdown_all, on_interrupt, signal_callback}

module _ {P : BTree peer_tree_compare} {S : BTree session_tree_compare} where
  -- After the sessions of a list were shut down.
  pub record ShutDown (run : Outcome (Process P S)) (l : List ℕ) (p : Process P S) : Type 0 where
    pub after : Process P S
    pub ran : run ≡ done after
    pub closes : Closing p.sessions after.sessions
    pub closed : All (λ a. IsClosed a after.sessions) l
    pub only_sessions : after ≡ record p { sessions = after.sessions }

  Closed-Closing : (a : ℕ) (p : Process P S) (c : Closed a p) → Closing p.sessions c.after.sessions
  Closed-Closing a p c b = elim (Bool-cases (b == a)) [
    | inl e ↦ inl (rw ((==_iff b a).0 e) c.closed_after)
    | inr e ↦ inr (c.others b e)
  ]

  shutdown_loop_lem :
      (l : List ℕ) (p : Process P S)
      → All (HasState p.sessions) l
      → ShutDown (shutdown_loop l p) l p
  unfolding shutdown_loop
  shutdown_loop_lem [] p h = record {
    after = p;
    ran = refl;
    closes = λ b. inr refl;
    closed = tt;
    only_sessions = refl;
  }
  shutdown_loop_lem (a ∷ rest) p h =
      let (s, state, at, in_state) = h.0 in
      let c = session_shutdown_lem a s state p at in_state in
      let step = Closed-Closing a p c in
      let r = shutdown_loop_lem rest c.after (
        All-map (HasState p.sessions) rest
          (λ b g. HasState-Closing b p.sessions c.after.sessions step g) h.1) in
      record {
        after = r.after;
        ran = rw c.ran r.ran;
        closes = Closing-then p.sessions c.after.sessions r.after.sessions step r.closes;
        closed = (
          IsClosed-Closing a c.after.sessions r.after.sessions r.closes c.closed_after,
          r.closed,
        );
        only_sessions = r.only_sessions ∙ rw c.only_sessions refl;
      }

  shutdown_all_lem :
      (es : List Entry) (p : Process P S)
      → All (HeldSession p.sessions p.next) es
      → ShutDown (shutdown_all (connected_list p.sessions es) p) (connected_of p.sessions es) p
  unfolding shutdown_all connected_of
  shutdown_all_lem [] p h = record {
    after = p;
    ran = refl;
    closes = λ b. inr refl;
    closed = tt;
    only_sessions = refl;
  }
  shutdown_all_lem (e ∷ es) p h =
      shutdown_loop_lem (connected_of p.sessions (e ∷ es)) p
        (All-HasState p.sessions p.next (e ∷ es) h)

  -- What SIGINT does.
  pub record Interrupted (n : Node P S) : Type 0 where
    pub after : Process P S
    pub ran : signal_callback sigint n ≡ done (record n { process = after })
    pub none_connected : connected_of after.sessions (listed_in S after.session_tree) ≡ []
    pub closed :
        All
          (λ a. IsClosed a after.sessions)
          (connected_of n.process.sessions (listed_in S n.process.session_tree))
    pub closes : Closing n.process.sessions after.sessions
    pub only_sessions : after ≡ record n.process { sessions = after.sessions }

  pub signal_callback-Interrupted : (n : Node P S) → SessionsAreValid n.process → Interrupted n
  unfolding signal_callback on_interrupt
  signal_callback-Interrupted n v =
      let p = n.process in
      let es = listed_in S p.session_tree in
      let r = shutdown_all_lem es p (listed_held p.session_tree p v) in
      let same : r.after.session_tree ≡ p.session_tree =
        ap (λ (x : Process P S). x.session_tree) r.only_sessions in
      record {
        after = r.after;
        ran = rw (session_get_connected_sessions_lem p v) (rw r.ran refl);
        none_connected =
            rw same (connected_of-Closing p.sessions r.after.sessions es r.closes r.closed);
        closed = r.closed;
        closes = r.closes;
        only_sessions = r.only_sessions;
      }

-- The list has the address.
abbrev pub Among : ℕ → List ℕ → Type 0
Among a [] = ⊥
Among a (b ∷ l) = (a ≡ b) ⊎ Among a l

All-Among : (F : ℕ → Type 0) (a : ℕ) (l : List ℕ) → All F l → Among a l → F a
All-Among F a [] h i = absurd i
All-Among F a (b ∷ l) h (inl e) = rw e h.0
All-Among F a (b ∷ l) h (inr i) = All-Among F a l h.1 i

module _ {P : BTree peer_tree_compare} {S : BTree session_tree_compare} where
  -- A user who is in a connected session when SIGINT comes: the next line that is not empty is not
  -- sent and changes nothing, and the user is back at the commands.
  pub user_input-signal_callback :
      (C : Crypto) (D : Cipher) (a c : ℕ) (line : Bytes) (k : Typed) (n : Node P S)
      → SessionsAreValid n.process
      → Among a (connected_of n.process.sessions (listed_in S n.process.session_tree))
      → k.line ≡ some (c ∷ line)
      → (q : Process P S) × (signal_callback sigint n ≡ done (record n { process = q }))
        × (q.sent ≡ n.process.sent)
        × (user_input C D (in_session a) k q ≡ done ([], commanding, q))
  user_input-signal_callback C D a c line k n v among typed =
      let r = signal_callback-Interrupted n v in
      let l = connected_of n.process.sessions (listed_in S n.process.session_tree) in
      (
        r.after,
        r.ran,
        ap (λ (x : Process P S). x.sent) r.only_sessions,
        user_input_closed C D a c line k r.after
            (All-Among (λ b. IsClosed b r.after.sessions) a l r.closed among) typed,
      )
