-- ===== src/SessionControl/Connected.antt =====
-- The connected sessions: `session_get_connected_sessions` and `session_shutdown` of
-- src/data/sessioncontrol.c.
use whisp.Prelude.{
  ℕ, ◌==◌, ◌≡◌, refl, ap, ◌∙◌, sym, Bool, true, false, Option, none, some, List, [], ◌∷◌, map,
  length, arith, All, if◌then◌else◌, Bool-cases, inl, inr,
}
use whisp.Outcome.{Outcome, done, unset, null, set, ◌>>=◌}
use whisp.Btree.{BTree, Entry}
use whisp.Process.{
  State, closing, dormant, error, pre_handshake, public_key_exchange, handshaking, connected, other,
  Session, Process, peer_tree_compare, session_tree_compare, Ref, no_tree, tree, dangling, write,
  is_connected, is_closing,
}
use whisp.SessionControl.{
  connected_loop, connected_in, session_get_connected_sessions, session_shutdown,
}
use whisp.SessionControl.View.{HeldSession, listed_in, AreValidIn, SessionsAreValid, lookups}

-- The session there is connected.
unfoldable pub in_connection : Option Session → Bool
in_connection none = false
in_connection (some s) = elim s.current_state [
  | set state ↦ is_connected state
  | unset ↦ false
  | null ↦ false
]

-- The addresses of the entries whose session is connected.
unfoldable pub connected_of : (ℕ → Option Session) → List Entry → List ℕ
connected_of sessions [] = []
connected_of sessions ((k, a) ∷ es) =
    if in_connection (sessions a) then a ∷ connected_of sessions es else connected_of sessions es

-- NULL where there is no session at all.
abbrev pub connected_list : (ℕ → Option Session) → List Entry → Option (List ℕ)
connected_list sessions [] = none
connected_list sessions (e ∷ es) = some (connected_of sessions (e ∷ es))

-- All addresses but one.
unfoldable pub without_address : ℕ → List ℕ → List ℕ
without_address a [] = []
without_address a (b ∷ bs) = if b == a then without_address a bs else b ∷ without_address a bs

in_connection_held :
    (sessions : ℕ → Option Session) (next : ℕ) (e : Entry) (h : HeldSession sessions next e)
    → in_connection (sessions e.1) ≡ is_connected h.state
unfolding in_connection
in_connection_held sessions next e h = ground (arith, h.at, h.in_state)

in_connection_state :
    (s : Session) (state : State)
    → s.current_state ≡ set state
    → in_connection (some s) ≡ is_connected state
unfolding in_connection
in_connection_state s state c = ground (arith, c)

closing-is_connected : (state : State) → is_closing state ≡ true → is_connected state ≡ false
closing-is_connected closing h = refl
closing-is_connected dormant h = refl
closing-is_connected error h = refl
closing-is_connected pre_handshake h = refl
closing-is_connected public_key_exchange h = refl
closing-is_connected handshaking h = refl
closing-is_connected connected h = sym h
closing-is_connected (other z) h = refl

closing-of : (state : State) → is_closing state ≡ true → state ≡ closing
closing-of closing h = refl
closing-of dormant h = cc
closing-of error h = cc
closing-of pre_handshake h = cc
closing-of public_key_exchange h = cc
closing-of handshaking h = cc
closing-of connected h = cc
closing-of (other z) h = cc

-- The session there is in SESSION_CLOSING.
abbrev pub IsClosed : ℕ → (ℕ → Option Session) → Type 0
IsClosed a sessions = (s : Session) × (sessions a ≡ some s) × (s.current_state ≡ set closing)

connected_loop-connected_of :
    (S : BTree session_tree_compare) (t : S.Tree) (sessions : ℕ → Option Session) (next : ℕ)
    (es : List Entry)
    → All (HeldSession sessions next) es
    → All (λ (e : Entry). S.lookup t e.0 ≡ some e.1) es
    → connected_loop S t sessions (map (λ e. e.0) es) ≡ done (connected_of sessions es)
unfolding connected_loop connected_of
connected_loop-connected_of S t sessions next [] h l = refl
connected_loop-connected_of S t sessions next ((k, a) ∷ es) h l =
    let rest = connected_loop-connected_of S t sessions next es h.1 l.1 in
    let c = in_connection_held sessions next (k, a) h.0 in
    let g = h.0 in ground (arith, l.0, g.at, g.in_state, c, rest)

some_list :
    (sessions : ℕ → Option Session) (es : List Entry) (m : Outcome (List ℕ))
    → m ≡ done (connected_of sessions es)
    → (if length (map (λ (e : Entry). e.0) es) == 0
        then done none
        else (m >>= λ cl. done (some cl)))
      ≡ done (connected_list sessions es)
some_list sessions [] m h = refl
some_list sessions (e ∷ es) m h = ground (arith, h)

-- A session that is closed leaves the list, and only it.
connected_of-write :
    (sessions : ℕ → Option Session) (a : ℕ) (s : Option Session) (es : List Entry)
    → in_connection s ≡ false
    → connected_of (write sessions a s) es ≡ without_address a (connected_of sessions es)
unfolding connected_of without_address
connected_of-write sessions a s [] h = refl
connected_of-write sessions a s ((k, b) ∷ es) h =
    ground (arith, h, connected_of-write sessions a s es h)

connected_of-same :
    (sessions : ℕ → Option Session) (a : ℕ) (es : List Entry)
    → in_connection (sessions a) ≡ false
    → connected_of sessions es ≡ without_address a (connected_of sessions es)
unfolding connected_of without_address
connected_of-same sessions a [] h = refl
connected_of-same sessions a ((k, b) ∷ es) h = ground (arith, h, connected_of-same sessions a es h)

module _ {P : BTree peer_tree_compare} {S : BTree session_tree_compare} where
  connected_in_lem :
      (r : Ref S.Tree) (p : Process P S)
      → AreValidIn r p
      → connected_in r p ≡ done (connected_list p.sessions (listed_in S r))
  connected_in_lem no_tree p v = refl
  connected_in_lem (tree t) p v = rw S.keys_lem (
      some_list p.sessions (S.entries t) _
        (connected_loop-connected_of S t p.sessions p.next (S.entries t) v.held (lookups p t v)))
  connected_in_lem dangling p v = absurd v

  -- On well-formed sessions the list has the addresses of exactly the sessions that are connected, in
  -- the order of the tree; it is NULL where there is no session at all.
  pub session_get_connected_sessions_lem :
      (p : Process P S)
      → SessionsAreValid p
      → session_get_connected_sessions p
        ≡ done (connected_list p.sessions (listed_in S p.session_tree))
  unfolding session_get_connected_sessions
  session_get_connected_sessions_lem p v = connected_in_lem p.session_tree p v

  session_shutdown_ran :
      (a : ℕ) (s : Session) (state : State) (p : Process P S)
      → p.sessions a ≡ some s
      → s.current_state ≡ set state
      → session_shutdown a p
        ≡ done (
            if is_closing state then p else record p {
              sessions = write p.sessions a (some (record s { current_state = set closing }));
            })
  unfolding session_shutdown
  session_shutdown_ran a s state p at c = ground (arith, at, c)

  -- What is left of a process after a session was closed.
  pub record Closed (a : ℕ) (p : Process P S) : Type 0 where
    pub after : Process P S
    pub ran : session_shutdown a p ≡ done after
    pub connected_after :
        (es : List Entry)
        → connected_of after.sessions es ≡ without_address a (connected_of p.sessions es)
    pub others : (b : ℕ) → (b == a) ≡ false → after.sessions b ≡ p.sessions b
    pub tree_after : after.session_tree ≡ p.session_tree
    pub closed_after : IsClosed a after.sessions
    pub only_sessions : after ≡ record p { sessions = after.sessions }

  -- A session that is shut down, in whatever state, is not connected any more: it goes from the
  -- connected sessions and no other does; no other session and not the tree is changed.
  pub session_shutdown_lem :
      (a : ℕ) (s : Session) (state : State) (p : Process P S)
      → p.sessions a ≡ some s
      → s.current_state ≡ set state
      → Closed a p
  session_shutdown_lem a s state p at c = elim (Bool-cases (is_closing state)) [
    | inl e ↦ record {
      after = p;
      ran = session_shutdown_ran a s state p at c ∙ rw e refl;
      connected_after = λ es.
          connected_of-same p.sessions a es
            (rw at (in_connection_state s state c ∙ closing-is_connected state e));
      others = λ b h. refl;
      tree_after = refl;
      closed_after = (s, at, c ∙ ap set (closing-of state e));
      only_sessions = refl;
    }
    | inr e ↦ record {
      after = record p {
        sessions = write p.sessions a (some (record s { current_state = set closing }));
      };
      ran = session_shutdown_ran a s state p at c ∙ rw e refl;
      connected_after = λ es.
          connected_of-write p.sessions a (some (record s { current_state = set closing })) es
            (unfold in_connection in refl);
      others = λ b h. ground (arith, h);
      tree_after = refl;
      closed_after = (record s { current_state = set closing }, ground arith, refl);
      only_sessions = refl;
    }
  ]
