-- ===== src/Main/Closing.antt =====
-- Sessions that are closed one after the other (src/main/main.c).
use whisp.Prelude.{
  ℕ, ◌≡◌, ◌⊎◌, inl, inr, refl, ap, ◌∙◌, Bool, true, false, Option, some, List, [], ◌∷◌, All,
  Bool-cases, if◌then◌else◌,
}
use whisp.Outcome.{set}
use whisp.Btree.{Entry}
use whisp.Process.{Session, State, closing}
use whisp.SessionControl.View.{HeldSession}
use whisp.SessionControl.Connected.{in_connection, connected_of, IsClosed}

-- There is a session in some state.
abbrev pub HasState : (ℕ → Option Session) → ℕ → Type 0
HasState sessions a =
    (s : Session) × (state : State) × (sessions a ≡ some s) × (s.current_state ≡ set state)

IsClosed-in_connection :
    (a : ℕ) (sessions : ℕ → Option Session)
    → IsClosed a sessions
    → in_connection (sessions a) ≡ false
unfolding in_connection
IsClosed-in_connection a sessions (s, at, c) = rw at (rw c refl)

-- Each session is closed in the second heap, or is as it was in the first.
abbrev pub Closing : (ℕ → Option Session) → (ℕ → Option Session) → Type 0
Closing before after = (b : ℕ) → IsClosed b after ⊎ (after b ≡ before b)

pub IsClosed-Closing :
    (b : ℕ) (before after : ℕ → Option Session)
    → Closing before after
    → IsClosed b before
    → IsClosed b after
IsClosed-Closing b before after h (s, at, c) = elim (h b) [
  | inl closed ↦ closed
  | inr same ↦ (s, same ∙ at, c)
]

pub HasState-Closing :
    (b : ℕ) (before after : ℕ → Option Session)
    → Closing before after
    → HasState before b
    → HasState after b
HasState-Closing b before after h (s, state, at, c) = elim (h b) [
  | inl (s', at', c') ↦ (s', closing, at', c')
  | inr same ↦ (s, state, same ∙ at, c)
]

pub Closing-then : (a b c : ℕ → Option Session) → Closing a b → Closing b c → Closing a c
Closing-then a b c f g x = elim (g x) [
  | inl closed ↦ inl closed
  | inr same ↦ elim (f x) [
    | inl (s, at, e) ↦ inl (s, same ∙ at, e)
    | inr before ↦ inr (same ∙ before)
  ]
]

-- A list whose first element may be left out.
first_of {ℓ} :
    (F : ℕ → Type ℓ) (b : Bool) (a : ℕ) (l : List ℕ)
    → b ≡ true
    → All F (if b then a ∷ l else l)
    → F a
first_of F true a l e h = h.0
first_of F false a l e h = absurd (cc)

rest_of {ℓ} :
    (F : ℕ → Type ℓ) (b : Bool) (a : ℕ) (l : List ℕ) → All F (if b then a ∷ l else l) → All F l
rest_of F true a l h = h.1
rest_of F false a l h = h

either_of {ℓ} :
    (F : ℕ → Type ℓ) (b : Bool) (a : ℕ) (l : List ℕ)
    → F a
    → All F l
    → All F (if b then a ∷ l else l)
either_of F true a l f h = (f, h)
either_of F false a l f h = h

-- What was connected is closed, so nothing is connected any more.
pub connected_of-Closing :
    (before after : ℕ → Option Session) (es : List Entry)
    → Closing before after
    → All (λ a. IsClosed a after) (connected_of before es)
    → connected_of after es ≡ []
unfolding connected_of
connected_of-Closing before after [] h closed = refl
connected_of-Closing before after ((k, a) ∷ es) h closed =
    let was = in_connection (before a) in
    let others = rest_of (λ b. IsClosed b after) was a (connected_of before es) closed in
    let quiet : in_connection (after a) ≡ false = elim (Bool-cases was) [
      | inl e ↦
          IsClosed-in_connection a after
            (first_of (λ b. IsClosed b after) was a (connected_of before es) e closed)
      | inr e ↦ elim (h a) [
        | inl c ↦ IsClosed-in_connection a after c
        | inr same ↦ ap in_connection same ∙ e
      ]
    ] in
    rw quiet (connected_of-Closing before after es h others)

pub All-HasState :
    (sessions : ℕ → Option Session) (next : ℕ) (es : List Entry)
    → All (HeldSession sessions next) es
    → All (HasState sessions) (connected_of sessions es)
unfolding connected_of
All-HasState sessions next [] h = tt
All-HasState sessions next ((k, a) ∷ es) h =
    let g = h.0 in
    either_of (HasState sessions) (in_connection (sessions a)) a (connected_of sessions es)
      (g.session, g.state, g.at, g.in_state) (All-HasState sessions next es h.1)
