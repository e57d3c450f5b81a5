-- ===== src/SessionControl/Names.antt =====
-- The texts that `session_generate_secret` and `session_generate_id` of src/data/sessioncontrol.c put
-- together in `char buffer[24]`.
use whisp.Prelude.{
  ℕ, zero, suc, ◌+◌, ◌<◌, ◌≤◌, ◌≡◌, refl, ap, ◌∙◌, Bool, List, [], ◌∷◌, ◌++◌, All, length,
  length-append, ltb, ltb-true, ltb-false, if◌then◌else◌, arith, Bool-cases, inl, inr,
}
use whisp.CString.{Bytes, codes, sprintf, decimal}
use whisp.CString.Decimal.{digits_fit}
use whisp.Outcome.{Outcome, done, fault, undefined}
use whisp.SessionControl.{secret_name, session_generate_secret, id_loop, session_generate_id}

-- Three names with dashes between them.
abbrev pub joined : Bytes → Bytes → Bytes → Bytes
joined a b c = a ++ (codes "-" ++ (b ++ (codes "-" ++ c)))

sprintf-joined :
    (a b c : Bytes) → sprintf (codes "%s-%s-%s") (a ∷ b ∷ c ∷ []) ≡ joined a b (c ++ [])
unfolding sprintf
sprintf-joined a b c = refl

append_empty : (c : Bytes) → c ++ [] ≡ c
append_empty [] = refl
append_empty (x ∷ c) = ap (λ t. x ∷ t) (append_empty c)

append_assoc : (a b c : Bytes) → (a ++ b) ++ c ≡ a ++ (b ++ c)
append_assoc [] b c = refl
append_assoc (x ∷ a) b c = ap (λ t. x ∷ t) (append_assoc a b c)

length-joined : (a b c : Bytes) → length (joined a b c) ≡ length a + length b + length c + 2
length-joined a b c = omega (
  arith,
  length-append a (codes "-" ++ (b ++ (codes "-" ++ c))),
  length-append b (codes "-" ++ c),
)

-- Four letters at least, and eight at most.
length-secret_name : (i : ℕ) → (4 ≤ length (secret_name i)) × (length (secret_name i) ≤ 8)
length-secret_name zero = (omega arith, omega arith)
length-secret_name (suc zero) = (omega arith, omega arith)
length-secret_name (suc (suc zero)) = (omega arith, omega arith)
length-secret_name (suc (suc (suc zero))) = (omega arith, omega arith)
length-secret_name (suc (suc (suc (suc zero)))) = (omega arith, omega arith)
length-secret_name (suc (suc (suc (suc (suc zero))))) = (omega arith, omega arith)
length-secret_name (suc (suc (suc (suc (suc (suc zero)))))) = (omega arith, omega arith)
length-secret_name (suc (suc (suc (suc (suc (suc (suc zero))))))) = (omega arith, omega arith)
length-secret_name (suc (suc (suc (suc (suc (suc (suc (suc zero)))))))) = (omega arith, omega arith)
length-secret_name (suc (suc (suc (suc (suc (suc (suc (suc (suc n))))))))) =
    (omega arith, omega arith)

ltb_shift : (n m : ℕ) → n ≡ m + 2 → ltb n 24 ≡ ltb m 22
ltb_shift n m e = ground arith

-- The secret is the three names with dashes between, or the buffer overflows: that happens exactly
-- where the names have more than 21 letters together. A secret that is made has the eight bytes that
-- DES takes for its key.
pub session_generate_secret_lem :
    (r l n : ℕ)
    → (session_generate_secret r l n ≡ (
        if ltb (length (secret_name r) + length (secret_name l) + length (secret_name n)) 22
        then done (joined (secret_name r) (secret_name l) (secret_name n))
        else fault undefined))
      × (8 ≤ length (joined (secret_name r) (secret_name l) (secret_name n)))
unfolding session_generate_secret
session_generate_secret_lem r l n =
    let a = secret_name r in
    let b = secret_name l in
    let c = secret_name n in
    let size = length-joined a b c in
    let text : sprintf (codes "%s-%s-%s") (a ∷ b ∷ c ∷ []) ≡ joined a b c =
      sprintf-joined a b c ∙ ap (joined a b) (append_empty c) in
    (
      rw text (
          ap (λ (x : Bool). if x then done (joined a b c) else fault undefined)
            (ltb_shift (length (joined a b c)) (length a + length b + length c) size)),
      omega (arith, size, length-secret_name r, length-secret_name l, length-secret_name n),
    )

-- A byte prints to `char micro[4]`.
byte_fits : (b : ℕ) → b < 256 → length (decimal b) < 4
unfolding decimal
byte_fits b h = omega (arith, digits_fit 2 (suc b) b [] (omega arith))

-- The decimals of the bytes, one behind the other.
unfoldable pub digits_of : List ℕ → Bytes
digits_of [] = []
digits_of (b ∷ bs) = decimal b ++ digits_of bs

abbrev in_buffer : Bytes → Outcome Bytes
in_buffer t = if ltb (length t) 24 then done t else fault undefined

id_loop_lem :
    (buffer : Bytes) (g : List ℕ)
    → All (λ b. b < 256) g
    → length buffer < 24
    → id_loop buffer g ≡ in_buffer (buffer ++ digits_of g)
unfolding id_loop digits_of
id_loop_lem buffer [] h l = rw (append_empty buffer, ltb-true (length buffer) 24 l) refl
id_loop_lem buffer (b ∷ g) h l =
    let small = byte_fits b h.0 in
    let size = length-append buffer (decimal b) in
    let total = length-append buffer (decimal b ++ digits_of g) in
    let after = length-append (decimal b) (digits_of g) in
    elim (Bool-cases (ltb (length (buffer ++ decimal b)) 24)) [
      | inl e ↦
          rw (ltb-true (length (decimal b)) 4 small, e)
            (id_loop_lem (buffer ++ decimal b) g h.1 (ground arith)
              ∙ ap in_buffer (append_assoc buffer (decimal b) (digits_of g)))
      | inr e ↦
          rw (ltb-true (length (decimal b)) 4 small, e)
            (rw (ltb-false (length (buffer ++ (decimal b ++ digits_of g))) 24 (ground arith)) refl)
    ]

-- The id is the decimals of the sixteen bytes, one behind the other, or the buffer overflows: that
-- happens exactly where they have more than 23 digits together.
pub session_generate_id_lem :
    (g : List ℕ)
    → All (λ b. b < 256) g
    → session_generate_id g
      ≡ (if ltb (length (digits_of g)) 24 then done (digits_of g) else fault undefined)
unfolding session_generate_id
session_generate_id_lem g h = id_loop_lem [] g h (omega arith)
