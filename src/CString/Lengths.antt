-- ===== src/CString/Lengths.antt =====
-- How long a text is that sprintf makes.
use whisp.Prelude.{
  ℕ, ◌+◌, ◌==◌, ◌≤◌, List, [], ◌∷◌, length, length-append, arith, Bool-cases, inl, inr,
}
use whisp.CString.{Bytes, sprintf}

abbrev pub total : List Bytes → ℕ
total [] = 0
total (a ∷ args) = length a + total args

-- No longer than the format and the arguments.
pub length-sprintf :
    (format : Bytes) (args : List Bytes) → length (sprintf format args) ≤ length format + total args
unfolding sprintf
length-sprintf [] args = omega arith
length-sprintf (c ∷ []) args = omega arith
length-sprintf (c ∷ d ∷ cs) [] = omega (arith, length-sprintf (d ∷ cs) [])
length-sprintf (c ∷ d ∷ cs) (a ∷ args) =
    let rest = sprintf cs args in
    elim (Bool-cases (c == b'%')) [
      | inl e ↦ rw e (omega (arith, length-append a rest, length-sprintf cs args))
      | inr e ↦ rw e (omega (arith, length-sprintf (d ∷ cs) (a ∷ args)))
    ]
