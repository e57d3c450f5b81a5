-- ===== src/CString/Decimal.antt =====
-- `atoi` reads back what %d prints.
use whisp.Prelude.{
  ℕ, zero, suc, ◌+◌, ◌*◌, ◌/◌, ◌%◌, ◌<◌, ◌≤◌, ◌≡◌, ◌≢◌, refl, ap, ◌∙◌, [], ◌∷◌, arith, length, ltb,
  Bool-cases, inl, inr,
}
use whisp.CString.Tokens.{NoDelimiter, IsWord}
use whisp.CString.{Bytes, digits_onto, decimal, show_int, read_digits, atoi, ℤ, pos, negsuc}

read_digits-digits_onto :
    (fuel n : ℕ) (rest : Bytes)
    → n < fuel
    → read_digits 0 (digits_onto fuel n rest) ≡ read_digits n rest
unfolding read_digits digits_onto
read_digits-digits_onto zero n rest h = absurd (omega arith)
read_digits-digits_onto (suc fuel) n rest h =
    ground (arith, read_digits-digits_onto fuel (n / 10) ((b'0' + n % 10) ∷ rest))

-- The text begins with a digit, so `atoi` skips nothing and reads no sign.
atoi-digits_onto :
    (fuel n : ℕ) (rest : Bytes)
    → n < fuel
    → atoi (digits_onto fuel n rest) ≡ pos (read_digits 0 (digits_onto fuel n rest))
unfolding atoi digits_onto
atoi-digits_onto zero n rest h = absurd (omega arith)
atoi-digits_onto (suc fuel) n rest h =
    ground (arith, atoi-digits_onto fuel (n / 10) ((b'0' + n % 10) ∷ rest))

read_digits-decimal : (n : ℕ) → read_digits 0 (decimal n) ≡ n
unfolding decimal
read_digits-decimal n =
    read_digits-digits_onto (suc n) n [] (omega arith) ∙ (unfold read_digits in refl)

atoi-decimal : (n : ℕ) → atoi (decimal n) ≡ pos n
unfolding decimal
atoi-decimal n = atoi-digits_onto (suc n) n [] (omega arith) ∙ ap pos (read_digits-decimal n)

-- `atoi` of the text that %d prints for an `int` is that `int`.
pub atoi-show_int : (z : ℤ) → atoi (show_int z) ≡ z
unfolding show_int
atoi-show_int (pos n) = atoi-decimal n
atoi-show_int (negsuc n) = unfold atoi in rw (read_digits-decimal (suc n))

-- A printed number is a word: it can stand between delimiters.
digits_onto-NoDelimiter :
    (fuel n : ℕ) (rest : Bytes) → NoDelimiter rest → NoDelimiter (digits_onto fuel n rest)
unfolding digits_onto
digits_onto-NoDelimiter zero n rest h = h
digits_onto-NoDelimiter (suc fuel) n rest h =
    ground (arith, digits_onto-NoDelimiter fuel (n / 10) ((b'0' + n % 10) ∷ rest))

digits_onto-ne-nil : (fuel n : ℕ) (rest : Bytes) → n < fuel → digits_onto fuel n rest ≢ []
unfolding digits_onto
digits_onto-ne-nil zero n rest h = absurd (omega arith)
digits_onto-ne-nil (suc fuel) n rest h =
    ground (arith, digits_onto-ne-nil fuel (n / 10) ((b'0' + n % 10) ∷ rest))

decimal-NoDelimiter : (n : ℕ) → NoDelimiter (decimal n)
unfolding decimal
decimal-NoDelimiter n = digits_onto-NoDelimiter (suc n) n [] tt

pub show_int-IsWord : (z : ℤ) → IsWord (show_int z)
unfolding show_int
show_int-IsWord (pos n) =
    (unfold decimal in digits_onto-ne-nil (suc n) n [] (omega arith), decimal-NoDelimiter n)
show_int-IsWord (negsuc n) = (cc, (omega arith, decimal-NoDelimiter (suc n)))

abbrev pub ten_to : ℕ → ℕ
ten_to zero = 1
ten_to (suc d) = 10 * ten_to d

-- A number below 10 to the `d + 1` has that many digits at most.
pub digits_fit :
    (d fuel n : ℕ) (rest : Bytes)
    → n < 10 * ten_to d
    → length (digits_onto fuel n rest) ≤ suc d + length rest
unfolding digits_onto
digits_fit d zero n rest h = omega arith
digits_fit zero (suc fuel) n rest h = ground arith
digits_fit (suc d) (suc fuel) n rest h = elim (Bool-cases (ltb n 10)) [
  | inl e ↦ ground (arith, e)
  | inr e ↦
      let more = digits_fit d fuel (n / 10) ((b'0' + n % 10) ∷ rest) (omega arith) in
      ground (arith, e, more)
]

pub length-show_int : (n : ℕ) → n < 100000 → length (show_int (pos n)) ≤ 5
unfolding show_int decimal
length-show_int n h = omega (arith, digits_fit 4 (suc n) n [] (omega arith))

-- The digits alone.
pub decimal-IsWord : (n : ℕ) → IsWord (decimal n)
unfolding decimal
decimal-IsWord n = (digits_onto-ne-nil (suc n) n [] (omega arith), decimal-NoDelimiter n)
