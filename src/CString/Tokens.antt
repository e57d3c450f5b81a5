-- ===== src/CString/Tokens.antt =====
-- `tokens` is what calls of `strtok_r` return, and how it reads a text of words and delimiters.
use whisp.Prelude.{
  ◌≡◌, refl, ◌≢◌, Option, none, some, List, [], ◌∷◌, ◌++◌, arith, All, Bool-cases, inl, inr, true,
  ◌==◌, ◌↔◌, if◌then◌else◌,
}
use whisp.CString.{Bytes, delimiter, strcmp_eq, span_token, strtok_r, chop, tokens}

pub strcmp_eq_iff : (a b : Bytes) → (strcmp_eq a b ≡ true) ↔ (a ≡ b)
unfolding strcmp_eq
strcmp_eq_iff [] [] = (λ _. refl, λ _. refl)
strcmp_eq_iff [] (y ∷ ys) = ground arith
strcmp_eq_iff (x ∷ xs) [] = ground arith
strcmp_eq_iff (x ∷ xs) (y ∷ ys) = ground (arith, strcmp_eq_iff xs ys)

pub strcmp_eq_refl : (a : Bytes) → strcmp_eq a a ≡ true
strcmp_eq_refl a = (strcmp_eq_iff a a).1 refl

-- What a loop over `strtok_r` sees: nothing, or a first token and the tokens of what is left.
abbrev pub Streams : Option (Bytes × Bytes) → List Bytes → Type 0
Streams none ts = ts ≡ []
Streams (some (w, rest)) ts = ts ≡ w ∷ tokens rest

chop-span_token :
    (s : Bytes) → ((chop s).0 ≡ (span_token s).0) × ((chop s).1 ≡ tokens (span_token s).1)
unfolding chop span_token tokens
chop-span_token [] = (refl, refl)
chop-span_token (c ∷ cs) = ground (arith, chop-span_token cs)

-- On every text: `strtok_r` returns NULL exactly where there is no token left, and else the first
-- token, with a rest that holds the tokens behind it.
pub strtok_r-Streams : (s : Bytes) → Streams (strtok_r s) (tokens s)
unfolding strtok_r tokens
strtok_r-Streams [] = refl
strtok_r-Streams (c ∷ cs) = elim (Bool-cases (c == delimiter)) [
  | inl e ↦ rw (e, strtok_r, if◌then◌else◌) (ground (arith, strtok_r-Streams cs))
  | inr e ↦ ground (arith, chop-span_token cs)
]

-- A word that can be sent: it is not empty and holds no delimiter.
abbrev pub NoDelimiter : Bytes → Type 0
NoDelimiter = All (λ c. c ≢ delimiter)

abbrev pub IsWord : Bytes → Type 0
IsWord w = (w ≢ []) × NoDelimiter w

chop-word : (w rest : Bytes) → NoDelimiter w → chop (w ++ delimiter ∷ rest) ≡ (w, tokens rest)
unfolding chop tokens
chop-word [] rest h = refl
chop-word (c ∷ w) rest h = ground (arith, chop-word w rest)

-- A word in front of a delimiter is the first token.
pub tokens-word : (w rest : Bytes) → IsWord w → tokens (w ++ delimiter ∷ rest) ≡ w ∷ tokens rest
unfolding tokens
tokens-word [] rest h = absurd (h.0 refl)
tokens-word (c ∷ w) rest h = rw (chop-word (c ∷ w) rest h.1) refl
