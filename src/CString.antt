-- ===== src/CString.antt =====
-- C strings, and what the program uses of the C library on them: strcmp, strtok_r with the
-- delimiter ":", sprintf, %d and atoi.
--
-- A text is the list of its bytes before the terminating NUL. A `char *` to a string that the
-- program keeps is its address with the bytes there: no code writes to such a string once it is
-- made (strtok_r and trim write to input buffers only). The address is kept because the trees of
-- peers and sessions order their keys by it.
pub mod Tokens
pub mod Decimal
pub mod Lengths
use Prim.Native.Char.{code}
use whisp.Prelude.{
  ℕ, zero, suc, ◌+◌, ◌-◌, ◌*◌, ◌/◌, ◌%◌, ◌^◌, String, Bool, true, false, ◌&&◌, ◌||◌, Option, none,
  some, List, [], ◌∷◌, ◌++◌, ltb, leb, ◌==◌, if◌then◌else◌,
}

abbrev pub Bytes : Type 0
Bytes = List ℕ

pub record CStr : Type 0 where
  pub at : ℕ
  pub text : Bytes

-- The code points of an ASCII literal.
abbrev pub codes : String → Bytes
codes String.[] = []
codes (String.◌∷◌ c s) = code c ∷ codes s

-- `strcmp(a, b) == 0`
unfoldable pub strcmp_eq : Bytes → Bytes → Bool
strcmp_eq [] [] = true
strcmp_eq (x ∷ xs) (y ∷ ys) = x == y && strcmp_eq xs ys
strcmp_eq _ _ = false

-- `DELIMITER`
abbrev pub delimiter : ℕ
delimiter = b':'

-- The bytes up to the next delimiter or the end, and what is left behind the delimiter.
unfoldable pub span_token : Bytes → Bytes × Bytes
span_token [] = ([], [])
span_token (c ∷ cs) =
    if c == delimiter then ([], cs) else (c ∷ (span_token cs).0, (span_token cs).1)

-- `strtok_r`: delimiters at the front are skipped; none is the NULL at the end of the text.
unfoldable pub strtok_r : Bytes → Option (Bytes × Bytes)
unfolding span_token
strtok_r [] = none
strtok_r (c ∷ cs) = if c == delimiter then strtok_r cs else some (span_token (c ∷ cs))

-- A token that is empty is no token.
unfoldable pub keep_token : Bytes → List Bytes → List Bytes
keep_token [] ts = ts
keep_token (c ∷ w) ts = (c ∷ w) ∷ ts

-- The token that begins here, if it is not empty, and the tokens behind it.
unfoldable pub chop : Bytes → Bytes × List Bytes
unfolding keep_token
chop [] = ([], [])
chop (c ∷ cs) =
    let (w, ts) = chop cs in if c == delimiter then ([], keep_token w ts) else (c ∷ w, ts)

-- What the successive calls of `strtok_r` on a text return, in order.
unfoldable pub tokens : Bytes → List Bytes
unfolding chop
tokens s = keep_token (chop s).0 (chop s).1

-- `sprintf` with the conversions %s and %d: each takes the next argument, which is rendered.
unfoldable pub sprintf : Bytes → List Bytes → Bytes
sprintf [] args = []
sprintf (c ∷ []) args = c ∷ []
sprintf (c ∷ d ∷ cs) [] = c ∷ sprintf (d ∷ cs) []
sprintf (c ∷ d ∷ cs) (a ∷ args) =
    if c == b'%' then a ++ sprintf cs args else c ∷ sprintf (d ∷ cs) (a ∷ args)

-- The decimal digits of n in front of `rest`; `suc n` rounds are enough.
unfoldable pub digits_onto : ℕ → ℕ → Bytes → Bytes
digits_onto zero n rest = rest
digits_onto (suc fuel) n rest = elim (ltb n 10) [
  | true ↦ (b'0' + n) ∷ rest
  | false ↦ digits_onto fuel (n / 10) ((b'0' + n % 10) ∷ rest)
]

unfoldable pub decimal : ℕ → Bytes
unfolding digits_onto
decimal n = digits_onto (suc n) n []

-- `negsuc n` is -(n + 1).
pub data ℤ : Type 0 where
  pos : ℕ → ℤ
  negsuc : ℕ → ℤ

-- The C `int` that the low 32 bits of a number stand for.
unfoldable pub int32 : ℕ → ℤ
int32 n = let low = n % 2 ^ 32 in if ltb low (2 ^ 31) then pos low else negsuc (2 ^ 32 - 1 - low)

-- What %d prints for an `int`.
unfoldable pub show_int : ℤ → Bytes
show_int (pos n) = decimal n
show_int (negsuc n) = b'-' ∷ decimal (suc n)

is_digit : ℕ → Bool
is_digit c = leb b'0' c && leb c b'9'

-- The digits at the front of a text, after a number that is read already.
unfoldable pub read_digits : ℕ → Bytes → ℕ
unfolding is_digit
read_digits v [] = v
read_digits v (c ∷ cs) =
    let rest = read_digits (v * 10 + (c - b'0')) cs in if is_digit c then rest else v

is_space : ℕ → Bool
is_space c = c == b' ' || (leb 9 c && leb c 13)

unfoldable pub negate : ℕ → ℤ
negate zero = pos 0
negate (suc n) = negsuc n

-- `atoi`: white space, a sign, digits, and anything behind them. (Out of the range of `int` the C
-- function is undefined; this one goes on counting.)
unfoldable pub atoi : Bytes → ℤ
unfolding read_digits is_space negate
atoi [] = pos 0
atoi (c ∷ cs) =
    let rest = atoi cs in
    if is_space c
    then rest
    else if c == b'-'
    then negate (read_digits 0 cs)
    else if c == b'+'
    then pos (read_digits 0 cs)
    else pos (read_digits 0 (c ∷ cs))
