-- ===== src/Btree/Pointers.antt =====
-- Trees whose comparator compares addresses, as both comparators of the program do.
use whisp.Prelude.{
  ℕ, ◌≡◌, refl, sym, ◌≢◌, ◌↔◌, ap, true, false, Option, none, some, List, [], ◌∷◌, arith, All,
  length, suc, if◌then◌else◌,
}
use whisp.CString.{Bytes, CStr, ℤ, strcmp_eq}
use whisp.CString.Tokens.{strcmp_eq_iff}
use whisp.Btree.{is_zero, Entry, find, Inserts, here, there}

-- A result of 0 says that the two pointers are one.
pub record ByAddress (cmp : CStr → CStr → ℤ) : Type 0 where
  pub same : (a b : CStr) → (is_zero (cmp a b) ≡ true) ↔ (a.at ≡ b.at)

-- No entry has the key `k`.
abbrev pub Absent : CStr → List Entry → Type 0
Absent k = All (λ (e : Entry). e.0.at ≢ k.at)

-- No two entries have the same key.
abbrev pub Distinct : List Entry → Type 0
Distinct [] = Unit
Distinct (e ∷ es) = Absent e.0 es × Distinct es

module _ {ℓ κ} {A : Type ℓ} (P : A → Type κ) where
  pub All-map {μ} : {Q : A → Type μ} (xs : List A) → ((x : A) → P x → Q x) → All P xs → All Q xs
  All-map [] f h = tt
  All-map (x ∷ xs) f h = (f x h.0, All-map xs f h.1)

  pub All-map₂ {μ ν} :
      {Q : A → Type μ} {R : A → Type ν} (xs : List A)
      → ((x : A) → P x → Q x → R x)
      → All P xs
      → All Q xs
      → All R xs
  All-map₂ [] f h k = tt
  All-map₂ (x ∷ xs) f h k = (f x h.0 k.0, All-map₂ xs f h.1 k.1)

  pub All-Inserts : {e : A} {xs ys : List A} → Inserts e xs ys → P e → All P xs → All P ys
  All-Inserts here p h = (p, h)
  All-Inserts (there i) p h = (h.0, All-Inserts i p h.1)

  pub All-Inserts_rest : {e : A} {xs ys : List A} → Inserts e xs ys → All P ys → All P xs
  All-Inserts_rest here h = h.1
  All-Inserts_rest (there i) h = (h.0, All-Inserts_rest i h.1)

  pub All-Inserts_new : {e : A} {xs ys : List A} → Inserts e xs ys → All P ys → P e
  All-Inserts_new here h = h.0
  All-Inserts_new (there i) h = All-Inserts_new i h.1

pub length-Inserts {ℓ} :
    {A : Type ℓ} {e : A} {xs ys : List A} → Inserts e xs ys → length ys ≡ suc (length xs)
length-Inserts here = refl
length-Inserts (there i) = ap suc (length-Inserts i)

pub Distinct-Inserts :
    {e : Entry} {xs ys : List Entry} → Inserts e xs ys → Absent e.0 xs → Distinct xs → Distinct ys
Distinct-Inserts here a d = (a, d)
Distinct-Inserts (there {x} i) a d = (
  All-Inserts (λ (f : Entry). f.0.at ≢ x.0.at) i (λ p. a.0 (sym p)) d.0,
  Distinct-Inserts i a.1 d.1,
)

pub Distinct-Inserts_rest :
    {e : Entry} {xs ys : List Entry} → Inserts e xs ys → Distinct ys → Distinct xs × Absent e.0 xs
Distinct-Inserts_rest here d = (d.1, d.0)
Distinct-Inserts_rest (there {x} i) d =
    let later = Distinct-Inserts_rest i d.1 in
    let apart = λ (f : Entry). f.0.at ≢ x.0.at in
    ((All-Inserts_rest apart i d.0, later.0), (λ p. All-Inserts_new apart i d.0 (sym p), later.1))

module _ {cmp : CStr → CStr → ℤ} (by : ByAddress cmp) where
  pub find-Absent : (k : CStr) (es : List Entry) → Absent k es → find cmp k es ≡ none
  unfolding find
  find-Absent k [] h = refl
  find-Absent k ((j, v) ∷ es) h = ground (arith, by.same j k, find-Absent k es)

  pub find-none : (k : CStr) (es : List Entry) → find cmp k es ≡ none → Absent k es
  unfolding find
  find-none k [] h = tt
  find-none k ((j, v) ∷ es) h = ground (arith, by.same j k, find-none k es)

  find_self : (k : CStr) (v : ℕ) (es : List Entry) → find cmp k ((k, v) ∷ es) ≡ some v
  unfolding find
  find_self k v es = ground (arith, by.same k k)

  find_later :
      (k j : CStr) (v w : ℕ) (es : List Entry)
      → k.at ≢ j.at
      → find cmp k es ≡ some w
      → find cmp k ((j, v) ∷ es) ≡ some w
  unfolding find
  find_later k j v w es n h = ground (arith, by.same j k)

  -- Each entry is found by its own key.
  pub find_each :
      (es : List Entry) → Distinct es → All (λ (e : Entry). find cmp e.0 es ≡ some e.1) es
  find_each [] d = tt
  find_each ((k, v) ∷ es) d = (
    find_self k v es,
    All-map₂ (λ (e : Entry). e.0.at ≢ k.at) es
        (λ e apart found. find_later e.0 k v e.1 es apart found) d.0 (find_each es d.1),
  )

-- The first entry whose key has this text.
unfoldable pub first_text : Bytes → List Entry → Option ℕ
first_text text [] = none
first_text text ((k, a) ∷ es) = if strcmp_eq k.text text then some a else first_text text es

-- One more entry with a new text, in any place: it is found, and the rest is as it was.
pub first_text-Inserts :
    (k : CStr) (a : ℕ) (text : Bytes) {xs ys : List Entry}
    → Inserts (k, a) xs ys
    → first_text k.text xs ≡ none
    → first_text text ys ≡ (if strcmp_eq k.text text then some a else first_text text xs)
unfolding first_text
first_text-Inserts k a text here h = refl
first_text-Inserts k a text (there {x} {xs} {ys} i) h = ground (
  arith,
  strcmp_eq_iff x.0.text text,
  strcmp_eq_iff k.text text,
  strcmp_eq_iff x.0.text k.text,
  first_text-Inserts k a text i,
)

-- One more entry does not matter to another text.
pub first_text-Inserts_other :
    (k : CStr) (a : ℕ) (text : Bytes) {xs ys : List Entry}
    → Inserts (k, a) xs ys
    → strcmp_eq k.text text ≡ false
    → first_text text ys ≡ first_text text xs
unfolding first_text
first_text-Inserts_other k a text here h = rw h refl
first_text-Inserts_other k a text (there {x} {xs} {ys} i) h =
    ground (arith, first_text-Inserts_other k a text i h)
