-- ===== src/Btree.antt =====
-- The tree of the external library jnxlibc (jnxbtree.h), as the program uses it: `void *` keys that
-- are ordered by the comparator given to `jnx_btree_create`, and `void *` values. The tree is a
-- parameter of the development; its laws say what the library documents: the tree holds entries,
-- `keys` lists them, `lookup` finds the entry whose key compares equal, `add` of an absent key puts
-- in one entry and `remove` of a present key takes out its entry. Where in the order an entry
-- stands, and what `add` of a present key does, is left open.
pub mod Assoc
pub mod Pointers
use whisp.Prelude.{
  ℕ, zero, ◌≡◌, Bool, true, false, Option, none, some, List, [], ◌∷◌, map, if◌then◌else◌,
}
use whisp.CString.{CStr, ℤ, pos, negsuc}

-- `c == 0` for the result of a comparator.
abbrev pub is_zero : ℤ → Bool
is_zero (pos zero) = true
is_zero _ = false

abbrev pub Entry : Type 0
Entry = CStr × ℕ

-- The first entry whose key compares equal.
unfoldable pub find : (CStr → CStr → ℤ) → CStr → List Entry → Option ℕ
find cmp k [] = none
find cmp k ((j, v) ∷ es) = if is_zero (cmp j k) then some v else find cmp k es

-- `ys` is `xs` with one more element, `e`, somewhere.
pub data Inserts {ℓ} {A : Type ℓ} (e : A) : List A → List A → Type ℓ where
  here : {xs : List A} → Inserts e xs (e ∷ xs)
  there : {x : A} {xs ys : List A} → Inserts e xs ys → Inserts e (x ∷ xs) (x ∷ ys)

-- One entry, with value `v` and a key that compares equal to `k`, is all that was taken out.
pub record Removed (cmp : CStr → CStr → ℤ) (k : CStr) (v : ℕ) (old new : List Entry) : Type 0 where
  pub key : CStr
  pub equal : is_zero (cmp key k) ≡ true
  pub taken : Inserts (key, v) new old

pub record BTree (cmp : CStr → CStr → ℤ) : Type 1 where
  pub Tree : Type 0
  pub create : Tree
  pub add : Tree → CStr → ℕ → Tree
  pub lookup : Tree → CStr → Option ℕ
  pub remove : Tree → CStr → Tree
  pub keys : Tree → List CStr
  pub entries : Tree → List Entry
  pub entries-create : entries create ≡ []
  pub keys_lem : (t : Tree) → keys t ≡ map (λ e. e.0) (entries t)
  pub lookup_lem : (t : Tree) (k : CStr) → lookup t k ≡ find cmp k (entries t)
  pub entries-add :
      (t : Tree) (k : CStr) (v : ℕ)
      → find cmp k (entries t) ≡ none
      → Inserts (k, v) (entries t) (entries (add t k v))
  pub entries-remove :
      (t : Tree) (k : CStr) (v : ℕ)
      → find cmp k (entries t) ≡ some v
      → Removed cmp k v (entries t) (entries (remove t k))
