-- ===== src/Btree/Assoc.antt =====
-- A tree that meets the laws: an association list, for any comparator.
use whisp.Prelude.{
  ℕ, ◌≡◌, refl, some, List, [], ◌∷◌, map, if◌then◌else◌, arith, Bool-cases, inl, inr,
}
use whisp.CString.{CStr, ℤ}
use whisp.Btree.{is_zero, Entry, find, here, there, Removed, BTree}

unfoldable pub without : (CStr → CStr → ℤ) → CStr → List Entry → List Entry
without cmp k [] = []
without cmp k ((j, v) ∷ es) = if is_zero (cmp j k) then es else (j, v) ∷ without cmp k es

pub without-Removed :
    (cmp : CStr → CStr → ℤ) (k : CStr) (v : ℕ) (es : List Entry)
    → find cmp k es ≡ some v
    → Removed cmp k v es (without cmp k es)
unfolding find without
without-Removed cmp k v [] h = cc
without-Removed cmp k v ((j, w) ∷ es) h = elim (Bool-cases (is_zero (cmp j k))) [
  | inl e ↦
      let same : w ≡ v = ground arith in
      record { key = j; equal = e; taken = rw (e, if◌then◌else◌) (rw same here) }
  | inr e ↦
      let r = without-Removed cmp k v es (ground arith) in
      record { key = r.key; equal = r.equal; taken = rw (e, if◌then◌else◌) (there r.taken) }
]

-- The list as a tree.
abbrev pub assoc : (cmp : CStr → CStr → ℤ) → BTree cmp
assoc cmp = record {
  Tree = List Entry;
  create = [];
  add = λ t k v. (k, v) ∷ t;
  lookup = λ t k. find cmp k t;
  remove = λ t k. without cmp k t;
  keys = map (λ e. e.0);
  entries = λ t. t;
  entries-create = refl;
  keys_lem = λ t. refl;
  lookup_lem = λ t k. refl;
  entries-add = λ t k v h. here;
  entries-remove = λ t k v h. without-Removed cmp k v t h;
}
