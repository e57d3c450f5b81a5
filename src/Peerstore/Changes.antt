-- ===== src/Peerstore/Changes.antt =====
-- What adding a peer and updating one do to a well-formed store (src/data/peerstore.c).
use whisp.Prelude.{
  ℕ, suc, ◌≤◌, ◌<◌, ◌≡◌, refl, sym, ap, ◌∙◌, Option, some, List, [], ◌∷◌, map, arith, All, length,
  Bool-cases, inl, inr, ◌==◌,
}
use whisp.CString.{Bytes, CStr, strcmp_eq}
use whisp.CString.Tokens.{strcmp_eq_iff}
use whisp.Btree.{BTree, Entry}
use whisp.Btree.Pointers.{first_text, Absent, All-map, All-Inserts, Distinct-Inserts, find-Absent}
use whisp.Process.{RawPeer, peer_tree_compare, write}
use whisp.Peerstore.View.{Held, IsStore, peer_tree_compare-ByAddress}

pub length-map {ℓ κ} :
    {A : Type ℓ} {B : Type κ} (f : A → B) (xs : List A) → length (map f xs) ≡ length xs
length-map f [] = refl
length-map f (x ∷ xs) = ap suc (length-map f xs)

-- Objects below `next` are the same on both heaps.
abbrev pub Agrees : (ℕ → Option RawPeer) → (ℕ → Option RawPeer) → ℕ → Type 0
Agrees new old next = (b : ℕ) → b < next → new b ≡ old b

Held-Agrees :
    (new old : ℕ → Option RawPeer) (next later : ℕ) (e : Entry)
    → Agrees new old next
    → next ≤ later
    → Held old next e
    → Held new later e
Held-Agrees new old next later e same le h = record {
  peer = h.peer;
  at = same e.1 h.below ∙ h.at;
  named = h.named;
  key_below = omega arith;
  below = omega arith;
}

pub IsStore-Agrees :
    {new old : ℕ → Option RawPeer} {next later : ℕ} {es : List Entry}
    → Agrees new old next
    → next ≤ later
    → IsStore old next es
    → IsStore new later es
IsStore-Agrees {new} {old} {next} {later} {es} same le v = record {
  held = All-map (Held old next) es (λ e h. Held-Agrees new old next later e same le h) v.held;
  distinct = v.distinct;
}

Held-write :
    (peers : ℕ → Option RawPeer) (next a : ℕ) (old new : RawPeer) (e : Entry)
    → peers a ≡ some old
    → new.guid ≡ old.guid
    → Held peers next e
    → Held (write peers a (some new)) next e
Held-write peers next a old new e at same h = elim (Bool-cases (a == e.1)) [
  | inl same_at ↦
      let one : a ≡ e.1 = ground arith in
      let stored : peers e.1 ≡ some old = ap peers (sym one) ∙ at in
      record {
        peer = new;
        at = rw same_at refl;
        named = ground (arith, stored, h.at, h.named);
        key_below = h.key_below;
        below = h.below;
      }
  | inr apart ↦ record {
    peer = h.peer;
    at = rw apart h.at;
    named = h.named;
    key_below = h.key_below;
    below = h.below;
  }
]

-- An object that is written keeps the entries well formed, if it keeps its GUID.
pub IsStore-write :
    (peers : ℕ → Option RawPeer) (next a : ℕ) (old new : RawPeer) (es : List Entry)
    → peers a ≡ some old
    → new.guid ≡ old.guid
    → IsStore peers next es
    → IsStore (write peers a (some new)) next es
IsStore-write peers next a old new es at same v = record {
  held = All-map (Held peers next) es (λ e h. Held-write peers next a old new e at same h) v.held;
  distinct = v.distinct;
}

-- The entry that the map finds.
pub record Found (peers : ℕ → Option RawPeer) (next : ℕ) (guid : Bytes) (a : ℕ) : Type 0 where
  pub key : CStr
  pub held : Held peers next (key, a)
  pub text : key.text ≡ guid

pub first_text-Found :
    (peers : ℕ → Option RawPeer) (next : ℕ) (guid : Bytes) (a : ℕ) (es : List Entry)
    → All (Held peers next) es
    → first_text guid es ≡ some a
    → Found peers next guid a
unfolding first_text
first_text-Found peers next guid a [] h e = cc
first_text-Found peers next guid a ((k, b) ∷ es) h e = elim (Bool-cases (strcmp_eq k.text guid)) [
  | inl q ↦
      let same : b ≡ a = ground arith in
      record { key = k; held = rw (← same) h.0; text = (strcmp_eq_iff k.text guid).0 q }
  | inr q ↦ first_text-Found peers next guid a es h.1 (ground arith)
]

pub IsStore-add :
    (P : BTree peer_tree_compare) (peers : ℕ → Option RawPeer) (next : ℕ) (t : P.Tree) (k : CStr)
    (a : ℕ)
    → IsStore peers next (P.entries t)
    → Held peers next (k, a)
    → Absent k (P.entries t)
    → IsStore peers next (P.entries (P.add t k a))
IsStore-add P peers next t k a v h fresh =
    let i = P.entries-add t k a (find-Absent peer_tree_compare-ByAddress k (P.entries t) fresh) in
    record {
      held = All-Inserts (Held peers next) i h v.held;
      distinct = Distinct-Inserts i fresh v.distinct;
    }

-- An object has one GUID.
pub Found-text :
    (peers : ℕ → Option RawPeer) (next : ℕ) (a : ℕ) (g h : Bytes)
    → Found peers next g a
    → Found peers next h a
    → g ≡ h
Found-text peers next a g h f e =
    let same : f.key ≡ e.key = ground (arith, f.held.at, f.held.named, e.held.at, e.held.named) in
    sym f.text ∙ ap (λ (s : CStr). s.text) same ∙ e.text
