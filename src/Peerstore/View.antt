-- ===== src/Peerstore/View.antt =====
-- The store as a client sees it: a map from the text of a GUID to a peer. The operations of
-- src/data/peerstore.c keep it well formed, and act on it as on a map.
use whisp.Prelude.{ℕ, ◌<◌, ◌≡◌, refl, ◌∙◌, Option, some, List, [], ◌∷◌, map, arith, All}
use whisp.CString.{Bytes}
use whisp.Outcome.{done, Slot, unset, set}
use whisp.Btree.{BTree, Entry}
use whisp.Btree.Pointers.{first_text, ByAddress, Distinct, find_each, All-map₂}
use whisp.Process.{
  RawPeer, Process, peer_tree_compare, session_tree_compare, Ref, no_tree, tree, dangling,
}
use whisp.Peerstore.{scan_peers, found_peer, check_in, peerstore_check_peer}

pub peer_tree_compare-ByAddress : ByAddress peer_tree_compare
unfolding peer_tree_compare
peer_tree_compare-ByAddress = record { same = λ a b. ground arith }

-- An entry of the tree: its value is the address of a peer, and its key is that peer's GUID.
pub record Held (peers : ℕ → Option RawPeer) (next : ℕ) (e : Entry) : Type 0 where
  pub peer : RawPeer
  pub at : peers e.1 ≡ some peer
  pub named : peer.guid ≡ set e.0
  pub key_below : e.0.at < next
  pub below : e.1 < next

pub record IsStore (peers : ℕ → Option RawPeer) (next : ℕ) (es : List Entry) : Type 0 where
  pub held : All (Held peers next) es
  pub distinct : Distinct es

module _ {P : BTree peer_tree_compare} {S : BTree session_tree_compare} where
  -- A store that was never created is well formed, and one that was destroyed is not.
  abbrev pub RefIsValid : Ref P.Tree → Process P S → Type 0
  RefIsValid no_tree p = Unit
  RefIsValid (tree t) p = IsStore p.peers p.next (P.entries t)
  RefIsValid dangling p = ⊥

  abbrev pub StoreIsValid : Process P S → Type 0
  StoreIsValid p = RefIsValid p.store p

  -- What `peerstore_check_peer` promises: whether there is such a peer, where it is, and a tree.
  abbrev pub checked_in : Ref P.Tree → Bytes → Process P S → (ℕ × Slot ℕ) × Process P S
  checked_in no_tree guid p = ((0, unset), record p { store = tree P.create })
  checked_in (tree t) guid p = found_peer (first_text guid (P.entries t)) p
  checked_in dangling guid p = ((0, unset), p)

  abbrev pub checked : Bytes → Process P S → (ℕ × Slot ℕ) × Process P S
  checked guid p = checked_in p.store guid p

-- The entries of a store; none, if it was never created.
abbrev pub stored_in : (P : BTree peer_tree_compare) → Ref P.Tree → List Entry
stored_in P (tree t) = P.entries t
stored_in P _ = []

-- The map: the address of the peer with this GUID.
abbrev pub peer_at :
    {P : BTree peer_tree_compare} {S : BTree session_tree_compare} → Process P S → Bytes → Option ℕ
peer_at {P} p guid = first_text guid (stored_in P p.store)

scan_peers-first_text :
    (P : BTree peer_tree_compare) (t : P.Tree) (peers : ℕ → Option RawPeer) (next : ℕ)
    (guid : Bytes) (es : List Entry)
    → All (Held peers next) es
    → All (λ (e : Entry). P.lookup t e.0 ≡ some e.1) es
    → scan_peers P t peers guid (map (λ e. e.0) es) ≡ done (first_text guid es)
unfolding scan_peers first_text
scan_peers-first_text P t peers next guid [] h l = refl
scan_peers-first_text P t peers next guid ((k, a) ∷ es) h l =
    ground (arith, h.0.at, h.0.named, scan_peers-first_text P t peers next guid es h.1 l.1)

module _ {P : BTree peer_tree_compare} {S : BTree session_tree_compare} where
  scan_store :
      (p : Process P S) (t : P.Tree) (guid : Bytes)
      → IsStore p.peers p.next (P.entries t)
      → scan_peers P t p.peers guid (P.keys t) ≡ done (first_text guid (P.entries t))
  scan_store p t guid v = rw P.keys_lem (
      scan_peers-first_text P t p.peers p.next guid (P.entries t) v.held (
        All-map₂ (λ (e : Entry). Held p.peers p.next e) (P.entries t)
          (λ e h f. P.lookup_lem t e.0 ∙ f) v.held
          (find_each peer_tree_compare-ByAddress (P.entries t) v.distinct)))

  check_in-checked_in :
      (r : Ref P.Tree) (guid : Bytes) (p : Process P S)
      → RefIsValid r p
      → check_in r guid p ≡ done (checked_in r guid p)
  unfolding check_in
  check_in-checked_in no_tree guid p v = refl
  check_in-checked_in (tree t) guid p v = rw (scan_store p t guid v)
  check_in-checked_in dangling guid p v = absurd v

  -- On a well-formed store `peerstore_check_peer` ends, and answers as the map does: 1 and the
  -- peer's address if the map has the GUID, and else 0; the only change is the creation of a tree.
  pub peerstore_check_peer_lem :
      (guid : Bytes) (p : Process P S)
      → StoreIsValid p
      → peerstore_check_peer guid p ≡ done (checked guid p)
  unfolding peerstore_check_peer
  peerstore_check_peer_lem guid p v = check_in-checked_in p.store guid p v
