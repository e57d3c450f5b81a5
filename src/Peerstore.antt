-- ===== src/Peerstore.antt =====
-- src/data/peerstore.c: the peers that were heard of, in a tree keyed by the pointer to their GUID.
-- The locks are left out: each operation is one step here. Writing to the terminal is left out too,
-- but for the lines that `peerstore_print_peers` prints.
pub mod View
pub mod Operations
pub mod Destroy
pub mod Changes
use whisp.Prelude.{ℕ, ◌+◌, true, false, Option, none, some, List, [], ◌∷◌, length}
use whisp.CString.{Bytes, CStr, codes, strcmp_eq, sprintf, decimal}
use whisp.Outcome.{
  Outcome, done, fault, undefined, jnx_check, Slot, unset, null, set, deref, free_slot, ◌>>=◌, ◌>>◌,
}
use whisp.Btree.{BTree}
use whisp.Process.{
  RawPeer, Process, peer_tree_compare, session_tree_compare, Ref, no_tree, tree, dangling, write,
  object, ensured,
}

-- The loop over the keys: the first peer with this GUID.
unfoldable pub scan_peers :
    (P : BTree peer_tree_compare)
    → P.Tree
    → (ℕ → Option RawPeer)
    → Bytes
    → List CStr
    → Outcome (Option ℕ)
scan_peers P t peers guid [] = done none
scan_peers P t peers guid (k ∷ ks) = elim (P.lookup t k) [
  | none ↦ scan_peers P t peers guid ks
  | some a ↦ do
    rp ← object (peers a)
    g ← deref rp.guid
    elim (strcmp_eq g.text guid) [ true ↦ done (some a) | false ↦ scan_peers P t peers guid ks ]
]

-- The lines of the loop over the keys, each with its count and whose peer it is.
unfoldable pub print_loop :
    (P : BTree peer_tree_compare)
    → P.Tree
    → (ℕ → Option RawPeer)
    → Option Bytes
    → ℕ
    → List CStr
    → Outcome (List Bytes)
print_loop P t peers own count [] = done []
print_loop P t peers own count (k ∷ ks) = elim (P.lookup t k) [
  | none ↦ print_loop P t peers own (count + 1) ks
  | some a ↦ do
    rp ← object (peers a)
    g ← deref rp.guid
    mine ← object own
    rest ← print_loop P t peers own (count + 1) ks
    elim (strcmp_eq g.text mine) [
      | true ↦ done (sprintf (codes "%d)%s [Local]\n") (decimal count ∷ g.text ∷ []) ∷ rest)
      | false ↦ done (sprintf (codes "%d)%s [Foriegn]\n") (decimal count ∷ g.text ∷ []) ∷ rest)
    ]
]

-- The tree that an operation works on, where it must be there.
abbrev pub existing : {T : Type 0} → Ref T → Outcome T
existing (tree t) = done t
existing _ = fault undefined

module _ {P : BTree peer_tree_compare} {S : BTree session_tree_compare} where
  -- The functions `…_in` are the branches on `store`, which is their first argument.
  unfoldable pub count_in : Ref P.Tree → Process P S → Outcome ℕ
  count_in no_tree p = done 0
  count_in (tree t) p = done (length (P.keys t))
  count_in dangling p = fault undefined

  unfoldable pub peerstore_get_count : Process P S → Outcome ℕ
  unfolding count_in
  peerstore_get_count p = count_in p.store p

  abbrev pub found_peer : Option ℕ → Process P S → (ℕ × Slot ℕ) × Process P S
  found_peer none p = ((0, null), p)
  found_peer (some a) p = ((1, set a), p)

  unfoldable pub check_in : Ref P.Tree → Bytes → Process P S → Outcome ((ℕ × Slot ℕ) × Process P S)
  check_in no_tree guid p = done ((0, unset), record p { store = tree P.create })
  check_in (tree t) guid p = do r ← scan_peers P t p.peers guid (P.keys t); done (found_peer r p)
  check_in dangling guid p = fault undefined

  -- The result, what was written to `*inpeer` (nothing, if there was no tree), and the state after.
  unfoldable pub peerstore_check_peer : Bytes → Process P S → Outcome ((ℕ × Slot ℕ) × Process P S)
  unfolding check_in
  peerstore_check_peer guid p = check_in p.store guid p

  unfoldable pub print_in : Ref P.Tree → Process P S → Outcome (List Bytes)
  print_in no_tree p = done []
  print_in (tree t) p = print_loop P t p.peers (p.configuration (codes "GUID")) 0 (P.keys t)
  print_in dangling p = fault undefined

  unfoldable pub peerstore_print_peers : Process P S → Outcome (List Bytes)
  unfolding print_in
  peerstore_print_peers p = print_in p.store p

  -- `a` is the address of the peer.
  unfoldable pub peerstore_add_peer : ℕ → Process P S → Outcome (ℕ × Process P S)
  peerstore_add_peer a p = do
    t ← ensured P.create p.store
    rp ← object (p.peers a)
    guid ← deref rp.guid
    done (0, record p { store = tree (P.add t guid a) })

  unfoldable pub peerstore_update_peer : ℕ → ℕ → Process P S → Outcome (Process P S)
  peerstore_update_peer new_peer updated_peer p = do
    new ← object (p.peers new_peer)
    updated ← object (p.peers updated_peer)
    a ← deref new.guid
    b ← deref updated.guid
    jnx_check (strcmp_eq a.text b.text)
    free_slot updated.command
    free_slot updated.port
    free_slot updated.secure_port
    free_slot updated.peerstring
    done (record p {
      peers = write p.peers updated_peer (
          some (record updated {
            command = new.command;
            port = new.port;
            secure_port = new.secure_port;
            peerstring = new.peerstring;
          }));
    })

  unfoldable pub peerstore_delete_peer : ℕ → Process P S → Outcome (Process P S)
  peerstore_delete_peer a p = do
    rp ← object (p.peers a)
    free_slot rp.command
    free_slot rp.port
    free_slot rp.secure_port
    free_slot rp.peerstring
    t ← existing p.store
    guid ← deref rp.guid
    done (record p { peers = write p.peers a none; store = tree (P.remove t guid) })

  -- The loop over the keys that were listed before the first deletion.
  unfoldable pub destroy_loop : List CStr → Process P S → Outcome (Process P S)
  unfolding peerstore_delete_peer
  destroy_loop [] p = done p
  destroy_loop (k ∷ ks) p = do
    t ← existing p.store
    q ← elim (P.lookup t k) [ none ↦ done p | some a ↦ peerstore_delete_peer a p ]
    destroy_loop ks q

  unfoldable pub destroy_in : Ref P.Tree → Process P S → Outcome (Process P S)
  unfolding destroy_loop
  destroy_in no_tree p = done p
  destroy_in (tree t) p = do q ← destroy_loop (P.keys t) p; done (record q { store = dangling })
  destroy_in dangling p = fault undefined

  -- `jnx_btree_destroy` frees the tree; `store` keeps pointing to it.
  unfoldable pub peerstore_destroy : Process P S → Outcome (Process P S)
  unfolding destroy_in
  peerstore_destroy p = destroy_in p.store p
