-- ===== src/Peerstore/Operations.antt =====
-- What `peerstore_add_peer`, `peerstore_update_peer` and `peerstore_get_count` of
-- src/data/peerstore.c promise on a well-formed store.
use whisp.Prelude.{
  ℕ, ◌+◌, ◌≡◌, refl, ◌≢◌, ap, ◌∙◌, none, some, List, arith, All, length, if◌then◌else◌,
}
use whisp.CString.{Bytes, CStr, strcmp_eq}
use whisp.CString.Tokens.{strcmp_eq_iff}
use whisp.Outcome.{done, Slot, unset, null, set}
use whisp.Btree.{BTree, Entry}
use whisp.Btree.Pointers.{first_text, first_text-Inserts, Absent, find-Absent, length-Inserts}
use whisp.Process.{
  RawPeer, Process, peer_tree_compare, session_tree_compare, Ref, no_tree, tree, dangling, write,
  ensured,
}
use whisp.Peerstore.Changes.{length-map, IsStore-add, IsStore-write}
use whisp.Peerstore.{count_in, peerstore_get_count, peerstore_add_peer, peerstore_update_peer}
use whisp.Peerstore.View.{
  Held, IsStore, stored_in, peer_at, RefIsValid, StoreIsValid, checked_in,
  peer_tree_compare-ByAddress,
}

-- A peer with the fields of another, but for its GUID and its address.
abbrev pub refreshed : RawPeer → RawPeer → RawPeer
refreshed new old = record old {
  command = new.command;
  port = new.port;
  secure_port = new.secure_port;
  peerstring = new.peerstring;
}

-- Each field that the update frees was written.
abbrev pub IsFreeable : Slot CStr → Type 0
IsFreeable s = s ≢ unset

abbrev pub CanUpdate : RawPeer → Type 0
CanUpdate rp =
    IsFreeable rp.command
    × IsFreeable rp.port
    × IsFreeable rp.secure_port
    × IsFreeable rp.peerstring

module _ {P : BTree peer_tree_compare} {S : BTree session_tree_compare} where
  -- A store that is there, or was created just now, holds the entries of the store.
  pub ensured-stored :
      (r : Ref P.Tree) (p : Process P S)
      → RefIsValid r p
      → (t : P.Tree) × (ensured P.create r ≡ done t)
        × (P.entries t ≡ stored_in P r)
        × IsStore p.peers p.next (P.entries t)
  ensured-stored no_tree p v =
      (P.create, refl, P.entries-create, rw P.entries-create (record { held = tt; distinct = tt }))
  ensured-stored (tree t) p v = (t, refl, refl, v)
  ensured-stored dangling p v = absurd v

  count_in-stored :
      (r : Ref P.Tree) (p : Process P S)
      → RefIsValid r p
      → count_in r p ≡ done (length (stored_in P r))
  unfolding count_in
  count_in-stored no_tree p v = refl
  count_in-stored (tree t) p v =
      rw P.keys_lem (ap done (length-map (λ (e : Entry). e.0) (P.entries t)))
  count_in-stored dangling p v = absurd v

  -- The count is the number of entries.
  peerstore_get_count_lem :
      (p : Process P S)
      → StoreIsValid p
      → peerstore_get_count p ≡ done (length (stored_in P p.store))
  unfolding peerstore_get_count
  peerstore_get_count_lem p v = count_in-stored p.store p v

  -- What adding the peer at `a`, with GUID `k`, promises.
  pub record Added (k : CStr) (a : ℕ) (p : Process P S) : Type 0 where
    pub after : Process P S
    pub ran : peerstore_add_peer a p ≡ done (0, after)
    pub valid : StoreIsValid after
    pub only_store : after ≡ record p { store = after.store }
    pub map_after :
        (guid : Bytes)
        → peer_at after guid ≡ (if strcmp_eq k.text guid then some a else peer_at p guid)
    pub count_after : length (stored_in P after.store) ≡ length (stored_in P p.store) + 1

  -- A peer whose GUID is not in a well-formed store, neither its text nor its pointer, is added: the
  -- store stays well formed, has one entry more, finds the peer under its GUID, and every other GUID
  -- as before. Nothing else changes.
  pub peerstore_add_peer_lem :
      (a : ℕ) (p : Process P S) (k : CStr)
      → StoreIsValid p
      → Held p.peers p.next (k, a)
      → Absent k (stored_in P p.store)
      → peer_at p k.text ≡ none
      → Added k a p
  unfolding peerstore_add_peer
  peerstore_add_peer_lem a p k v h fresh new =
      let (t, e, same, w) = ensured-stored p.store p v in
      let absent : Absent k (P.entries t) = rw same fresh in
      let i =
        P.entries-add t k a (find-Absent peer_tree_compare-ByAddress k (P.entries t) absent) in
      record {
        after = record p { store = tree (P.add t k a) };
        ran = rw (e, h.at, h.named) refl;
        valid = IsStore-add P p.peers p.next t k a w h absent;
        only_store = refl;
        map_after = λ guid. first_text-Inserts k a guid i (rw same new) ∙ rw same refl;
        count_after = length-Inserts i ∙ rw same (omega arith);
      }

  pub RefIsValid-map :
      (r : Ref P.Tree) (p q : Process P S)
      → ((es : List Entry) → IsStore p.peers p.next es → IsStore q.peers q.next es)
      → RefIsValid r p
      → RefIsValid r q
  RefIsValid-map no_tree p q f v = tt
  RefIsValid-map (tree t) p q f v = f (P.entries t) v
  RefIsValid-map dangling p q f v = v

  -- An update of a peer with the same GUID ends, takes over the four fields, and keeps the GUID,
  -- the IP address and all other peers; the store stays well formed.
  pub peerstore_update_peer_lem :
      (n u : ℕ) (p : Process P S) (new old : RawPeer) (j k : CStr)
      → StoreIsValid p
      → p.peers n ≡ some new
      → p.peers u ≡ some old
      → new.guid ≡ set j
      → old.guid ≡ set k
      → j.text ≡ k.text
      → CanUpdate old
      → let after = record p { peers = write p.peers u (some (refreshed new old)) } in
        (peerstore_update_peer n u p ≡ done after) × StoreIsValid after
  unfolding peerstore_update_peer
  peerstore_update_peer_lem n u p new old j k v hn hu gn gu same can = (
    rw (hn, hu, gn, gu) (ground (arith, strcmp_eq_iff j.text k.text)),
    RefIsValid-map p.store p (record p { peers = write p.peers u (some (refreshed new old)) })
        (λ es w. IsStore-write p.peers p.next u old (refreshed new old) es hu refl w) v,
  )

  pub stored-Held :
      (r : Ref P.Tree) (p : Process P S)
      → RefIsValid r p
      → All (Held p.peers p.next) (stored_in P r)
  stored-Held no_tree p v = tt
  stored-Held (tree t) p v = v.held
  stored-Held dangling p v = absurd v

  -- A GUID that is not found: the state after the search differs in its tree at most, which holds
  -- the same entries.
  pub record Missed (r : Ref P.Tree) (guid : Bytes) (p : Process P S) : Type 0 where
    pub handle : Slot ℕ
    pub store : Ref P.Tree
    pub ran : checked_in r guid p ≡ ((0, handle), record p { store = store })
    pub valid : RefIsValid store (record p { store = store })
    pub same : stored_in P store ≡ stored_in P r

  pub checked_in-none :
      (r : Ref P.Tree) (guid : Bytes) (p : Process P S)
      → RefIsValid r p
      → p.store ≡ r
      → first_text guid (stored_in P r) ≡ none
      → Missed r guid p
  checked_in-none no_tree guid p v e h = record {
    handle = unset;
    store = tree P.create;
    ran = refl;
    valid = rw P.entries-create (record { held = tt; distinct = tt });
    same = P.entries-create;
  }
  checked_in-none (tree t) guid p v e h = record {
    handle = null;
    store = p.store;
    ran = rw h refl;
    valid = rw e v;
    same = ap (stored_in P) e;
  }
  checked_in-none dangling guid p v e h = absurd v

  pub checked_in-some :
      (r : Ref P.Tree) (guid : Bytes) (p : Process P S) (a : ℕ)
      → RefIsValid r p
      → first_text guid (stored_in P r) ≡ some a
      → checked_in r guid p ≡ ((1, set a), p)
  unfolding first_text
  checked_in-some no_tree guid p a v h = cc
  checked_in-some (tree t) guid p a v h = rw h refl
  checked_in-some dangling guid p a v h = absurd v
