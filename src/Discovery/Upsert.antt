-- ===== src/Discovery/Upsert.antt =====
-- A received message updates the store as a map from GUIDs to peers (src/net/discovery.c,
-- `multicast_serialization_process`).
use whisp.Prelude.{
  ℕ, ◌+◌, ◌≤◌, ◌<◌, ◌≡◌, refl, ◌≢◌, sym, ap, ◌∙◌, none, some, arith, length, Option-cases, inl, inr,
  if◌then◌else◌,
}
use whisp.CString.{Bytes, CStr, strcmp_eq}
use whisp.CString.Tokens.{strcmp_eq_iff, strcmp_eq_refl}
use whisp.Outcome.{set}
use whisp.Btree.{BTree}
use whisp.Btree.Pointers.{Absent}
use whisp.Process.{RawPeer, Process, peer_tree_compare, session_tree_compare, write}
use whisp.Peerstore.View.{Held, stored_in, peer_at, StoreIsValid}
use whisp.Peerstore.Changes.{IsStore-Agrees, IsStore-write, Found, first_text-Found, Found-text}
use whisp.Peerstore.Operations.{
  peerstore_add_peer_lem, refreshed, CanUpdate, peerstore_update_peer_lem, RefIsValid-map,
  stored-Held, checked_in-none, checked_in-some,
}
use whisp.Discovery.{keep_peer}
use whisp.Discovery.Known.{
  IsComplete, Merges, Upserted, known, known-eq, known_cases, loaded, loaded-valid,
  peer_received-checked, stored-Absent,
}

module _ {P : BTree peer_tree_compare} {S : BTree session_tree_compare} where
  Upserted-new :
      (a : ℕ) (rp : RawPeer) (later : ℕ) (k : CStr) (p q : Process P S)
      → StoreIsValid p
      → StoreIsValid q
      → p.next ≤ a
      → p.next ≤ later
      → peer_at p k.text ≡ none
      → q ≡ record (loaded a rp later p) { store = q.store }
      → ((guid : Bytes)
          → peer_at q guid ≡ (if strcmp_eq k.text guid then some a else peer_at p guid))
      → length (stored_in P q.store) ≡ length (stored_in P p.store) + 1
      → Upserted k rp p q
  Upserted-new a rp later k p q v w fresh le new only map count = record {
    valid = w;
    sessions_after = ap (λ (s : Process P S). s.sessions) only;
    session_tree_after = ap (λ (s : Process P S). s.session_tree) only;
    configuration_after = ap (λ (s : Process P S). s.configuration) only;
    sent_after = ap (λ (s : Process P S). s.sent) only;
    grows = let e = ap (λ (s : Process P S). s.next) only in omega arith;
    known_after = λ guid.
        let heap = ap (λ (s : Process P S). s.peers) only in
        known_cases rp k p q guid (rw (map k.text, strcmp_eq_refl k.text, new, heap) (ground arith))
          (λ apart.
            known-eq p q guid v (ground (arith, map guid, strcmp_eq_iff k.text guid))
              (λ h f. rw heap (let b : h < p.next = f.held.below in ground arith)));
    count = rw (new) count;
  }

  received_new :
      (a : ℕ) (rp : RawPeer) (later : ℕ) (k : CStr) (p : Process P S)
      → StoreIsValid p
      → IsComplete k rp
      → p.next ≤ a
      → p.next ≤ k.at
      → a < later
      → k.at < later
      → peer_at p k.text ≡ none
      → Merges a rp later k p
  received_new a rp later k p v c fresh key_fresh below key_below new =
      let p' = loaded a rp later p in
      let v' = loaded-valid a rp later p fresh (omega arith) v in
      let m = checked_in-none p.store k.text p' v' refl new in
      let p'' : Process P S = record p' { store = m.store } in
      let held : Held p'.peers later (k, a) = record {
        peer = rp;
        at = ground arith;
        named = c.guid;
        key_below = key_below;
        below = below;
      } in
      let absent : Absent k (stored_in P m.store) = rw m.same (stored-Absent p k v key_fresh) in
      let added = peerstore_add_peer_lem a p'' k m.valid held absent (rw m.same new) in
      (
        added.after,
        peer_received-checked a rp k p' c v' ∙ rw m.ran (unfold keep_peer in rw added.ran refl),
        Upserted-new a rp later k p added.after v added.valid fresh (omega arith) new
            added.only_store (λ guid. added.map_after guid ∙ rw m.same refl)
            (added.count_after ∙ rw m.same refl),
      )

  -- The state after an update of the object at `h` from the one at `a`, which is then freed.
  abbrev replaced : ℕ → RawPeer → ℕ → ℕ → RawPeer → Process P S → Process P S
  replaced a rp later h old p =
      let p' = loaded a rp later p in
      record p' { peers = write (write p'.peers h (some (refreshed rp old))) a none }

  replaced-valid :
      (a : ℕ) (rp : RawPeer) (later h : ℕ) (old : RawPeer) (p : Process P S)
      → StoreIsValid p
      → p.next ≤ a
      → p.next ≤ later
      → p.peers h ≡ some old
      → StoreIsValid (replaced a rp later h old p)
  replaced-valid a rp later h old p v fresh more at =
      RefIsValid-map p.store p (replaced a rp later h old p)
        (λ es w.
          IsStore-Agrees (λ b below. ground arith) more
            (IsStore-write p.peers p.next h old (refreshed rp old) es at refl w))
        v

  Upserted-known :
      (a : ℕ) (rp : RawPeer) (later h : ℕ) (old : RawPeer) (k : CStr) (p : Process P S)
      → StoreIsValid p
      → p.next ≤ a
      → p.next ≤ later
      → peer_at p k.text ≡ some h
      → p.peers h ≡ some old
      → Found p.peers p.next k.text h
      → Upserted k rp p (replaced a rp later h old p)
  Upserted-known a rp later h old k p v fresh more there at f = record {
    valid = replaced-valid a rp later h old p v fresh more at;
    sessions_after = refl;
    session_tree_after = refl;
    configuration_after = refl;
    sent_after = refl;
    grows = more;
    known_after = λ guid.
        known_cases rp k p (replaced a rp later h old p) guid
          (rw (there, at) (let b : h < p.next = f.held.below in ground arith))
          (λ apart. known-eq p (replaced a rp later h old p) guid v refl (λ j g.
            let low : j < p.next = g.held.below in
            let other : h ≢ j =
              λ e. apart (Found-text p.peers p.next j k.text guid (rw e at f) g) in
            ground arith));
    count = rw there (omega arith);
  }

  received_known :
      (a : ℕ) (rp : RawPeer) (later h : ℕ) (old : RawPeer) (k : CStr) (p : Process P S)
      → StoreIsValid p
      → IsComplete k rp
      → p.next ≤ a
      → p.next ≤ later
      → peer_at p k.text ≡ some h
      → p.peers h ≡ some old
      → CanUpdate old
      → Merges a rp later k p
  received_known a rp later h old k p v c fresh more there at can =
      let p' = loaded a rp later p in
      let v' = loaded-valid a rp later p fresh more v in
      let f =
        first_text-Found p.peers p.next k.text h (stored_in P p.store) (stored-Held p.store p v)
          there in
      let named : old.guid ≡ set f.key = ground (arith, f.held.at, f.held.named) in
      let u =
        peerstore_update_peer_lem a h p' rp old k f.key v' (ground arith)
          (let b : h < p.next = f.held.below in ground arith) c.guid named (sym f.text) can in
      (
        replaced a rp later h old p,
        peer_received-checked a rp k p' c v'
            ∙ rw (checked_in-some p.store k.text p' h v' there) (unfold keep_peer in rw u.0 refl),
        Upserted-known a rp later h old k p v fresh more there at f,
      )

  -- On a well-formed store, a new peer with all the pointers that are checked is kept: its GUID is
  -- known afterwards as this peer, or, if it was known, as the old one with the new command, ports
  -- and peer string; every other GUID is known as before. A known peer must have these four fields.
  pub peer_received-Upserted :
      (a : ℕ) (rp : RawPeer) (later : ℕ) (k : CStr) (p : Process P S)
      → StoreIsValid p
      → IsComplete k rp
      → p.next ≤ a
      → p.next ≤ k.at
      → a < later
      → k.at < later
      → ((old : RawPeer) → known p k.text ≡ some old → CanUpdate old)
      → Merges a rp later k p
  peer_received-Upserted a rp later k p v c fresh key_fresh below key_below can =
      elim (Option-cases (peer_at p k.text)) [
        | inl new ↦ received_new a rp later k p v c fresh key_fresh below key_below new
        | inr (h, there) ↦
            let f =
              first_text-Found p.peers p.next k.text h (stored_in P p.store)
                (stored-Held p.store p v) there in
            received_known a rp later h f.held.peer k p v c fresh (omega arith) there f.held.at
              (can f.held.peer (rw there f.held.at))
      ]
