-- ===== src/Sound/Peers.antt =====
-- A peer that a datagram brought, of which nothing is known (`multicast_serialization_process` of
-- src/net/discovery.c).
use whisp.Prelude.{ℕ, ◌<◌, ◌≤◌, ◌≡◌, refl, ◌∙◌, sym, none, some, arith, Option-cases, inl, inr}
use whisp.CString.{CStr, strcmp_eq}
use whisp.Outcome.{
  done, jnx_check, Slot, unset, null, set, deref, free_slot, free_slot-eq-done, >>=-eq-done,
}
use whisp.Btree.{BTree}
use whisp.Process.{
  RawPeer, Process, peer_tree_compare, session_tree_compare, write, object, object-eq-done,
}
use whisp.Peerstore.{peerstore_update_peer}
use whisp.Peerstore.View.{StoreIsValid, stored_in, peer_at, checked}
use whisp.Peerstore.Changes.{first_text-Found}
use whisp.Peerstore.Operations.{CanUpdate, stored-Held, checked_in-some}
use whisp.Discovery.{check_pointer, keep_peer, peer_received}
use whisp.Discovery.Upsert.{peer_received-Upserted}
use whisp.Discovery.Known.{IsComplete, known, loaded, loaded-valid, Upserted, peer_received-checked}
use whisp.Sound.Datagrams.{CopiedIn}

-- A pointer that is checked was written, and is not NULL.
pub check_pointer-eq-done :
    (s : Slot CStr) {u : Unit {0}} → check_pointer s ≡ done u → (k : CStr) × (s ≡ set k)
check_pointer-eq-done unset h = cc
check_pointer-eq-done null h = cc
check_pointer-eq-done (set k) h = (k, refl)

module _ {P : BTree peer_tree_compare} {S : BTree session_tree_compare} where
  -- What is freed of a known peer was written.
  updated-CanUpdate :
      (a h : ℕ) (old : RawPeer) (p q : Process P S)
      → p.peers h ≡ some old
      → peerstore_update_peer a h p ≡ done q
      → CanUpdate old
  unfolding peerstore_update_peer
  updated-CanUpdate a h old p q at run =
      let (new, hn, h1) = >>=-eq-done (object (p.peers a)) _ run in
      let (o, ho, h2) = >>=-eq-done (object (p.peers h)) _ h1 in
      let (x, hx, h3) = >>=-eq-done (deref new.guid) _ h2 in
      let (y, hy, h4) = >>=-eq-done (deref o.guid) _ h3 in
      let (u, hu, h5) = >>=-eq-done (jnx_check (strcmp_eq x.text y.text)) _ h4 in
      let (c, hc, h6) = >>=-eq-done (free_slot o.command) _ h5 in
      let (t, ht, h7) = >>=-eq-done (free_slot o.port) _ h6 in
      let (s, hs, h8) = >>=-eq-done (free_slot o.secure_port) _ h7 in
      let (z, hz, h9) = >>=-eq-done (free_slot o.peerstring) _ h8 in
      let found = object-eq-done (p.peers h) ho in
      let is : old ≡ o = cc in
      rw is (
        free_slot-eq-done o.command hc,
        free_slot-eq-done o.port ht,
        free_slot-eq-done o.secure_port hs,
        free_slot-eq-done o.peerstring hz,
      )

  known-CanUpdate :
      (a : ℕ) (rp : RawPeer) (later : ℕ) (old : RawPeer) (k : CStr) (p q : Process P S)
      → StoreIsValid p
      → StoreIsValid (loaded a rp later p)
      → p.next ≤ a
      → keep_peer a (checked k.text (loaded a rp later p)) ≡ done q
      → known p k.text ≡ some old
      → CanUpdate old
  unfolding keep_peer
  known-CanUpdate a rp later old k p q v w fresh run is = elim (Option-cases (peer_at p k.text)) [
    | inl e ↦ absurd (ground (arith, is, e))
    | inr (h, e) ↦
        let m = loaded a rp later p in
        let f =
          first_text-Found p.peers p.next k.text h (stored_in P p.store) (stored-Held p.store p v)
            e in
        let at : m.peers h ≡ some old =
          let b : h < p.next = f.held.below in
          let o : p.peers h ≡ some old = ground (arith, is, e) in ground arith in
        let go : keep_peer a ((1, set h), m) ≡ done q =
          rw (checked_in-some p.store k.text m h w e) at run in
        let (r, hr, last) =
          >>=-eq-done (peerstore_update_peer a h m)
            (λ x. done (record x { peers = write x.peers a none })) go in
        updated-CanUpdate a h old m r at hr
  ]

  -- A peer that is received, by a run that goes through, is complete, and updates the store.
  pub peer_received-Upserts :
      (a : ℕ) (rp : RawPeer) (later : ℕ) (p q : Process P S)
      → StoreIsValid p
      → p.next ≤ a
      → a < later
      → CopiedIn p.next later rp.guid
      → peer_received a rp (loaded a rp later p) ≡ done q
      → (k : CStr) × IsComplete k rp × Upserted k rp p q
  unfolding peer_received
  peer_received-Upserts a rp later p q v fresh below copied run =
      let m = loaded a rp later p in
      let (u1, c1, h1) = >>=-eq-done (check_pointer rp.guid) _ run in
      let (u2, c2, h2) = >>=-eq-done (check_pointer rp.command) _ h1 in
      let (u3, c3, h3) = >>=-eq-done (check_pointer rp.ip) _ h2 in
      let (u4, c4, h4) = >>=-eq-done (check_pointer rp.port) _ h3 in
      let (k, named) = check_pointer-eq-done rp.guid c1 in
      let complete : IsComplete k rp = record {
        guid = named;
        command = check_pointer-eq-done rp.command c2;
        ip = check_pointer-eq-done rp.ip c3;
        port = check_pointer-eq-done rp.port c4;
      } in
      let (low, high) = copied k named in
      let w = loaded-valid a rp later p fresh (omega arith) v in
      let go : keep_peer a (checked k.text m) ≡ done q =
        sym (peer_received-checked a rp k m complete w) ∙ run in
      let can : (old : RawPeer) → known p k.text ≡ some old → CanUpdate old =
        λ old is. known-CanUpdate a rp later old k p q v w fresh go is in
      let (r, ran, upserted) =
        peer_received-Upserted a rp later k p v complete fresh low below high can in
      let same : q ≡ r = cc in (k, complete, rw same upserted)
