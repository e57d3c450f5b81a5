-- ===== src/Sound/Datagrams.antt =====
-- Any datagram that the listener of src/net/discovery.c gets (`multicast_listener`).
use whisp.Prelude.{
  ℕ, ◌+◌, ◌==◌, ◌<◌, ◌≤◌, ◌≡◌, none, some, List, [], ◌∷◌, arith, Option-cases, Bool-cases, inl, inr,
}
use whisp.CString.{Bytes, CStr, tokens}
use whisp.Outcome.{Outcome, done, Slot, set, >>=-eq-done, ◌>>◌}
use whisp.Serialization.{
  STypes, okay, malformed, unknown, PeerKey, guid_key, command_key, port_key, secureport_key,
  peerage_key, peer_key, set_peer_field, free_peer_fields, fresh_peer, PeerResult, peer_loop,
  read_peer, deserialize_data,
}
use whisp.Process.{RawPeer}

-- Where a GUID was written, it was copied to an address from `lo` to below `next`.
abbrev pub CopiedIn : ℕ → ℕ → Slot CStr → Type 0
CopiedIn lo next s = (k : CStr) → s ≡ set k → (lo ≤ k.at) × (k.at < next)

pub CopiedIn-mono :
    (lo next later : ℕ) (s : Slot CStr) → next ≤ later → CopiedIn lo next s → CopiedIn lo later s
CopiedIn-mono lo next later s le h k e = let g = h k e in (g.0, omega (arith, g.1))

set_peer_field-CopiedIn :
    (k : PeerKey) (value : Bytes) (rp : RawPeer) (lo next : ℕ)
    → lo ≤ next
    → CopiedIn lo next rp.guid
    → CopiedIn lo (next + 1) (set_peer_field k (record { at = next; text = value }) rp).guid
unfolding set_peer_field
set_peer_field-CopiedIn guid_key value rp lo next le h = λ k e.
    let same : k ≡ record { at = next; text = value } = cc in rw same (omega arith, omega arith)
set_peer_field-CopiedIn command_key value rp lo next le h =
    CopiedIn-mono lo next (next + 1) rp.guid (omega arith) h
set_peer_field-CopiedIn port_key value rp lo next le h =
    CopiedIn-mono lo next (next + 1) rp.guid (omega arith) h
set_peer_field-CopiedIn secureport_key value rp lo next le h =
    CopiedIn-mono lo next (next + 1) rp.guid (omega arith) h
set_peer_field-CopiedIn peerage_key value rp lo next le h =
    CopiedIn-mono lo next (next + 1) rp.guid (omega arith) h

-- What a run of the reader leaves: the peer is the one at `at`, and its GUID a new copy.
pub record ReadPeer (lo at next : ℕ) (r : PeerResult) : Type 0 where
  pub grows : next ≤ r.2
  pub held :
      (b : ℕ) (rp : RawPeer) → r.1 ≡ some (b, rp) → (b ≡ at) × (b < r.2) × CopiedIn lo r.2 rp.guid

read_okay :
    (lo at next : ℕ) (ip : CStr) (rp : RawPeer)
    → at < next
    → CopiedIn lo next rp.guid
    → ReadPeer lo at next (okay, some (at, record rp { ip = set ip }), next)
read_okay lo at next ip rp below h = record {
  grows = omega arith;
  held = λ b rp' e.
      let here : b ≡ at = cc in
      let same : rp' ≡ record rp { ip = set ip } = cc in (here, omega arith, rw same h);
}

read_nothing : (lo at next : ℕ) (s : STypes) → ReadPeer lo at next (s, none, next)
read_nothing lo at next s = record { grows = omega arith; held = λ b rp e. cc }

peer_loop-ReadPeer :
    (ts : List Bytes) (ip : CStr) (lo at : ℕ) (rp : RawPeer) (next : ℕ) (r : PeerResult)
    → lo ≤ next
    → at < next
    → CopiedIn lo next rp.guid
    → peer_loop ts ip at rp next ≡ done r
    → ReadPeer lo at next r
unfolding peer_loop
peer_loop-ReadPeer [] ip lo at rp next r le below h run =
    let same : r ≡ (okay, some (at, rp), next) = cc in
    rw same (record {
      grows = omega arith;
      held = λ b rp' e.
          let here : b ≡ at = cc in let is : rp' ≡ rp = cc in (here, omega arith, rw is h);
    })
peer_loop-ReadPeer (t ∷ []) ip lo at rp next r le below h run = elim (Option-cases (peer_key t)) [
  | inl e ↦
      let same : r ≡ (okay, some (at, record rp { ip = set ip }), next) = ground (arith, run, e) in
      rw same (read_okay lo at next ip rp below h)
  | inr (k, e) ↦
      let end : Outcome PeerResult = done (malformed, none, next) in
      let go : (free_peer_fields k rp >> end) ≡ done r = ground (arith, run, e) in
      let (u, hu, last) = >>=-eq-done (free_peer_fields k rp) (λ _. end) go in
      let same : r ≡ (malformed, none, next) = cc in rw same (read_nothing lo at next malformed)
]
peer_loop-ReadPeer (t ∷ value ∷ ts) ip lo at rp next r le below h run =
    elim (Option-cases (peer_key t)) [
      | inl e ↦
          peer_loop-ReadPeer (value ∷ ts) ip lo at (record rp { ip = set ip }) next r le below h
            (ground (arith, run, e))
      | inr (k, e) ↦
          let s : CStr = record { at = next; text = value } in
          let rp' : RawPeer = record (set_peer_field k s rp) { ip = set ip } in
          let go : peer_loop ts ip at rp' (next + 1) ≡ done r = ground (arith, run, e) in
          let rest =
            peer_loop-ReadPeer ts ip lo at rp' (next + 1) r (omega arith) (omega arith)
              (set_peer_field-CopiedIn k value rp lo next le h) go in
          record { grows = omega (arith, rest.grows); held = rest.held }
    ]

read_peer-ReadPeer :
    (ts : List Bytes) (ip : CStr) (next : ℕ) (r : PeerResult)
    → read_peer ts ip next ≡ done r
    → ReadPeer next next next r
read_peer-ReadPeer [] ip next r h =
    let same : r ≡ (unknown, none, next) = cc in rw same (read_nothing next next next unknown)
read_peer-ReadPeer (t ∷ ts) ip next r h =
    let read =
      peer_loop-ReadPeer (t ∷ ts) ip next next fresh_peer (next + 1) r (omega arith) (omega arith)
        (λ k e. cc) h in
    record { grows = omega (arith, read.grows); held = read.held }

pub deserialize_data-ReadPeer :
    (msg : Bytes) (len : ℕ) (ip : CStr) (next : ℕ) (r : PeerResult)
    → deserialize_data msg len ip next ≡ done r
    → ReadPeer next next next r
unfolding deserialize_data
deserialize_data-ReadPeer msg len ip next r h = elim (Bool-cases (len == 0)) [
  | inl e ↦
      let same : r ≡ (malformed, none, next) = ground (arith, h, e) in
      rw same (read_nothing next next next malformed)
  | inr e ↦ read_peer-ReadPeer (tokens msg) ip next r (ground (arith, h, e))
]
