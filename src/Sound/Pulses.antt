-- ===== src/Sound/Pulses.antt =====
-- The discovery of src/net/discovery.c, on any datagram and in any round: `multicast_listener` and the
-- body of `discovery_start`.
use whisp.Prelude.{ℕ, ◌==◌, ◌<◌, ◌≤◌, ◌≡◌, refl, none, some, List, ◌∷◌, arith, Bool-cases, inl, inr}
use whisp.CString.{Bytes, CStr, codes}
use whisp.Outcome.{done, Slot, deref, >>=-eq-done}
use whisp.Btree.{BTree}
use whisp.Process.{RawPeer, Process, Packet, peer_tree_compare, session_tree_compare}
use whisp.Serialization.{
  okay, general_error, malformed, unknown, PeerResult, serialize_data, deserialize_data,
}
use whisp.Peerstore.View.{StoreIsValid}
use whisp.Discovery.{
  check_pointer, peer_received, message_read, multicast_serialization_process, multicast_listener,
  multicast_pulse,
}
use whisp.Discovery.Known.{IsComplete, loaded, Upserted}
use whisp.Discovery.Beacon.{Beacon, Round, gtb, elapsed, pulse_at, beat}
use whisp.Sound.{IsSound, Keeps, Keeps-refl, store-Agrees, sessions-Agree}
use whisp.Sound.Datagrams.{CopiedIn, ReadPeer, deserialize_data-ReadPeer}
use whisp.Sound.Peers.{peer_received-Upserts}

module _ {P : BTree peer_tree_compare} {S : BTree session_tree_compare} where
  -- A datagram that is refused changes nothing but addresses; any other updates the store by one peer.
  pub data Heard (p q : Process P S) : Type 0 where
    ignored : p.next ≤ q.next → q ≡ record p { next = q.next } → Heard p q
    kept : (k : CStr) (rp : RawPeer) → IsComplete k rp → Upserted k rp p q → Heard p q

  kept_peer :
      (a : ℕ) (rp : RawPeer) (next : ℕ) (p q : Process P S)
      → StoreIsValid p
      → a ≡ p.next
      → a < next
      → CopiedIn p.next next rp.guid
      → peer_received a rp (loaded a rp next p) ≡ done q
      → Heard p q
  kept_peer a rp next p q v same below copied h =
      let (k, complete, upserted) =
        peer_received-Upserts a rp next p q v (omega arith) below copied h in
      kept k rp complete upserted

  message_read-Heard :
      (r : PeerResult) (p q : Process P S)
      → StoreIsValid p
      → ReadPeer p.next p.next p.next r
      → message_read r p ≡ done q
      → Heard p q
  unfolding message_read
  message_read-Heard (okay, none, next) p q v read h = cc
  message_read-Heard (okay, some (a, rp), next) p q v read h =
      let (same, below, copied) = read.held a rp refl in
      kept_peer a rp next p q v same below copied h
  message_read-Heard (general_error, peer, next) p q v read h =
      let same : q ≡ record p { next = next } = cc in rw same (ignored read.grows refl)
  message_read-Heard (unknown, peer, next) p q v read h =
      let same : q ≡ record p { next = next } = cc in rw same (ignored read.grows refl)
  message_read-Heard (malformed, peer, next) p q v read h =
      let same : q ≡ record p { next = next } = cc in rw same (ignored read.grows refl)

  -- Whatever a datagram holds, wherever it comes from: if the listener's thread ends without undefined
  -- behaviour or a check that fails, then either the store, the sessions, the settings and what was sent
  -- are as they were, or exactly one peer, whose four checked fields are there, was put into the store,
  -- new or in place of the fields of the peer with its GUID, and every other GUID is known as before.
  pub multicast_listener-Heard :
      (msg : Bytes) (len : ℕ) (ipaddress : Slot CStr) (p q : Process P S)
      → StoreIsValid p
      → multicast_listener msg len ipaddress p ≡ done q
      → Heard p q
  unfolding multicast_listener multicast_serialization_process
  multicast_listener-Heard msg len ipaddress p q v h =
      let (u, hu, h1) = >>=-eq-done (check_pointer ipaddress) _ h in
      let (ip, hi, h2) = >>=-eq-done (deref ipaddress) _ h1 in
      let (r, hr, h3) = >>=-eq-done (deserialize_data msg len ip p.next) _ h2 in
      message_read-Heard r p q v (deserialize_data-ReadPeer msg len ip p.next r hr) h3

  Heard-Keeps : (p q : Process P S) → IsSound p → Heard p q → Keeps p q
  Heard-Keeps p q v (ignored le same) = rw same (record {
    sound = record {
      store = store-Agrees p (record p { next = q.next }) v.store refl (λ b h. refl) le;
      sessions = sessions-Agree p (record p { next = q.next }) v.sessions refl (λ b h. refl) le;
    };
    configuration = refl;
    grows = le;
  })
  Heard-Keeps p q v (kept k rp c u) = record {
    sound = record {
      store = u.valid;
      sessions =
          sessions-Agree p q v.sessions u.session_tree_after (λ b h. rw u.sessions_after refl)
            u.grows;
    };
    configuration = u.configuration_after;
    grows = u.grows;
  }

  pub multicast_listener-Keeps :
      (msg : Bytes) (len : ℕ) (ipaddress : Slot CStr) (p q : Process P S)
      → IsSound p
      → multicast_listener msg len ipaddress p ≡ done q
      → Keeps p q
  multicast_listener-Keeps msg len ipaddress p q v h =
      Heard-Keeps p q v (multicast_listener-Heard msg len ipaddress p q v.store h)

  -- A packet that is sent changes nothing else.
  pub sent-Keeps :
      (sent : List Packet) (p : Process P S) → IsSound p → Keeps p (record p { sent = sent })
  sent-Keeps sent p v = record {
    sound = record {
      store = store-Agrees p (record p { sent = sent }) v.store refl (λ b h. refl) (omega arith);
      sessions =
          sessions-Agree p (record p { sent = sent }) v.sessions refl (λ b h. refl) (omega arith);
    };
    configuration = refl;
    grows = omega arith;
  }

  pulse_at-Keeps :
      (later : ℕ) (b b' : Beacon) (p q : Process P S)
      → IsSound p
      → pulse_at later b p ≡ done (b', q)
      → Keeps p q
  unfolding pulse_at multicast_pulse
  pulse_at-Keeps later b b' p q v h =
      let (m, hm, h1) = >>=-eq-done (multicast_pulse b.bgroup b.port p) _ h in
      let ((buffer, len), hs, h2) =
        >>=-eq-done
          (serialize_data (p.configuration (codes "GUID")) (some (codes "PULSE"))
            (p.configuration (codes "TPORT")) (p.configuration (codes "SECUREPORT"))
            (some (codes "PEER-NULL")))
          _ hm in
      let sent = record { host = b.bgroup; port = b.port; payload = buffer } ∷ p.sent in
      let same : q ≡ record p { sent = sent } = cc in rw same (sent-Keeps sent p v)

  pub beat-Keeps :
      (r : Round) (b b' : Beacon) (p q : Process P S)
      → IsSound p
      → beat r b p ≡ done (b', q)
      → Keeps p q
  unfolding beat
  beat-Keeps r b b' p q v h = elim (Bool-cases (b.start_t == 0)) [
    | inl e ↦ pulse_at-Keeps r.later b b' p q v (ground (arith, h, e))
    | inr e ↦ elim (Bool-cases (gtb (elapsed r.now b.start_t) b.interval)) [
      | inl f ↦
          pulse_at-Keeps r.later (record b { end_t = r.now }) b' p q v (ground (arith, h, e, f))
      | inr f ↦ let same : q ≡ p = ground (arith, h, e, f) in rw same (Keeps-refl p v)
    ]
  ]
