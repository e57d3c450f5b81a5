-- ===== src/Discovery/Pulse.antt =====
-- From the pulse of one peer to the store of another, and datagrams that are no pulse
-- (src/net/discovery.c).
use whisp.Prelude.{ℕ, ◌+◌, ◌≤◌, ◌<◌, ◌≡◌, refl, ◌≢◌, none, some, List, [], ◌∷◌, arith, All, length}
use whisp.CString.{Bytes, CStr, codes, tokens}
use whisp.CString.Tokens.{IsWord}
use whisp.Outcome.{Outcome, done, fault, undefined, set, ◌>>=◌}
use whisp.Btree.{BTree}
use whisp.Process.{RawPeer, Process, Packet, peer_tree_compare, session_tree_compare}
use whisp.Peerstore.View.{StoreIsValid}
use whisp.Peerstore.Operations.{CanUpdate}
use whisp.Serialization.{okay, read_peer, fresh_peer, peer_key, peer_loop, deserialize_data}
use whisp.Serialization.Peers.{
  AllWords, sent_peer, serialize_data_fits, deserialize_data-peer_message,
}
use whisp.Discovery.{multicast_pulse, multicast_serialization_process, message_read}
use whisp.Discovery.Upsert.{peer_received-Upserted}
use whisp.Discovery.Known.{known, Upserted, IsComplete}

pulse-IsWord : IsWord (codes "PULSE")
pulse-IsWord = (cc, ground arith)

nobody-IsWord : IsWord (codes "PEER-NULL")
nobody-IsWord = (cc, ground arith)

module _ {P : BTree peer_tree_compare} {S : BTree session_tree_compare} where
  -- The last packet that was sent is received, from `ip`.
  abbrev pub delivered : List Packet → CStr → Process P S → Outcome (Process P S)
  delivered [] ip p = fault undefined
  delivered (m ∷ _) ip p = multicast_serialization_process m.payload (length m.payload) ip p

  -- The pulse that `sender` sends, received at `p` from `ip`, makes `p` know the sender's GUID with
  -- the command PULSE and the sender's ports (and with the address `ip`, if it is new); every other
  -- GUID is known as before. The texts are words that fit the buffer.
  pub delivered-multicast_pulse :
      (g t s bgroup port : Bytes) (ip : CStr) (sender p : Process P S)
      → sender.configuration (codes "GUID") ≡ some g
      → sender.configuration (codes "TPORT") ≡ some t
      → sender.configuration (codes "SECUREPORT") ≡ some s
      → AllWords (g ∷ t ∷ s ∷ [])
      → length g + length t + length s ≤ 966
      → StoreIsValid p
      → ((old : RawPeer) → known p g ≡ some old → CanUpdate old)
      → (q : Process P S) × ((multicast_pulse bgroup port sender >>= λ after.
            delivered after.sent ip p)
          ≡ done q)
        × Upserted
            (record { at = p.next + 1; text = g })
            (sent_peer g (codes "PULSE") t s (codes "PEER-NULL") ip p.next)
            p
            q
  unfolding multicast_pulse multicast_serialization_process
  delivered-multicast_pulse g t s bgroup port ip sender p cg ct cs w fits v can =
      let pulse : Bytes = codes "PULSE" in
      let nobody : Bytes = codes "PEER-NULL" in
      let rp = sent_peer g pulse t s nobody ip p.next in
      let k : CStr = record { at = p.next + 1; text = g } in
      let complete : IsComplete k rp = record {
        guid = refl;
        command = (_, refl);
        ip = (_, refl);
        port = (_, refl);
      } in
      let words : AllWords (g ∷ pulse ∷ t ∷ s ∷ nobody ∷ []) =
        (w.0, (pulse-IsWord, (w.1.0, (w.1.1.0, (nobody-IsWord, tt))))) in
      let (q, ran, up) =
        peer_received-Upserted p.next rp (p.next + 1 + 1 + 1 + 1 + 1 + 1) k p v complete
          (omega arith) (omega arith) (omega arith) (omega arith) can in
      (
        q,
        rw (cg, ct, cs)
            (rw (serialize_data_fits g pulse t s nobody (omega arith)) (
              rw (deserialize_data-peer_message g pulse t s nobody ip p.next words)
                (unfold message_read in ran))),
        up,
      )

-- Tokens that are no keys leave the fields as they are.
peer_loop-no_keys :
    (ts : List Bytes) (ip : CStr) (at : ℕ) (rp : RawPeer) (next : ℕ)
    → All (λ t. peer_key t ≡ none) ts
    → (last : RawPeer) × (peer_loop ts ip at rp next ≡ done (okay, some (at, last), next))
      × (last.guid ≡ rp.guid)
unfolding peer_loop
peer_loop-no_keys [] ip at rp next h = (rp, refl, refl)
peer_loop-no_keys (t ∷ []) ip at rp next h = (record rp { ip = set ip }, ground arith, refl)
peer_loop-no_keys (t ∷ v ∷ ts) ip at rp next h =
    let (last, ran, same) = peer_loop-no_keys (v ∷ ts) ip at (record rp { ip = set ip }) next h.1 in
    (last, rw (h.0, peer_loop) ran, same)

module _ {P : BTree peer_tree_compare} {S : BTree session_tree_compare} where
  read_no_keys :
      (ts : List Bytes) (ip : CStr) (p : Process P S)
      → ts ≢ []
      → All (λ t. peer_key t ≡ none) ts
      → (read_peer ts ip p.next >>= λ r. message_read r p) ≡ fault undefined
  unfolding message_read
  read_no_keys [] ip p some_token h = absurd (some_token refl)
  read_no_keys (t ∷ ts) ip p some_token h =
      let (last, ran, same) = peer_loop-no_keys (t ∷ ts) ip p.next fresh_peer (p.next + 1) h in
      rw (ran, same) refl

  -- Any datagram with a token and no key in it: it is read as S_OKAY, and the GUID that is checked
  -- and looked up next was never written.
  pub multicast_serialization_process_no_keys :
      (msg : Bytes) (len : ℕ) (ip : CStr) (p : Process P S)
      → 0 < len
      → tokens msg ≢ []
      → All (λ t. peer_key t ≡ none) (tokens msg)
      → multicast_serialization_process msg len ip p ≡ fault undefined
  unfolding multicast_serialization_process deserialize_data
  multicast_serialization_process_no_keys msg len ip p pos some_token h =
      ground (arith, read_no_keys (tokens msg) ip p some_token h)
