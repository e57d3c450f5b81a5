-- ===== src/Discovery.antt =====
-- src/net/discovery.c: the pulse that announces this peer, and what a received pulse does. Each
-- runs as one step; the thread that receives a datagram starts one thread for each.
pub mod Known
pub mod Upsert
pub mod Pulse
pub mod Beacon
use whisp.Prelude.{ℕ, zero, suc, Option, none, some, List, [], ◌∷◌}
use whisp.CString.{Bytes, CStr, codes}
use whisp.Outcome.{
  Outcome, done, fault, check_failed, jnx_check, Slot, deref, is_pointer, ◌>>=◌, ◌>>◌,
}
use whisp.Btree.{BTree}
use whisp.Process.{RawPeer, Process, Packet, peer_tree_compare, session_tree_compare, write}
use whisp.Peerstore.{peerstore_check_peer, peerstore_add_peer, peerstore_update_peer}
use whisp.Serialization.{STypes, okay, PeerResult, serialize_data, deserialize_data}

-- `JNXCHECK` of a pointer.
abbrev pub check_pointer {ℓ} : {A : Type ℓ} → Slot A → Outcome (Unit {0})
check_pointer s = is_pointer s >>= jnx_check

module _ {P : BTree peer_tree_compare} {S : BTree session_tree_compare} where
  -- `if(peerstore_check_peer(...) == 0)`: the peer at `a` is added, or what the store holds is
  -- updated from it and its struct is freed.
  unfoldable pub keep_peer : ℕ → (ℕ × Slot ℕ) × Process P S → Outcome (Process P S)
  keep_peer a ((zero, handle), p) = do (n, q) ← peerstore_add_peer a p; done q
  keep_peer a ((suc found, handle), p) = do
    h ← deref handle
    q ← peerstore_update_peer a h p
    done (record q { peers = write q.peers a none })

  -- `case S_OKAY`: the new peer is at `a`.
  unfoldable pub peer_received : ℕ → RawPeer → Process P S → Outcome (Process P S)
  unfolding keep_peer
  peer_received a rp p = do
    check_pointer rp.guid
    check_pointer rp.command
    check_pointer rp.ip
    check_pointer rp.port
    guid ← deref rp.guid
    r ← peerstore_check_peer guid.text p
    keep_peer a r

  -- The branches on the result of `deserialize_data`; all but one only log.
  unfoldable pub message_read : PeerResult → Process P S → Outcome (Process P S)
  unfolding peer_received
  message_read (okay, none, next) p = fault check_failed
  message_read (okay, some (a, rp), next) p =
      peer_received a rp (record p { peers = write p.peers a (some rp); next = next })
  message_read (_, peer, next) p = done (record p { next = next })

  unfoldable pub multicast_serialization_process :
      Bytes → ℕ → CStr → Process P S → Outcome (Process P S)
  unfolding message_read
  multicast_serialization_process msg len ip p = do
    r ← deserialize_data msg len ip p.next
    message_read r p

  -- What the listener does with a datagram from `ipaddress`: the thread that it starts runs to its end.
  unfoldable pub multicast_listener : Bytes → ℕ → Slot CStr → Process P S → Outcome (Process P S)
  unfolding multicast_serialization_process
  multicast_listener msg len ipaddress p = do
    check_pointer ipaddress
    ip ← deref ipaddress
    multicast_serialization_process msg len ip p

  -- `bgroup` and `port` are those of `multicast_send_thrdata`.
  unfoldable pub multicast_pulse : Bytes → Bytes → Process P S → Outcome (Process P S)
  multicast_pulse bgroup port p = do
    (buffer, len) ←
        serialize_data (p.configuration (codes "GUID")) (some (codes "PULSE"))
          (p.configuration (codes "TPORT")) (p.configuration (codes "SECUREPORT"))
          (some (codes "PEER-NULL"))
    done (record p { sent = record { host = bgroup; port = port; payload = buffer } ∷ p.sent })
