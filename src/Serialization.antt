-- ===== src/Serialization.antt =====
-- src/data/serialization.c, the messages of discovery: `serialize_data` and `deserialize_data`.
-- (Serialization/Sessions.antt has those of a session.)
pub mod Peers
pub mod Sessions
use whisp.Prelude.{
  ℕ, ◌+◌, ◌==◌, true, false, not, Option, none, some, List, [], ◌∷◌, length, ltb, if◌then◌else◌,
}
use whisp.CString.{Bytes, CStr, codes, strcmp_eq, tokens, sprintf}
use whisp.Outcome.{
  Outcome, done, fault, undefined, jnx_check, Slot, unset, set, free_slot, ◌>>=◌, ◌>>◌,
}
use whisp.Process.{RawPeer}

-- `S_TYPES`
pub data STypes : Type 0 where
  okay general_error unknown malformed : STypes

-- What %s prints: glibc writes "(null)" for NULL.
abbrev pub show_str : Option Bytes → Bytes
show_str none = codes "(null)"
show_str (some s) = s

abbrev pub data_frame : Bytes
data_frame = codes "GUID:%s:COMMAND:%s:TPORT:%s:SECUREPORT:%s:PEERAGE:%s:"

-- `char buffer[1024]`: a longer text overflows it. The result is `*outbuffer` and its length.
unfoldable pub serialize_data :
    Option Bytes → Option Bytes → Option Bytes → Option Bytes → Option Bytes → Outcome (Bytes × ℕ)
serialize_data guid command port secure_port peerage =
    let buffer = sprintf data_frame (
      show_str guid
      ∷ show_str command
      ∷ show_str port
      ∷ show_str secure_port
      ∷ show_str peerage
      ∷ []) in
    if ltb (length buffer) 1024
    then (do jnx_check (not (length buffer == 0)); done (buffer, length buffer))
    else fault undefined

-- The keys of a peer's fields, in the order of the tests.
pub data PeerKey : Type 0 where
  guid_key command_key port_key secureport_key peerage_key : PeerKey

-- The `if(strcmp(t, ..._KEY) == 0)` that the token passes. The keys differ, so it is one at most.
unfoldable pub peer_key : Bytes → Option PeerKey
peer_key t =
    if strcmp_eq t (codes "GUID")
    then some guid_key
    else if strcmp_eq t (codes "COMMAND")
    then some command_key
    else if strcmp_eq t (codes "TPORT")
    then some port_key
    else if strcmp_eq t (codes "SECUREPORT")
    then some secureport_key
    else if strcmp_eq t (codes "PEERAGE")
    then some peerage_key
    else none

-- `(*outpeer)->... = strdup(value)`
unfoldable pub set_peer_field : PeerKey → CStr → RawPeer → RawPeer
set_peer_field guid_key s rp = record rp { guid = set s }
set_peer_field command_key s rp = record rp { command = set s }
set_peer_field port_key s rp = record rp { port = set s }
set_peer_field secureport_key s rp = record rp { secure_port = set s }
set_peer_field peerage_key s rp = record rp { peerstring = set s }

-- What is freed where the key has no value behind it.
unfoldable pub free_peer_fields : PeerKey → RawPeer → Outcome (Unit {0})
free_peer_fields guid_key rp = done tt
free_peer_fields command_key rp = free_slot rp.guid
free_peer_fields port_key rp = do free_slot rp.guid; free_slot rp.command
free_peer_fields secureport_key rp = do free_slot rp.guid; free_slot rp.command; free_slot rp.port
free_peer_fields peerage_key rp = do free_slot rp.guid; free_slot rp.command; free_slot rp.port

-- `malloc(sizeof(raw_peer))`
abbrev pub fresh_peer : RawPeer
fresh_peer = record {
  guid = unset;
  command = unset;
  ip = unset;
  port = unset;
  secure_port = unset;
  peerstring = unset;
}

-- The result, `*outpeer` where it was set (its address and what is there), and the next address.
abbrev pub PeerResult : Type 0
PeerResult = STypes × Option (ℕ × RawPeer) × ℕ

-- The `while` loop over the tokens; a key takes the token behind it. `at` is the address of the
-- peer, and `next` that of the next `strdup`.
unfoldable pub peer_loop : List Bytes → CStr → ℕ → RawPeer → ℕ → Outcome PeerResult
unfolding free_peer_fields set_peer_field
peer_loop [] ip at rp next = done (okay, some (at, rp), next)
peer_loop (t ∷ []) ip at rp next = elim (peer_key t) [
  | none ↦ done (okay, some (at, record rp { ip = set ip }), next)
  | some k ↦ do free_peer_fields k rp; done (malformed, none, next)
]
peer_loop (t ∷ value ∷ ts) ip at rp next = elim (peer_key t) [
  | none ↦ peer_loop (value ∷ ts) ip at (record rp { ip = set ip }) next
  | some k ↦
      let s : CStr = record { at = next; text = value } in
      peer_loop ts ip at (record (set_peer_field k s rp) { ip = set ip }) (next + 1)
]

abbrev pub read_peer : List Bytes → CStr → ℕ → Outcome PeerResult
read_peer [] ip next = done (unknown, none, next)
read_peer (t ∷ ts) ip next = peer_loop (t ∷ ts) ip next fresh_peer (next + 1)

unfoldable pub deserialize_data : Bytes → ℕ → CStr → ℕ → Outcome PeerResult
deserialize_data raw_message raw_message_len ip next =
    if raw_message_len == 0
    then done (malformed, none, next)
    else read_peer (tokens raw_message) ip next
