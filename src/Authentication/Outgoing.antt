-- ===== src/Authentication/Outgoing.antt =====
-- `authentication_update_foriegn_session` of src/net/authentication.c: what it sends.
use whisp.Prelude.{ℕ, ◌<◌, ◌≡◌, refl, Option, some, ◌∷◌, length, ltb-true, if◌then◌else◌, arith}
use whisp.CString.{Bytes, CStr, codes, strcmp_eq, sprintf, int32}
use whisp.Outcome.{done, Slot, set}
use whisp.Btree.{BTree}
use whisp.Process.{
  RawPeer, Session, State, Process, Packet, peer_tree_compare, session_tree_compare, int_of_state,
}
use whisp.Serialization.Sessions.{
  Wire, wire_args, session_frame, show_slot, wire_of, serialize_session_data,
}
use whisp.SecureChannel.{host_of}
use whisp.Authentication.{authentication_update_foriegn_session}

-- What a handshake reads and never changes: the two peers of a session, their texts, and what is
-- configured.
pub record Named (local foriegn : Slot ℕ) (id origin : Slot CStr) (peers : ℕ → Option RawPeer)
    (configuration : Bytes → Option Bytes) : Type 0 where
  pub local_at : ℕ
  pub foriegn_at : ℕ
  pub local_peer : RawPeer
  pub foriegn_peer : RawPeer
  pub local_guid : CStr
  pub foriegn_guid : CStr
  pub session_id : CStr
  pub origin_guid : CStr
  pub ip : CStr
  pub port : CStr
  pub own : Bytes
  pub debug : Bytes
  pub is_local : local ≡ set local_at
  pub is_foriegn : foriegn ≡ set foriegn_at
  pub is_id : id ≡ set session_id
  pub is_origin_guid : origin ≡ set origin_guid
  pub local_held : peers local_at ≡ some local_peer
  pub foriegn_held : peers foriegn_at ≡ some foriegn_peer
  pub local_named : local_peer.guid ≡ set local_guid
  pub foriegn_named : foriegn_peer.guid ≡ set foriegn_guid
  pub foriegn_ip : foriegn_peer.ip ≡ set ip
  pub foriegn_port : foriegn_peer.port ≡ set port
  pub has_guid : configuration (codes "GUID") ≡ some own
  pub has_debug : configuration (codes "DEBUG") ≡ some debug

-- What a handshake changes, as %s and %d print it.
pub record Shown (secret local_key foriegn_key : Slot CStr) (state : Slot State) (len : Slot ℕ)
    : Type 0 where
  pub secret_text : Bytes
  pub local_text : Bytes
  pub foriegn_text : Bytes
  pub is_state : State
  pub is_len : ℕ
  pub shows_secret : show_slot secret ≡ done secret_text
  pub shows_local : show_slot local_key ≡ done local_text
  pub shows_foriegn : show_slot foriegn_key ≡ done foriegn_text
  pub in_state : state ≡ set is_state
  pub has_len : len ≡ set is_len

abbrev pub IsShown : Session → Type 0
IsShown s =
    Shown s.shared_secret s.local_public_key s.foriegn_public_key s.current_state
      s.shared_secret_len

module _ {P : BTree peer_tree_compare} {S : BTree session_tree_compare} where
  abbrev pub IsNamed : Session → Process P S → Type 0
  IsNamed s p =
      Named s.local_peer s.foriegn_peer s.session_id s.session_origin_guid p.peers p.configuration

  abbrev pub wire : (s : Session) (p : Process P S) → IsNamed s p → IsShown s → Wire
  wire s p n h = record {
    local_guid = n.local_guid.text;
    foriegn_guid = n.foriegn_guid.text;
    secret = h.secret_text;
    state = int_of_state h.is_state;
    id = n.session_id.text;
    origin = n.origin_guid.text;
    local_key = h.local_text;
    foriegn_key = h.foriegn_text;
    secret_len = int32 h.is_len;
  }

  -- The packet with the session: to the foriegn peer, or to this host in a debugging run.
  abbrev pub packet : (s : Session) (p : Process P S) → IsNamed s p → IsShown s → Packet
  packet s p n h = record {
    host = if strcmp_eq n.debug (codes "YES") then codes "localhost" else n.ip.text;
    port = n.port.text;
    payload = sprintf session_frame (wire_args (wire s p n h));
  }

  abbrev pub Fits : (s : Session) (p : Process P S) → IsNamed s p → IsShown s → Type 0
  Fits s p n h = length (sprintf session_frame (wire_args (wire s p n h))) < 6000

  abbrev pub outgoing : Packet → Process P S → Process P S
  outgoing k p = record p { sent = k ∷ p.sent }

  wire_of_lem :
      (a : ℕ) (s : Session) (p : Process P S) (n : IsNamed s p) (h : IsShown s)
      → p.sessions a ≡ some s
      → wire_of a p ≡ done (wire s p n h)
  unfolding wire_of
  wire_of_lem a s p n h at =
      rw (at, n.is_local, n.local_held)
        (rw (n.is_foriegn, n.foriegn_held)
          (rw (n.local_named, n.foriegn_named)
            (rw (h.shows_secret, h.in_state, n.is_id)
              (rw (n.is_origin_guid, h.shows_local) (rw (h.shows_foriegn, h.has_len) refl)))))

  host_of_lem :
      (s : Session) (p : Process P S) (n : IsNamed s p)
      → host_of n.foriegn_peer p
        ≡ done (if strcmp_eq n.debug (codes "YES") then codes "localhost" else n.ip.text)
  unfolding host_of
  host_of_lem s p n = ground (arith, n.has_debug, n.foriegn_ip)

  -- One packet goes to the foriegn peer, with all of the session but its keypair, and nothing else
  -- changes, if the session's pointers are good and its text fits the buffer.
  pub authentication_update_foriegn_session_lem :
      (a : ℕ) (s : Session) (p : Process P S) (n : IsNamed s p) (h : IsShown s)
      → p.sessions a ≡ some s
      → Fits s p n h
      → authentication_update_foriegn_session a p ≡ done (outgoing (packet s p n h) p)
  unfolding authentication_update_foriegn_session serialize_session_data
  authentication_update_foriegn_session_lem a s p n h at fits = rw (wire_of_lem a s p n h at) (
      rw (ltb-true (length (sprintf session_frame (wire_args (wire s p n h)))) 6000 fits)
        (rw (at, n.is_foriegn, n.foriegn_held) (rw (host_of_lem s p n, n.foriegn_port) refl)))
