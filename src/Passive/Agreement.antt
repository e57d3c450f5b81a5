-- ===== src/Passive/Agreement.antt =====
-- What the end of a handshake comes to, where the sealed session of its origin (src/net/authentication.c)
-- reaches the other peer's passive listener (src/net/passive.c).
use whisp.Prelude.{ℕ, ◌+◌, ◌<◌, ◌≡◌, refl, ◌∙◌, Option, none, some, length, arith}
use whisp.CString.{Bytes, CStr, sprintf, ℤ, pos}
use whisp.Outcome.{done, Slot, null, set}
use whisp.Btree.{BTree}
use whisp.Process.{
  RawPeer, Session, connected, Process, peer_tree_compare, session_tree_compare, state_of_int,
}
use whisp.Serialization.{okay}
use whisp.Serialization.Sessions.{Wire, session_frame, wire_args, deserialize_session_data}
use whisp.Encryption.{Crypto}
use whisp.SecureChannel.{secure_channel_listener_resolve_with_session}
use whisp.Authentication.{Draws, put_session}
use whisp.Authentication.Outgoing.{Named}
use whisp.Authentication.Steps.{write_same}
use whisp.Authentication.Secret.{keeps}
use whisp.Passive.{session_received, session_read, passive_listener_callback}

-- The id and the secret of a session that is read at `next`.
abbrev pub read_id : Wire → ℕ → CStr
read_id w next = record { at = next + 1 + 1; text = w.id }

abbrev pub read_secret : Wire → ℕ → CStr
read_secret w next = record { at = next + 1; text = w.secret }

abbrev pub read_origin : Wire → ℕ → CStr
read_origin w next = record { at = next + 1 + 1 + 1; text = w.origin }

pub connected-state_of_int : (z : ℤ) → z ≡ pos 6 → state_of_int z ≡ connected
unfolding state_of_int
connected-state_of_int z e = rw e refl

pub payload_pos : (w : Wire) → 0 < length (sprintf session_frame (wire_args w))
unfolding sprintf
payload_pos w = omega arith

-- The names do not depend on what else a process holds.
abbrev pub moved :
    (local foriegn : Slot ℕ) (id origin : Slot CStr) (peers later : ℕ → Option RawPeer)
    (configuration settings : Bytes → Option Bytes)
    → later ≡ peers
    → settings ≡ configuration
    → Named local foriegn id origin peers configuration
    → Named local foriegn id origin later settings
moved local foriegn id origin peers later configuration settings e c n = record {
  local_at = n.local_at;
  foriegn_at = n.foriegn_at;
  local_peer = n.local_peer;
  foriegn_peer = n.foriegn_peer;
  local_guid = n.local_guid;
  foriegn_guid = n.foriegn_guid;
  session_id = n.session_id;
  origin_guid = n.origin_guid;
  ip = n.ip;
  port = n.port;
  own = n.own;
  debug = n.debug;
  is_local = n.is_local;
  is_foriegn = n.is_foriegn;
  is_id = n.is_id;
  is_origin_guid = n.is_origin_guid;
  local_held = rw e n.local_held;
  foriegn_held = rw e n.foriegn_held;
  local_named = n.local_named;
  foriegn_named = n.foriegn_named;
  foriegn_ip = n.foriegn_ip;
  foriegn_port = n.foriegn_port;
  has_guid = rw c n.has_guid;
  has_debug = rw c n.has_debug;
}

-- The secret is what was decrypted: a text, or NULL.
abbrev pub Holds : Option Bytes → Slot CStr → Type 0
Holds none s = s ≡ null
Holds (some t) s = (key : CStr) × (s ≡ set key) × (key.text ≡ t)

module _ {P : BTree peer_tree_compare} {S : BTree session_tree_compare} where
  pub passive_listener_callback_ran :
      (C : Crypto) (msg : Bytes) (a : ℕ) (s : Session) (d : Draws) (p q : Process P S)
      → deserialize_session_data msg (length msg) p ≡ done (okay, some (a, s), q)
      → passive_listener_callback C msg (length msg) d p
        ≡ session_received C a d (put_session a s q)
  unfolding passive_listener_callback session_read
  passive_listener_callback_ran C msg a s d p q e = rw e refl

  -- A session at `a` that is connected under a secret, and listened for.
  pub record Agreed (a : ℕ) (secret : Bytes) (q : Process P S) : Type 0 where
    pub session : Session
    pub key : CStr
    pub at : q.sessions a ≡ some session
    pub in_state : session.current_state ≡ set connected
    pub shared : session.shared_secret ≡ set key
    pub is_secret : key.text ≡ secret
    pub last : q.last_session ≡ set a

  -- A session at `a` that is connected and listened for, with what was decrypted for its secret: a text,
  -- or NULL.
  pub record Ends (a : ℕ) (decrypted : Option Bytes) (q : Process P S) : Type 0 where
    pub session : Session
    pub at : q.sessions a ≡ some session
    pub in_state : session.current_state ≡ set connected
    pub shared : Holds decrypted session.shared_secret
    pub last : q.last_session ≡ set a

  -- The session's other peer is at `y`, and is where it was in the process before.
  pub record Addressed (y : ℕ) (s : Session) (p q : Process P S) : Type 0 where
    pub partner : s.foriegn_peer ≡ set y
    pub peers : q.peers ≡ p.peers
    pub configuration : q.configuration ≡ p.configuration

  pub moved_Addressed :
      (y : ℕ) (s : Session) (p z q : Process P S)
      → z.peers ≡ p.peers
      → z.configuration ≡ p.configuration
      → Addressed y s z q
      → Addressed y s p q
  moved_Addressed y s p z q e c h = record {
    partner = h.partner;
    peers = h.peers ∙ e;
    configuration = h.configuration ∙ c;
  }

  pub keeps-Ends :
      (a y : ℕ) (s : Session) (decrypted : Option Bytes) (p : Process P S)
      → s.current_state ≡ set connected
      → s.foriegn_peer ≡ set y
      → let q = secure_channel_listener_resolve_with_session a (keeps decrypted a s p) in
        (e : Ends a decrypted q) × Addressed y e.session p q
  unfolding secure_channel_listener_resolve_with_session
  keeps-Ends a y s none p c f = (
    record {
      session = record s { shared_secret = null };
      at = write_same p.sessions a _;
      in_state = c;
      shared = refl;
      last = refl;
    },
    record { partner = f; peers = refl; configuration = refl },
  )
  keeps-Ends a y s (some t) p c f = (
    record {
      session = record s { shared_secret = set (record { at = p.next; text = t }) };
      at = write_same p.sessions a _;
      in_state = c;
      shared = (record { at = p.next; text = t }, refl, refl);
      last = refl;
    },
    record { partner = f; peers = refl; configuration = refl },
  )

  pub keeps-sent :
      (a : ℕ) (s : Session) (decrypted : Option Bytes) (p : Process P S)
      → (secure_channel_listener_resolve_with_session a (keeps decrypted a s p)).sent ≡ p.sent
  unfolding secure_channel_listener_resolve_with_session
  keeps-sent a s none p = refl
  keeps-sent a s (some t) p = refl
