-- ===== src/UserInput/Conversation.antt =====
-- The three packets of a handshake between two processes, from `user_start_session` (src/app/userinput.c)
-- of one over `passive_listener_callback` (src/net/passive.c) of the other and of the first, and what the
-- two processes must be like.
pub mod Steps
pub mod Whole
use whisp.Prelude.{
  ℕ, ◌+◌, ◌≡◌, ◌≢◌, refl, sym, ap, ◌∙◌, true, false, Option, none, some, List, ◌∷◌, length,
}
use whisp.CString.{Bytes, CStr, pos, strcmp_eq, sprintf, int32}
use whisp.Outcome.{done, Slot, unset, set}
use whisp.Btree.{BTree}
use whisp.Process.{RawPeer, Process, Packet, peer_tree_compare, session_tree_compare, size_of_int}
use whisp.SessionControl.{session_generate_secret}
use whisp.SessionControl.View.{SessionsAreValid, session_at}
use whisp.Serialization.Sessions.{Wire, session_frame, wire_args}
use whisp.Serialization.Sessions.RoundTrip.{IsSendable, NamesBoth, Knows, Knows-SamePeers}
use whisp.Encryption.{
  Crypto, public, key_to_string, string_to_key, encrypt_message, decrypt_message,
}
use whisp.Authentication.{Draws}
use whisp.Authentication.Outgoing.{Named, wire, packet, Fits}
use whisp.Passive.{passive_listener_callback}
use whisp.Passive.Adopt.{Stands-Replaces}
use whisp.Passive.Agreement.{read_id, read_origin, moved, Agreed}
use whisp.Passive.Answer.{Answered, answer, answer-IsShown, passive_listener_callback-Answered}
use whisp.Passive.Sealing.{Sealed, seal, seal-IsShown, passive_listener_callback-Sealed}
use whisp.UserInput.{user_start_session}
use whisp.UserInput.Start.{fresh_id}
use whisp.UserInput.Start.Offer.{
  CanStart, Started, offer, offer-IsShown, user_start_session-Started,
}

-- The same two peers, under copies of the id and of the origin's GUID.
abbrev pub renamed :
    {local foriegn : Slot ℕ} {id origin : Slot CStr} {peers : ℕ → Option RawPeer}
    {configuration : Bytes → Option Bytes}
    → (j k : CStr) → Named local foriegn id origin peers configuration
    → Named local foriegn (set j) (set k) peers configuration
renamed j k n = record {
  local_at = n.local_at;
  foriegn_at = n.foriegn_at;
  local_peer = n.local_peer;
  foriegn_peer = n.foriegn_peer;
  local_guid = n.local_guid;
  foriegn_guid = n.foriegn_guid;
  session_id = j;
  origin_guid = k;
  ip = n.ip;
  port = n.port;
  own = n.own;
  debug = n.debug;
  is_local = n.is_local;
  is_foriegn = n.is_foriegn;
  is_id = refl;
  is_origin_guid = refl;
  local_held = n.local_held;
  foriegn_held = n.foriegn_held;
  local_named = n.local_named;
  foriegn_named = n.foriegn_named;
  foriegn_ip = n.foriegn_ip;
  foriegn_port = n.foriegn_port;
  has_guid = n.has_guid;
  has_debug = n.has_debug;
}

written : (s : Slot ℕ) (k : ℕ) → s ≡ set k → s ≢ unset
written s k e = cc

set-text : (j k : CStr) → set j ≡ set k → j.text ≡ k.text
set-text j k e = cc

module _ {P : BTree peer_tree_compare} {S : BTree session_tree_compare} where
  -- The first message, which the peer that starts the session sends.
  abbrev pub first_wire :
      (C : Crypto) (d : Draws) (guid : Bytes) (uuid : List ℕ) (p : Process P S)
      → CanStart guid uuid p
      → Wire
  first_wire C d guid uuid p h =
      wire (offer C d guid uuid p h) p h.names (offer-IsShown C d guid uuid p h)

  -- A process that this message can reach: it knows both peers and has no session with the id.
  pub record CanAnswer (w : Wire) (q : Process P S) : Type 0 where
    pub own : Bytes
    pub other : Bytes
    pub own_at : ℕ
    pub other_at : ℕ
    pub names :
        Named
          (set own_at)
          (set other_at)
          (set (read_id w q.next))
          (set (read_origin w q.next))
          q.peers
          q.configuration
    pub sessions : SessionsAreValid q
    pub knows : Knows own other own_at other_at q
    pub both : NamesBoth own other w
    pub new : session_at q w.id ≡ none
    pub theirs : strcmp_eq names.own names.origin_guid.text ≡ false

  -- The answer.
  abbrev pub second_wire :
      (C : Crypto) (e : Draws) (w : Wire) (q : Process P S) → CanAnswer w q → Wire
  second_wire C e w q b =
      wire (answer C w b.own_at b.other_at e q) q b.names
        (answer-IsShown C w b.own_at b.other_at (q.next + 1) e q)

  -- The message with the secret, in answer to `w`.
  abbrev pub third_wire :
      (d : Draws) (guid : Bytes) (uuid : List ℕ) (encrypted : Bytes) (w : Wire) (p : Process P S)
      → CanStart guid uuid p
      → Wire
  third_wire d guid uuid encrypted w p h =
      wire (seal w h.local h.foriegn d.keypair encrypted p) p
        (renamed (read_id w p.next) (read_origin w p.next) h.names)
        (seal-IsShown w h.local h.foriegn (p.next + 1) d.keypair encrypted p)

  -- The three messages: their texts are words and fit the buffer.
  pub record Letters (C : Crypto) (d e : Draws) (guid : Bytes) (uuid : List ℕ) (encrypted : Bytes)
      (p q : Process P S) (h : CanStart guid uuid p)
      (b : CanAnswer (first_wire C d guid uuid p h) q) : Type 0 where
    pub first_fits : Fits (offer C d guid uuid p h) p h.names (offer-IsShown C d guid uuid p h)
    pub first_words : IsSendable (first_wire C d guid uuid p h)
    pub second_fits :
        Fits
          (answer C (first_wire C d guid uuid p h) b.own_at b.other_at e q)
          q
          b.names
          (answer-IsShown C (first_wire C d guid uuid p h) b.own_at b.other_at (q.next + 1) e q)
    pub second_words : IsSendable (second_wire C e (first_wire C d guid uuid p h) q b)
    pub third_fits :
        let v = second_wire C e (first_wire C d guid uuid p h) q b in
        Fits
          (seal v h.local h.foriegn d.keypair encrypted p)
          p
          (renamed (read_id v p.next) (read_origin v p.next) h.names)
          (seal-IsShown v h.local h.foriegn (p.next + 1) d.keypair encrypted p)
    pub third_words :
        IsSendable (
          third_wire d guid uuid encrypted (second_wire C e (first_wire C d guid uuid p h) q b) p h)
