-- ===== src/Authentication.antt =====
-- src/net/authentication.c: the steps of the handshake that a session goes through.
pub mod Outgoing
pub mod Steps
pub mod Secret
pub mod Frame
pub mod Progress
use whisp.Prelude.{
  ℕ, ◌+◌, Bool, true, false, Option, none, some, List, [], ◌∷◌, length, if◌then◌else◌,
}
use whisp.CString.{Bytes, CStr, codes, strcmp_eq}
use whisp.Outcome.{
  Outcome, done, fault, undefined, jnx_check, Slot, unset, null, set, deref, is_pointer, ◌>>=◌,
  ◌>>◌,
}
use whisp.Btree.{BTree}
use whisp.Process.{
  State, closing, dormant, error, pre_handshake, public_key_exchange, handshaking, connected, other,
  Session, Process, Packet, peer_tree_compare, session_tree_compare, write, object,
}
use whisp.SessionControl.{session_generate_secret}
use whisp.Serialization.Sessions.{serialize_session_data}
use whisp.Encryption.{
  Crypto, public, encrypted_len, key_to_string, string_to_key, encrypt_message, decrypt_message,
}
use whisp.SecureChannel.{secure_channel_listener_resolve_with_session, host_of}

-- What one step draws or finds in memory: a new key, the byte behind its text, the names of the
-- secret, and the variable of `encrypt_message` that is never set.
pub record Draws : Type 0 where
  pub keypair : ℕ
  pub slack : ℕ
  pub r : ℕ
  pub l : ℕ
  pub n : ℕ
  pub elen : ℕ

module _ {P : BTree peer_tree_compare} {S : BTree session_tree_compare} where
  unfoldable pub authentication_get_progress : ℕ → Process P S → Outcome State
  authentication_get_progress a p = do s ← object (p.sessions a); deref s.current_state

  unfoldable pub authentication_update_foriegn_session : ℕ → Process P S → Outcome (Process P S)
  authentication_update_foriegn_session a p = do
    (buffer, len) ← serialize_session_data a p
    s ← object (p.sessions a)
    fa ← deref s.foriegn_peer
    f ← object (p.peers fa)
    host ← host_of f p
    port ← deref f.port
    done (record p { sent = record { host = host; port = port.text; payload = buffer } ∷ p.sent })

  -- `strcmp(jnx_hash_get(configuration,"GUID"), s->session_origin_guid) == 0`
  unfoldable pub is_origin : Session → Process P S → Outcome Bool
  is_origin s p = do
    own ← object (p.configuration (codes "GUID"))
    origin ← deref s.session_origin_guid
    done (strcmp_eq own origin.text)

  abbrev pub put_session : ℕ → Session → Process P S → Process P S
  put_session a s p = record p { sessions = write p.sessions a (some s) }

  -- A new text, at the next address.
  abbrev pub with_text : Bytes → Process P S → CStr × Process P S
  with_text t p = (record { at = p.next; text = t }, record p { next = p.next + 1 })

  -- A text or NULL, in a field.
  abbrev pub text_or_null : Option Bytes → Process P S → Slot CStr × Process P S
  text_or_null none p = (null, p)
  text_or_null (some t) p = (set (record { at = p.next; text = t }), record p { next = p.next + 1 })

  module _ (C : Crypto) where
    -- `case SESSION_PRE_HANDSHAKE`
    unfoldable pub on_pre_handshake : ℕ → Session → Draws → Process P S → Outcome (Process P S)
    on_pre_handshake a s d p = do
      let (key, q) = with_text (key_to_string C d.keypair public d.slack) p
      let s' : Session = record s {
        local_keypair = set d.keypair;
        local_public_key = set key;
        current_state = set public_key_exchange;
      }
      mine ← is_origin s' q
      elim mine [
        | true ↦ authentication_update_foriegn_session a (put_session a s' q)
        | false ↦ done (put_session a s' q)
      ]

    -- `case SESSION_PUBLIC_KEY_EXCHANGE`
    unfoldable pub on_public_key_exchange :
        ℕ → Session → Draws → Process P S → Outcome (Process P S)
    on_public_key_exchange a s d p = do
      let (key, q) = with_text (key_to_string C d.keypair public d.slack) p
      let s' : Session = record s {
        local_keypair = set d.keypair;
        foriegn_public_key = set key;
        current_state = set handshaking;
      }
      authentication_update_foriegn_session a (put_session a s' q)

    -- `case SESSION_CONNECTED`; the tests of pointers are the reads of the log.
    unfoldable pub on_connected : ℕ → Session → Process P S → Outcome (Process P S)
    on_connected a s p = do
      mine ← is_origin s p
      elim mine [
        | true ↦ do
          logged ← is_pointer s.shared_secret
          shown ← is_pointer s.session_id
          done (secure_channel_listener_resolve_with_session a p)
        | false ↦ do
          len ← deref s.shared_secret_len
          decrypted ← decrypt_message C s.local_keypair s.shared_secret len
          let (secret, q) = text_or_null decrypted p
          let s' : Session = record s { shared_secret = secret }
          shown ← is_pointer s.session_id
          done (secure_channel_listener_resolve_with_session a (put_session a s' q))
      ]

    -- `case SESSION_HANDSHAKING`: it sends the session with the encrypted secret, and enters
    -- `case SESSION_CONNECTED` with the plain one.
    unfoldable pub on_handshaking : ℕ → Session → Draws → Process P S → Outcome (Process P S)
    on_handshaking a s d p = do
      secret ← session_generate_secret d.r d.l d.n
      let (shared_key, q) = with_text secret p
      theirs ← deref s.foriegn_public_key
      let their_pubpair = string_to_key C theirs.text public 0
      encrypted ← encrypt_message C their_pubpair secret d.elen
      let (shared, r) = text_or_null encrypted q
      let s' : Session = record s {
        shared_secret = shared;
        shared_secret_len = set (encrypted_len C encrypted);
        current_state = set connected;
      }
      t ← authentication_update_foriegn_session a (put_session a s' r)
      let s'' : Session = record s' { shared_secret = set shared_key }
      on_connected a s'' (put_session a s'' t)

    abbrev pub on_state : State → ℕ → Session → Draws → Process P S → Outcome (Process P S)
    on_state pre_handshake a s d p = on_pre_handshake a s d p
    on_state public_key_exchange a s d p = on_public_key_exchange a s d p
    on_state handshaking a s d p = on_handshaking a s d p
    on_state connected a s d p = on_connected a s p
    on_state closing a s d p = done p
    on_state dormant a s d p = done p
    on_state error a s d p = done p
    on_state (other z) a s d p = done p

    -- The state at the end, and the process.
    unfoldable pub authentication_session_update :
        ℕ → Draws → Process P S → Outcome (State × Process P S)
    authentication_session_update a d p = do
      s ← object (p.sessions a)
      state ← deref s.current_state
      q ← on_state state a s d p
      s' ← object (q.sessions a)
      state' ← deref s'.current_state
      done (state', q)
