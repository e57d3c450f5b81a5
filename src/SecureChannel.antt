-- ===== src/SecureChannel.antt =====
-- src/net/secure_channel.c: messages under the secret of a connected session. `last_session` is part
-- of the state (Process.antt).
pub mod Channel
use whisp.Prelude.{ℕ, ◌==◌, Option, none, some, List, [], ◌∷◌, true, false, if◌then◌else◌}
use whisp.CString.{Bytes, codes, strcmp_eq}
use whisp.Outcome.{Outcome, done, fault, undefined, Slot, unset, null, set, deref, ◌>>=◌}
use whisp.Btree.{BTree}
use whisp.Process.{
  Process, Packet, RawPeer, Session, State, connected, is_connected, peer_tree_compare,
  session_tree_compare, object,
}
use whisp.Encryption.{up_to_nul}
use whisp.Des.{Cipher, des_encrypt, des_decrypt}

-- What %s prints of a buffer: the text up to its NUL. Without one the read goes on behind the buffer.
unfoldable pub show_buffer : Bytes → Outcome Bytes
show_buffer [] = fault undefined
show_buffer (c ∷ s) =
    let rest = show_buffer s in if c == 0 then done [] else (rest >>= λ t. done (c ∷ t))

module _ {P : BTree peer_tree_compare} {S : BTree session_tree_compare} where
  unfoldable pub secure_channel_listener_resolve_with_session : ℕ → Process P S → Process P S
  secure_channel_listener_resolve_with_session a p = record p { last_session = set a }

  -- The host that a packet for a peer goes to: the peer's address, unless this is a debugging run.
  unfoldable pub host_of : RawPeer → Process P S → Outcome Bytes
  host_of peer p = do
    debug ← object (p.configuration (codes "DEBUG"))
    elim (strcmp_eq debug (codes "YES")) [
      | true ↦ done (codes "localhost")
      | false ↦ do ip ← deref peer.ip; done ip.text
    ]

  module _ (D : Cipher) where
    -- The state behind `if(s->current_state != SESSION_CONNECTED)`. In the first case -1 is returned
    -- and nothing is sent; in the second no value is returned, and the text with the message is sent.
    unfoldable pub send_in : State → Session → Bytes → Process P S → Outcome (Process P S)
    send_in connected s message p = do
      secret ← deref s.shared_secret
      buffer ← des_encrypt D secret.text message
      fa ← deref s.foriegn_peer
      f ← object (p.peers fa)
      host ← host_of f p
      port ← deref f.secure_port
      done (record p {
        sent = record { host = host; port = port.text; payload = up_to_nul buffer } ∷ p.sent;
      })
    send_in _ s message p = done p

    -- `message` is the `msg_len` bytes of the message. The static `configuration` is the one of the
    -- program once `secure_channel_setup` ran.
    unfoldable pub secure_channel_send : ℕ → Bytes → Process P S → Outcome (Process P S)
    unfolding send_in
    secure_channel_send a message p = do
      s ← object (p.sessions a)
      state ← deref s.current_state
      send_in state s message p

    -- What is shown on the terminal, if anything: the text in the buffer that `des_decrypt` returns. A
    -- secret that is NULL is read for its eight bytes.
    unfoldable pub shown_for : Slot ℕ → Bytes → (ℕ → ℕ) → Process P S → Outcome (Option Bytes)
    unfolding show_buffer
    shown_for unset msg beyond p = fault undefined
    shown_for null msg beyond p = done none
    shown_for (set a) msg beyond p = do
      s ← object (p.sessions a)
      state ← deref s.current_state
      elim (is_connected state) [
        | true ↦ do
          secret ← deref s.shared_secret
          buffer ← des_decrypt D secret.text msg beyond
          show_buffer buffer >>= λ t. done (some t)
        | false ↦ done none
      ]

    unfoldable pub secure_listener_callback : Bytes → (ℕ → ℕ) → Process P S → Outcome (Option Bytes)
    unfolding shown_for
    secure_listener_callback msg beyond p = shown_for p.last_session msg beyond p
