-- ===== src/Authentication/Secret.antt =====
-- How the two peers of a session come to its secret: the last two steps of
-- `authentication_session_update` of src/net/authentication.c.
use whisp.Prelude.{ℕ, ◌+◌, ◌≡◌, refl, Option, none, some, true, false, arith, length}
use whisp.CString.{Bytes, CStr, strcmp_eq}
use whisp.Outcome.{done, null, set}
use whisp.Btree.{BTree}
use whisp.Process.{
  Session, handshaking, connected, Process, peer_tree_compare, session_tree_compare,
}
use whisp.Serialization.Sessions.{show_slot}
use whisp.SessionControl.{session_generate_secret}
use whisp.Encryption.{Crypto, public, string_to_key, encrypt_message, decrypt_message}
use whisp.SecureChannel.{secure_channel_listener_resolve_with_session}
use whisp.Authentication.{
  Draws, put_session, on_handshaking, on_connected, authentication_session_update,
}
use whisp.Authentication.Outgoing.{
  IsShown, IsNamed, packet, Fits, outgoing, authentication_update_foriegn_session_lem,
}
use whisp.Authentication.Steps.{write_same, is_origin_lem, update_ran, kept}

module _ {P : BTree peer_tree_compare} {S : BTree session_tree_compare} where
  -- The session as it is sent: connected, with the encrypted secret.
  abbrev pub sealed : Bytes → Session → Process P S → Session
  sealed encrypted s p = record s {
    shared_secret = set (record { at = p.next + 1; text = encrypted });
    shared_secret_len = set (length encrypted);
    current_state = set connected;
  }

  -- The session as it is kept, with the plain secret.
  abbrev pub opened : Bytes → Bytes → Session → Process P S → Session
  opened secret encrypted s p = record (sealed encrypted s p) {
    shared_secret = set (record { at = p.next; text = secret });
  }

  abbrev pub sealed-IsShown :
      (encrypted local_text : Bytes) (theirs : CStr) (s : Session) (p : Process P S)
      → s.foriegn_public_key ≡ set theirs
      → show_slot s.local_public_key ≡ done local_text
      → IsShown (sealed encrypted s p)
  sealed-IsShown encrypted local_text theirs s p e l = record {
    secret_text = encrypted;
    local_text = local_text;
    foriegn_text = theirs.text;
    is_state = connected;
    is_len = length encrypted;
    shows_secret = refl;
    shows_local = l;
    shows_foriegn = rw e refl;
    in_state = refl;
    has_len = refl;
  }

  on_connected_mine :
      (C : Crypto) (a : ℕ) (s : Session) (k : CStr) (p : Process P S) (n : IsNamed s p)
      → strcmp_eq n.own n.origin_guid.text ≡ true
      → s.shared_secret ≡ set k
      → on_connected C a s p ≡ done (secure_channel_listener_resolve_with_session a p)
  unfolding on_connected
  on_connected_mine C a s k p n mine has = ground (arith, is_origin_lem s p n, mine, has, n.is_id)

  -- The peer that started a handshake and has the other's key: it draws a secret, sends the session
  -- with the secret under that key, as connected, and keeps the plain secret; its session is
  -- connected and is the one that the secure channel listens for.
  pub handshaking_lem :
      (C : Crypto) (a : ℕ) (s : Session) (d : Draws) (secret encrypted local_text : Bytes)
      (theirs : CStr) (p : Process P S) (n : IsNamed s p)
      → p.sessions a ≡ some s
      → s.current_state ≡ set handshaking
      → strcmp_eq n.own n.origin_guid.text ≡ true
      → (e : s.foriegn_public_key ≡ set theirs)
      → (l : show_slot s.local_public_key ≡ done local_text)
      → session_generate_secret d.r d.l d.n ≡ done secret
      → encrypt_message C (string_to_key C theirs.text public 0) secret d.elen
        ≡ done (some encrypted)
      → Fits (sealed encrypted s p) p n (sealed-IsShown encrypted local_text theirs s p e l)
      → authentication_session_update C a d p
        ≡ done (
          connected,
          secure_channel_listener_resolve_with_session a (
              put_session a (opened secret encrypted s p) (
                outgoing
                  (packet
                    (sealed encrypted s p)
                    p
                    n
                    (sealed-IsShown encrypted local_text theirs s p e l))
                  (kept a (sealed encrypted s p) (p.next + 1 + 1) p))),
        )
  unfolding on_handshaking secure_channel_listener_resolve_with_session
  handshaking_lem C a s d secret encrypted local_text theirs p n at in_state mine e l drawn enc
        fits =
      let s' = sealed encrypted s p in
      let s'' = opened secret encrypted s p in
      let h = sealed-IsShown encrypted local_text theirs s p e l in
      let q = kept a s' (p.next + 1 + 1) p in
      let r = put_session a s'' (outgoing (packet s' p n h) q) in
      let sends =
        authentication_update_foriegn_session_lem a s' q n h (write_same p.sessions a (some s'))
          fits in
      update_ran C a s s'' d handshaking connected p _ at in_state
        (ground (
          arith,
          drawn,
          e,
          enc,
          sends,
          on_connected_mine C a s'' (record { at = p.next; text = secret }) r n mine refl,
        ))
        (write_same q.sessions a (some s'')) refl

  -- The process that keeps what was decrypted, as a new text, or NULL.
  abbrev pub keeps : Option Bytes → ℕ → Session → Process P S → Process P S
  keeps none a s p = put_session a (record s { shared_secret = null }) p
  keeps (some t) a s p =
      kept a (record s { shared_secret = set (record { at = p.next; text = t }) }) (p.next + 1) p

  on_connected_theirs :
      (C : Crypto) (a : ℕ) (s : Session) (len : ℕ) (decrypted : Option Bytes) (p : Process P S)
      (n : IsNamed s p)
      → strcmp_eq n.own n.origin_guid.text ≡ false
      → s.shared_secret_len ≡ set len
      → decrypt_message C s.local_keypair s.shared_secret len ≡ done decrypted
      → on_connected C a s p
        ≡ done (secure_channel_listener_resolve_with_session a (keeps decrypted a s p))
  unfolding on_connected
  on_connected_theirs C a s len none p n theirs has ran =
      ground (arith, is_origin_lem s p n, theirs, has, ran, n.is_id)
  on_connected_theirs C a s len (some t) p n theirs has ran =
      ground (arith, is_origin_lem s p n, theirs, has, ran, n.is_id)

  -- The other peer, when the connected session reaches it: it keeps what its keypair decrypts of the
  -- secret, or NULL if that fails, and nothing of the encrypted text. The session stays connected and
  -- is the one that the secure channel listens for, in both cases, and nothing is sent.
  pub connected_lem :
      (C : Crypto) (a : ℕ) (s : Session) (d : Draws) (len : ℕ) (decrypted : Option Bytes)
      (p : Process P S) (n : IsNamed s p)
      → p.sessions a ≡ some s
      → s.current_state ≡ set connected
      → strcmp_eq n.own n.origin_guid.text ≡ false
      → s.shared_secret_len ≡ set len
      → decrypt_message C s.local_keypair s.shared_secret len ≡ done decrypted
      → authentication_session_update C a d p
        ≡ done (connected, secure_channel_listener_resolve_with_session a (keeps decrypted a s p))
  unfolding secure_channel_listener_resolve_with_session
  connected_lem C a s d len none p n at in_state theirs has ran =
      update_ran C a s (record s { shared_secret = null }) d connected connected p _ at in_state
        (on_connected_theirs C a s len none p n theirs has ran) (write_same p.sessions a _) in_state
  connected_lem C a s d len (some t) p n at in_state theirs has ran =
      update_ran C a s (record s { shared_secret = set (record { at = p.next; text = t }) }) d
        connected connected p _ at in_state
        (on_connected_theirs C a s len (some t) p n theirs has ran) (write_same p.sessions a _)
        in_state
