-- ===== src/Passive/Endings.antt =====
-- The last packet of a handshake: `passive_listener_callback` (src/net/passive.c) of the peer that did not
-- start it.
use whisp.Prelude.{ℕ, ◌+◌, ◌≡◌, refl, ap, ◌∙◌, false, Option, some, length, arith}
use whisp.CString.{Bytes, CStr, strcmp_eq, sprintf, pos}
use whisp.Outcome.{Outcome, done, Slot, set, ◌>>=◌}
use whisp.Btree.{BTree}
use whisp.Process.{
  Session, State, connected, Process, peer_tree_compare, session_tree_compare, size_of_int,
}
use whisp.SessionControl.View.{SessionsAreValid}
use whisp.Serialization.Sessions.{Wire, session_frame, wire_args}
use whisp.Serialization.Sessions.RoundTrip.{
  IsSendable, NamesBoth, Knows, read_session, after_read, deserialize_session_data-wire,
}
use whisp.Encryption.{Crypto, decrypt_message}
use whisp.SecureChannel.{secure_channel_listener_resolve_with_session}
use whisp.Authentication.{Draws}
use whisp.Authentication.Outgoing.{Named}
use whisp.Authentication.Secret.{keeps, connected_lem}
use whisp.Passive.{passive_listener_callback}
use whisp.Passive.Place.{Arrives}
use whisp.Passive.Replace.{session_received_known}
use whisp.Passive.Adopt.{adopted, Replaces}
use whisp.Passive.Agreement.{
  Addressed, Ends, connected-state_of_int, keeps-Ends, keeps-sent, moved, moved_Addressed,
  passive_listener_callback_ran, payload_pos, read_id, read_origin, read_secret,
}

module _ {P : BTree peer_tree_compare} {S : BTree session_tree_compare} where
  -- The other peer of a session, whose own session waits for the secret under the same id with its
  -- keypair: from the message of the origin it comes to a connected session with what its keypair
  -- decrypts of the secret, which is NULL where that fails, it listens for that session, and it sends
  -- nothing more.
  pub passive_listener_callback-Ends :
      (C : Crypto) (w : Wire) (own other : Bytes) (x y o keypair : ℕ) (old : Session) (j : CStr)
      (d : Draws) (decrypted : Option Bytes) (p : Process P S)
      (n : Named
        (set x)
        (set y)
        (set (read_id w p.next))
        (set (read_origin w p.next))
        p.peers
        p.configuration)
      → SessionsAreValid p
      → IsSendable w
      → Knows own other x y p
      → NamesBoth own other w
      → w.state ≡ pos 6
      → Replaces o old j (read_id w p.next) p
      → old.local_keypair ≡ set keypair
      → strcmp_eq n.own n.origin_guid.text ≡ false
      → decrypt_message C (set keypair) (set (read_secret w p.next)) (size_of_int w.secret_len)
        ≡ done decrypted
      → (q : Process P S) × (passive_listener_callback C
            (sprintf session_frame (wire_args w))
            (length (sprintf session_frame (wire_args w)))
            d
            p
          ≡ done q)
        × ((e : Ends p.next decrypted q) × Addressed y e.session p q)
        × (q.sent ≡ p.sent)
  passive_listener_callback-Ends C w own other x y o keypair old j d decrypted p n v sendable knows
        names state h has theirs opens =
      let a = p.next in
      let s = read_session w x y (a + 1) in
      let s' : Session = record s { local_keypair = set keypair } in
      let later = a + 1 + 1 + 1 + 1 + 1 + 1 in
      let msg = sprintf session_frame (wire_args w) in
      let in_state : s.current_state ≡ set connected =
        ap (λ (m : State). set m) (connected-state_of_int w.state state) in
      let arrives : Arrives a s (read_id w a) later p = record {
        state = connected;
        named = refl;
        in_state = in_state;
        fresh = omega arith;
        key_fresh = omega arith;
        below = omega arith;
        key_below = omega arith;
      } in
      let read =
        deserialize_session_data-wire own other x y w (length msg) p sendable (payload_pos w) knows
          names in
      let (z, ran, placed, freed) =
        session_received_known C o a old s j (read_id w a) later d p v arrives h in
      let at : z.sessions a ≡ some s' =
        placed.session_after ∙ ap (λ (k : Slot ℕ). some (adopted k s)) has in
      let n' : Named (set x) (set y) (set (read_id w a)) (set (read_origin w a)) z.peers
          z.configuration =
        moved (set x) (set y) (set (read_id w a)) (set (read_origin w a)) p.peers z.peers
          p.configuration z.configuration placed.peers_after placed.configuration_after n in
      let stepped =
        connected_lem C a s' d (size_of_int w.secret_len) decrypted z n' at in_state theirs refl
          opens in
      let q = secure_channel_listener_resolve_with_session a (keeps decrypted a s' z) in
      let (ends, addressed) = keeps-Ends a y s' decrypted z in_state refl in
      (
        q,
        passive_listener_callback_ran C msg a s d p (after_read p) read
            ∙ ran
            ∙ ap (λ (m : Outcome (State × Process P S)). m >>= λ r. done r.1) stepped,
        (
          ends,
          moved_Addressed y ends.session p z q placed.peers_after placed.configuration_after
              addressed,
        ),
        keeps-sent a s' decrypted z ∙ placed.sent_after,
      )
