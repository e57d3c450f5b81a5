-- ===== src/Passive/Sealing.antt =====
-- The middle of a handshake: the answer of the other peer reaches the passive listener (src/net/passive.c)
-- of the peer that started it, which draws the secret and sends it.
use whisp.Prelude.{ℕ, ◌+◌, ◌≡◌, refl, ap, ◌∙◌, true, some, ◌∷◌, length, arith}
use whisp.CString.{Bytes, CStr, strcmp_eq, sprintf, ℤ, pos}
use whisp.Outcome.{Outcome, done, Slot, set, ◌>>=◌}
use whisp.Btree.{BTree}
use whisp.Process.{
  Session, State, handshaking, Process, Packet, peer_tree_compare, session_tree_compare,
  state_of_int,
}
use whisp.SessionControl.{session_generate_secret}
use whisp.SessionControl.View.{SessionsAreValid}
use whisp.Serialization.Sessions.{Wire, session_frame, wire_args}
use whisp.Serialization.Sessions.RoundTrip.{
  IsSendable, NamesBoth, Knows, read_session, after_read, deserialize_session_data-wire,
}
use whisp.Encryption.{Crypto, public, string_to_key, encrypt_message}
use whisp.SecureChannel.{secure_channel_listener_resolve_with_session}
use whisp.Authentication.{Draws, put_session}
use whisp.Authentication.Outgoing.{Named, IsShown, packet, Fits, outgoing}
use whisp.Authentication.Steps.{write_same, kept}
use whisp.Authentication.Secret.{sealed, opened, sealed-IsShown, handshaking_lem}
use whisp.Passive.{passive_listener_callback}
use whisp.Passive.Place.{Arrives}
use whisp.Passive.Replace.{session_received_known}
use whisp.Passive.Adopt.{adopted, Replaces}
use whisp.Passive.Agreement.{
  read_id, read_origin, moved, payload_pos, passive_listener_callback_ran, Agreed, Addressed,
  moved_Addressed,
}

handshaking-state_of_int : (z : ℤ) → z ≡ pos 5 → state_of_int z ≡ handshaking
unfolding state_of_int
handshaking-state_of_int z e = rw e refl

-- The session that was read, with the keypair of the one that it replaces.
abbrev pub with_own_key : Wire → ℕ → ℕ → ℕ → ℕ → Session
with_own_key w x y at keypair = record (read_session w x y at) { local_keypair = set keypair }

module _ {P : BTree peer_tree_compare} {S : BTree session_tree_compare} where
  abbrev pub seal : Wire → ℕ → ℕ → ℕ → Bytes → Process P S → Session
  seal w x y keypair encrypted p = sealed encrypted (with_own_key w x y (p.next + 1) keypair) p

  abbrev pub seal-IsShown :
      (w : Wire) (x y at keypair : ℕ) (encrypted : Bytes) (p : Process P S)
      → IsShown (sealed encrypted (with_own_key w x y at keypair) p)
  seal-IsShown w x y at keypair encrypted p =
      sealed-IsShown encrypted w.local_key
        (record { at = at + 1 + 1 + 1 + 1; text = w.foriegn_key }) (with_own_key w x y at keypair) p
        refl refl

  -- The peer that started a handshake, after it sent the secret.
  pub record Sealed (C : Crypto) (w : Wire) (d : Draws) (y : ℕ) (secret : Bytes) (letter : Packet)
      (p : Process P S) : Type 0 where
    pub after : Process P S
    pub ran :
        passive_listener_callback C
          (sprintf session_frame (wire_args w))
          (length (sprintf session_frame (wire_args w)))
          d
          p
        ≡ done after
    pub agreed : Agreed p.next secret after
    pub addressed : Addressed y agreed.session p after
    pub sent : after.sent ≡ letter ∷ p.sent

  opened-Agreed :
      (a y : ℕ) (s : Session) (secret encrypted : Bytes) (p q : Process P S)
      → s.foriegn_peer ≡ set y
      → let r =
          secure_channel_listener_resolve_with_session a
            (put_session a (opened secret encrypted s p) q) in
        (e : Agreed a secret r) × Addressed y e.session q r
  unfolding secure_channel_listener_resolve_with_session
  opened-Agreed a y s secret encrypted p q f = (
    record {
      session = opened secret encrypted s p;
      key = record { at = p.next; text = secret };
      at = write_same q.sessions a _;
      in_state = refl;
      shared = refl;
      is_secret = refl;
      last = refl;
    },
    record { partner = f; peers = refl; configuration = refl },
  )

  opened-sent :
      (a : ℕ) (s : Session) (letter : Packet) (later : ℕ) (s' : Session) (p : Process P S)
      → (secure_channel_listener_resolve_with_session a
          (put_session a s (outgoing letter (kept a s' later p)))).sent
        ≡ letter ∷ p.sent
  unfolding secure_channel_listener_resolve_with_session
  opened-sent a s letter later s' p = refl

  -- The peer that started a handshake gets the answer, under the id of a session of its own: it keeps its
  -- keypair, sends the secret that it draws under the key of the answer, and is connected under it.
  pub passive_listener_callback-Sealed :
      (C : Crypto) (w : Wire) (own other : Bytes) (x y o keypair : ℕ) (old : Session) (j : CStr)
      (d : Draws) (secret encrypted : Bytes) (p : Process P S)
      (n : Named
        (set x)
        (set y)
        (set (read_id w p.next))
        (set (read_origin w p.next))
        p.peers
        p.configuration)
      → SessionsAreValid p
      → IsSendable w
      → Knows own other x y p
      → NamesBoth own other w
      → w.state ≡ pos 5
      → Replaces o old j (read_id w p.next) p
      → old.local_keypair ≡ set keypair
      → strcmp_eq n.own n.origin_guid.text ≡ true
      → session_generate_secret d.r d.l d.n ≡ done secret
      → encrypt_message C (string_to_key C w.foriegn_key public 0) secret d.elen
        ≡ done (some encrypted)
      → Fits
          (seal w x y keypair encrypted p)
          p
          n
          (seal-IsShown w x y (p.next + 1) keypair encrypted p)
      → Sealed C w d y secret
          (packet
            (seal w x y keypair encrypted p)
            p
            n
            (seal-IsShown w x y (p.next + 1) keypair encrypted p))
          p
  passive_listener_callback-Sealed C w own other x y o keypair old j d secret encrypted p n v
        sendable knows names state h has mine drawn enc fits =
      let a = p.next in
      let s = read_session w x y (a + 1) in
      let s' = with_own_key w x y (a + 1) keypair in
      let later = a + 1 + 1 + 1 + 1 + 1 + 1 in
      let msg = sprintf session_frame (wire_args w) in
      let in_state : s.current_state ≡ set handshaking =
        ap (λ (m : State). set m) (handshaking-state_of_int w.state state) in
      let arrives : Arrives a s (read_id w a) later p = record {
        state = handshaking;
        named = refl;
        in_state = in_state;
        fresh = omega arith;
        key_fresh = omega arith;
        below = omega arith;
        key_below = omega arith;
      } in
      let read =
        deserialize_session_data-wire own other x y w (length msg) p sendable (payload_pos w) knows
          names in
      let (z, ran, placed, freed) =
        session_received_known C o a old s j (read_id w a) later d p v arrives h in
      let at : z.sessions a ≡ some s' =
        placed.session_after ∙ ap (λ (k : Slot ℕ). some (adopted k s)) has in
      let n' : Named (set x) (set y) (set (read_id w a)) (set (read_origin w a)) z.peers
          z.configuration =
        moved (set x) (set y) (set (read_id w a)) (set (read_origin w a)) p.peers z.peers
          p.configuration z.configuration placed.peers_after placed.configuration_after n in
      let theirs : CStr = record { at = a + 1 + 1 + 1 + 1 + 1; text = w.foriegn_key } in
      let stepped =
        handshaking_lem C a s' d secret encrypted w.local_key theirs z n' at in_state mine refl refl
          drawn enc fits in
      let letter =
        packet (sealed encrypted s' z) z n' (seal-IsShown w x y (a + 1) keypair encrypted z) in
      let sends = outgoing letter (kept a (sealed encrypted s' z) (z.next + 1 + 1) z) in
      let (agreed, addressed) = opened-Agreed a y s' secret encrypted z sends refl in
      record {
        after =
            secure_channel_listener_resolve_with_session a
              (put_session a (opened secret encrypted s' z) sends);
        ran =
            passive_listener_callback_ran C msg a s d p (after_read p) read
            ∙ ran
            ∙ ap (λ (m : Outcome (State × Process P S)). m >>= λ r. done r.1) stepped;
        agreed = agreed;
        addressed =
            moved_Addressed y agreed.session p sends _ placed.peers_after placed.configuration_after
              addressed;
        sent =
            opened-sent a (opened secret encrypted s' z) letter (z.next + 1 + 1)
              (sealed encrypted s' z) z
            ∙ ap (λ x. letter ∷ x) placed.sent_after;
      }
