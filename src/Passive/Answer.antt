-- ===== src/Passive/Answer.antt =====
-- The first half of a handshake: the session that `user_start_session` (src/app/userinput.c) sends
-- reaches the other peer's passive listener (src/net/passive.c), which answers it.
use whisp.Prelude.{ℕ, ◌+◌, ◌≡◌, refl, ap, ◌∙◌, false, none, ◌∷◌, length, arith}
use whisp.CString.{Bytes, strcmp_eq, sprintf, ℤ, pos}
use whisp.Outcome.{Outcome, done, set, ◌>>=◌}
use whisp.Btree.{BTree}
use whisp.Process.{
  Session, State, public_key_exchange, handshaking, Process, Packet, peer_tree_compare,
  session_tree_compare, state_of_int, size_of_int,
}
use whisp.SessionControl.View.{SessionsAreValid, session_at}
use whisp.SessionControl.Unique.{Stands, Stands-write}
use whisp.SessionControl.Destroy.{IsReadable}
use whisp.Serialization.Sessions.{Wire, session_frame, wire_args}
use whisp.Serialization.Sessions.RoundTrip.{
  IsSendable, SamePeers, NamesBoth, Knows, read_session, after_read, deserialize_session_data-wire,
}
use whisp.Encryption.{Crypto, public, key_to_string}
use whisp.Authentication.{Draws}
use whisp.Authentication.Outgoing.{Named, IsShown, packet, Fits, outgoing}
use whisp.Authentication.Steps.{answered, kept, public_key_exchange_lem}
use whisp.Passive.{passive_listener_callback}
use whisp.Passive.Place.{Arrives, Placed-Stands, session_received_new}
use whisp.Passive.Agreement.{
  read_id, read_origin, moved, payload_pos, passive_listener_callback_ran,
}

exchange-state_of_int : (z : ℤ) → z ≡ pos 4 → state_of_int z ≡ public_key_exchange
unfolding state_of_int
exchange-state_of_int z e = rw e refl

module _ {P : BTree peer_tree_compare} {S : BTree session_tree_compare} where
  -- What the answer prints: the public key of the new keypair in the place of the foriegn one.
  abbrev pub answer-IsShown :
      (C : Crypto) (w : Wire) (x y at : ℕ) (d : Draws) (p : Process P S)
      → IsShown (answered C d (read_session w x y at) p)
  answer-IsShown C w x y at d p = record {
    secret_text = w.secret;
    local_text = w.local_key;
    foriegn_text = key_to_string C d.keypair public d.slack;
    is_state = handshaking;
    is_len = size_of_int w.secret_len;
    shows_secret = refl;
    shows_local = refl;
    shows_foriegn = refl;
    in_state = refl;
    has_len = refl;
  }

  abbrev pub answer : Crypto → Wire → ℕ → ℕ → Draws → Process P S → Session
  answer C w x y d p = answered C d (read_session w x y (p.next + 1)) p

  -- The peer that a session reached first, after it answered.
  pub record Answered (C : Crypto) (w : Wire) (d : Draws) (x y : ℕ) (letter : Packet)
      (p : Process P S) : Type 0 where
    pub after : Process P S
    pub session : Session
    pub ran :
        passive_listener_callback C
          (sprintf session_frame (wire_args w))
          (length (sprintf session_frame (wire_args w)))
          d
          p
        ≡ done after
    pub stands : Stands p.next w.id session after
    pub in_state : session.current_state ≡ set handshaking
    pub keypair : session.local_keypair ≡ set d.keypair
    pub peers : (session.local_peer ≡ set x) × (session.foriegn_peer ≡ set y)
    pub named : session.session_id ≡ set (read_id w p.next)
    pub origin : session.session_origin_guid ≡ set (read_origin w p.next)
    pub readable : IsReadable session
    pub same_peers : SamePeers p after
    pub others : (id : Bytes) → strcmp_eq w.id id ≡ false → session_at after id ≡ session_at p id
    pub sent : after.sent ≡ letter ∷ p.sent

  -- A peer that knows both peers of a session, and has none with its id, gets its first message: it has
  -- the session then with the peers the other way round, handshaking and with a keypair of its own, and
  -- sends it back once with the public key; every other id is found as before.
  pub passive_listener_callback-Answered :
      (C : Crypto) (w : Wire) (own other : Bytes) (x y : ℕ) (d : Draws) (p : Process P S)
      (n : Named
        (set x)
        (set y)
        (set (read_id w p.next))
        (set (read_origin w p.next))
        p.peers
        p.configuration)
      → SessionsAreValid p
      → IsSendable w
      → Knows own other x y p
      → NamesBoth own other w
      → w.state ≡ pos 4
      → session_at p w.id ≡ none
      → Fits (answer C w x y d p) p n (answer-IsShown C w x y (p.next + 1) d p)
      → Answered C w d x y
          (packet (answer C w x y d p) p n (answer-IsShown C w x y (p.next + 1) d p))
          p
  passive_listener_callback-Answered C w own other x y d p n v sendable knows names state new fits =
      let a = p.next in
      let s = read_session w x y (a + 1) in
      let later = a + 1 + 1 + 1 + 1 + 1 + 1 in
      let msg = sprintf session_frame (wire_args w) in
      let in_state : s.current_state ≡ set public_key_exchange =
        ap (λ (m : State). set m) (exchange-state_of_int w.state state) in
      let arrives : Arrives a s (read_id w a) later p = record {
        state = public_key_exchange;
        named = refl;
        in_state = in_state;
        fresh = omega arith;
        key_fresh = omega arith;
        below = omega arith;
        key_below = omega arith;
      } in
      let read =
        deserialize_session_data-wire own other x y w (length msg) p sendable (payload_pos w) knows
          names in
      let (z, ran, placed) = session_received_new C a s (read_id w a) later d p v arrives new in
      let n' : Named (set x) (set y) (set (read_id w a)) (set (read_origin w a)) z.peers
          z.configuration =
        moved (set x) (set y) (set (read_id w a)) (set (read_origin w a)) p.peers z.peers
          p.configuration z.configuration placed.peers_after placed.configuration_after n in
      let s' = answered C d s z in
      let h = answer-IsShown C w x y (a + 1) d z in
      let stepped = public_key_exchange_lem C a s d z n' h placed.session_after in_state fits in
      record {
        after = outgoing (packet s' z n' h) (kept a s' (z.next + 1) z);
        session = s';
        ran =
            passive_listener_callback_ran C msg a s d p (after_read p) read
            ∙ ran
            ∙ ap (λ (m : Outcome (State × Process P S)). m >>= λ r. done r.1) stepped;
        stands =
            Stands-write a (z.next + 1) w.id s s' handshaking z.last_session
              (packet s' z n' h ∷ z.sent) z (Placed-Stands a (read_id w a) s p z placed) refl refl
              (omega arith);
        in_state = refl;
        keypair = refl;
        peers = (refl, refl);
        named = refl;
        origin = refl;
        readable = record { secret = cc; foriegn_key = cc; local_key = cc };
        same_peers = record {
          peers = placed.peers_after;
          store = placed.store_after;
          configuration = placed.configuration_after;
          grows = let g = placed.grows in omega arith;
        };
        others = λ id apart. placed.map_after id ∙ rw apart refl;
        sent = ap (λ x. packet s' z n' h ∷ x) placed.sent_after;
      }
