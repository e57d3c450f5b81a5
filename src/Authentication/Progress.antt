-- ===== src/Authentication/Progress.antt =====
-- What every run of `authentication_session_update` of src/net/authentication.c does.
use whisp.Prelude.{
  ℕ, Option-cases, length, ◌-◌, ◌^◌, ◌+◌, ◌≤◌, ◌≡◌, refl, Option, none, some, arith, Bool-cases,
  inl, inr,
}
use whisp.CString.{Bytes, CStr}
use whisp.Outcome.{done, null, set, Outcome-done, ◌>>=◌, deref, is_pointer}
use whisp.Btree.{BTree}
use whisp.Process.{
  Session, State, closing, dormant, error, pre_handshake, public_key_exchange, handshaking,
  connected, other, Process, peer_tree_compare, session_tree_compare, write,
}
use whisp.SessionControl.{session_generate_secret}
use whisp.Encryption.{
  Crypto, public, key_to_string, string_to_key, encrypt_message, decrypt_message,
}
use whisp.SecureChannel.{secure_channel_listener_resolve_with_session}
use whisp.Authentication.{
  Draws, put_session, with_text, text_or_null, is_origin, on_pre_handshake, on_public_key_exchange,
  on_handshaking, on_connected, on_state, authentication_session_update,
  authentication_update_foriegn_session,
}
use whisp.Authentication.Outgoing.{outgoing}
use whisp.Authentication.Frame.{
  Leaves, InState, Advances, sent_one, rewritten, step_sent, step_onwards,
}

-- The handshake, one state after the other.
unfoldable pub next_state : State → State
next_state pre_handshake = public_key_exchange
next_state public_key_exchange = handshaking
next_state handshaking = connected
next_state connected = connected
next_state closing = closing
next_state dormant = dormant
next_state error = error
next_state (other z) = other z

module _ {P : BTree peer_tree_compare} {S : BTree session_tree_compare} where
  step_pre_handshake :
      (C : Crypto) (a : ℕ) (s : Session) (d : Draws) (p q : Process P S)
      → on_pre_handshake C a s d p ≡ done q
      → Advances a s public_key_exchange p q
  unfolding on_pre_handshake
  step_pre_handshake C a s d p q h =
      let s' : Session = record s {
        local_keypair = set d.keypair;
        local_public_key = set (with_text (key_to_string C d.keypair public d.slack) p).0;
        current_state = set public_key_exchange;
      } in
      let (mine, hm) =
        Outcome-done (is_origin s' (record p { next = p.next + 1 }))
          (λ e f. ground (arith, h, f)) in
      elim (Bool-cases mine) [
        | inl e ↦
            step_sent a s s' public_key_exchange (p.next + 1) p q (ground (arith, h, hm, e)) refl
              refl refl refl refl (omega arith)
        | inr e ↦
            let same : q ≡ put_session a s' (record p { next = p.next + 1 }) =
              ground (arith, h, hm, e) in
            rw same (
              rewritten a s s' public_key_exchange p.last_session (p.next + 1) p.sent
                (write p.sessions a (some s')) p (ground arith) (λ b apart. ground arith) refl refl
                refl refl refl (omega arith))
      ]

  step_public_key_exchange :
      (C : Crypto) (a : ℕ) (s : Session) (d : Draws) (p q : Process P S)
      → on_public_key_exchange C a s d p ≡ done q
      → Advances a s handshaking p q
  unfolding on_public_key_exchange
  step_public_key_exchange C a s d p q h =
      step_sent a s _ handshaking (p.next + 1) p q h refl refl refl refl refl (omega arith)

  step_decrypted :
      (a : ℕ) (s : Session) (decrypted : Option Bytes) (p q : Process P S)
      → p.sessions a ≡ some s
      → s.current_state ≡ set connected
      → secure_channel_listener_resolve_with_session a (
          put_session a
            (record s { shared_secret = (text_or_null decrypted p).0 })
            (text_or_null decrypted p).1)
        ≡ q
      → Advances a s connected p q
  unfolding secure_channel_listener_resolve_with_session
  step_decrypted a s none p q at c h = rw (← h) (
      rewritten a s (record s { shared_secret = null }) connected (set a) p.next p.sent
        (write p.sessions a _) p (ground arith) (λ b apart. ground arith) c refl refl refl refl
        (omega arith))
  step_decrypted a s (some t) p q at c h = rw (← h) (
      rewritten a s (record s { shared_secret = set (record { at = p.next; text = t }) }) connected
        (set a) (p.next + 1) p.sent (write p.sessions a _) p (ground arith)
        (λ b apart. ground arith) c refl refl refl refl (omega arith))

  step_connected :
      (C : Crypto) (a : ℕ) (s : Session) (p q : Process P S)
      → p.sessions a ≡ some s
      → s.current_state ≡ set connected
      → on_connected C a s p ≡ done q
      → Advances a s connected p q
  unfolding on_connected
  step_connected C a s p q at c h =
      let (mine, hm) = Outcome-done (is_origin s p) (λ e f. ground (arith, h, f)) in
      elim (Bool-cases mine) [
        | inl e ↦
            let (x, hx) =
              Outcome-done (is_pointer s.shared_secret) (λ y f. ground (arith, h, hm, e, f)) in
            let (i, hi) =
              Outcome-done (is_pointer s.session_id) (λ y f. ground (arith, h, hm, e, hx, f)) in
            let same : q ≡ record p { last_session = set a } =
              unfold secure_channel_listener_resolve_with_session in
              ground (arith, h, hm, e, hx, hi) in
            rw same (
              rewritten a s s connected (set a) p.next p.sent p.sessions p at (λ b apart. refl) c
                refl refl refl refl (omega arith))
        | inr e ↦
            let (len, hl) =
              Outcome-done (deref s.shared_secret_len) (λ y f. ground (arith, h, hm, e, f)) in
            let (r, hr) =
              Outcome-done (decrypt_message C s.local_keypair s.shared_secret len)
                (λ y f. ground (arith, h, hm, e, hl, f)) in
            let (i, hi) =
              Outcome-done (is_pointer s.session_id) (λ y f. ground (arith, h, hm, e, hl, hr, f)) in
            step_decrypted a s r p q at c (ground (arith, h, hm, e, hl, hr, hi))
      ]

  -- The sending of the secret, and what comes behind it.
  step_sealed :
      (C : Crypto) (a : ℕ) (s s' : Session) (key : CStr) (next : ℕ) (p q : Process P S)
      → (authentication_update_foriegn_session a (put_session a s' (record p { next = next }))
          >>= λ t.
              on_connected C a
                (record s' { shared_secret = set key })
                (put_session a (record s' { shared_secret = set key }) t))
        ≡ done q
      → s'.current_state ≡ set connected
      → s'.local_peer ≡ s.local_peer
      → s'.foriegn_peer ≡ s.foriegn_peer
      → s'.session_id ≡ s.session_id
      → s'.session_origin_guid ≡ s.session_origin_guid
      → p.next ≤ next
      → Advances a s connected p q
  step_sealed C a s s' key next p q h c e1 e2 e3 e4 le =
      let r = put_session a s' (record p { next = next }) in
      let s'' : Session = record s' { shared_secret = set key } in
      let (t, ht) =
        Outcome-done (authentication_update_foriegn_session a r) (λ y f. ground (arith, h, f)) in
      let (k, same) = sent_one a r t ht in
      let go : on_connected C a s'' (put_session a s'' (outgoing k r)) ≡ done q =
        ground (arith, h, ht, same) in
      step_onwards a s s' s'' connected next k p q e1 e2 e3 e4 le
        (step_connected C a s'' (put_session a s'' (outgoing k r)) q (ground arith) c go)

  step_handshaking :
      (C : Crypto) (a : ℕ) (s : Session) (d : Draws) (p q : Process P S)
      → on_handshaking C a s d p ≡ done q
      → Advances a s connected p q
  unfolding on_handshaking
  step_handshaking C a s d p q h =
      let (secret, hs) =
        Outcome-done (session_generate_secret d.r d.l d.n) (λ y f. ground (arith, h, f)) in
      let (theirs, ht) =
        Outcome-done (deref s.foriegn_public_key) (λ y f. ground (arith, h, hs, f)) in
      let pair = string_to_key C theirs.text public 0 in
      let (r, hr) =
        Outcome-done (encrypt_message C pair secret d.elen) (λ y f. ground (arith, h, hs, ht, f)) in
      let key = (with_text secret p).0 in
      elim (Option-cases r) [
        | inl e ↦
            step_sealed C a s
              (record s {
                shared_secret = null;
                shared_secret_len = set (2 ^ 64 - 1);
                current_state = set connected;
              })
              key (p.next + 1) p q (ground (arith, h, hs, ht, hr, e)) refl refl refl refl refl
              (omega arith)
        | inr (t, e) ↦
            step_sealed C a s
              (record s {
                shared_secret = set (record { at = p.next + 1; text = t });
                shared_secret_len = set (length t);
                current_state = set connected;
              })
              key (p.next + 1 + 1) p q (ground (arith, h, hs, ht, hr, e)) refl refl refl refl refl
              (omega arith)
      ]

  step_idle :
      (a : ℕ) (s : Session) (state : State) (p q : Process P S)
      → p.sessions a ≡ some s
      → s.current_state ≡ set state
      → done p ≡ done q
      → Advances a s state p q
  step_idle a s state p q at c h =
      let same : q ≡ p = ground (arith, h) in
      rw same (
        rewritten a s s state p.last_session p.next p.sent p.sessions p at (λ b apart. refl) c refl
          refl refl refl (omega arith))

  step_on_state :
      (C : Crypto) (a : ℕ) (s : Session) (state : State) (d : Draws) (p q : Process P S)
      → p.sessions a ≡ some s
      → s.current_state ≡ set state
      → on_state C state a s d p ≡ done q
      → Advances a s (next_state state) p q
  unfolding next_state
  step_on_state C a s pre_handshake d p q at c h = step_pre_handshake C a s d p q h
  step_on_state C a s public_key_exchange d p q at c h = step_public_key_exchange C a s d p q h
  step_on_state C a s handshaking d p q at c h = step_handshaking C a s d p q h
  step_on_state C a s connected d p q at c h = step_connected C a s p q at c h
  step_on_state C a s closing d p q at c h = step_idle a s closing p q at c h
  step_on_state C a s dormant d p q at c h = step_idle a s dormant p q at c h
  step_on_state C a s error d p q at c h = step_idle a s error p q at c h
  step_on_state C a s (other z) d p q at c h = step_idle a s (other z) p q at c h

  -- Whenever an update of a session goes through: the session, and the result, is in the next state
  -- of the handshake (no other state leads anywhere), it keeps its peers, its id and its origin, and
  -- no other session, no peer, neither tree and no setting is changed.
  pub authentication_session_update-Follows :
      (C : Crypto) (a : ℕ) (s : Session) (state state' : State) (d : Draws) (p q : Process P S)
      → p.sessions a ≡ some s
      → s.current_state ≡ set state
      → authentication_session_update C a d p ≡ done (state', q)
      → (state' ≡ next_state state) × Leaves a p q × InState a s (next_state state) q
  unfolding authentication_session_update
  authentication_session_update-Follows C a s state state' d p q at c h =
      let (r, hr) = Outcome-done (on_state C state a s d p) (λ y f. ground (arith, h, at, c, f)) in
      let (l, i) = step_on_state C a s state d p r at c hr in
      let ends : state' ≡ next_state state = ground (arith, h, at, c, hr, i.at, i.in_state) in
      let same : q ≡ r = ground (arith, h, at, c, hr, i.at, i.in_state) in
      (ends, rw same l, rw same i)
