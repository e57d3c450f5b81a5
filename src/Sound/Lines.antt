-- ===== src/Sound/Lines.antt =====
-- Every line that the user types (src/app/userinput.c) and every signal (src/main/main.c) leave a
-- process well formed.
use whisp.Prelude.{
  ℕ, ◌≡◌, refl, ap, Option, none, some, List, [], ◌∷◌, ◌++◌, arith, Bool-cases, inl, inr,
}
use whisp.CString.{Bytes}
use whisp.Outcome.{done, done_injective, set, deref, >>=-eq-done}
use whisp.Btree.{BTree}
use whisp.Process.{
  Session, State, closing, dormant, error, pre_handshake, public_key_exchange, handshaking,
  connected, other, is_closing, Process, write, peer_tree_compare, session_tree_compare, object,
  object-eq-done,
}
use whisp.SessionControl.{session_get_connected_sessions, session_shutdown}
use whisp.Encryption.{Crypto}
use whisp.Des.{Cipher, des_encrypt}
use whisp.SecureChannel.{host_of, send_in, secure_channel_send}
use whisp.UserInput.{
  Mode, commanding, picking_peer, picking_session, in_session, Typed, read_line, trim, command,
  pick_session, session_turn, say, user_start_session, user_input,
}
use whisp.Main.{shutdown_loop, shutdown_all, on_interrupt}
use whisp.Sound.{IsSound, Keeps, Keeps-refl, Keeps-trans, store-Agrees}
use whisp.Sound.Updates.{write-SessionsAreValid}
use whisp.Sound.Pulses.{sent-Keeps}
use whisp.Sound.Starts.{user_start_session-Keeps}

module _ {P : BTree peer_tree_compare} {S : BTree session_tree_compare} where
  send_in-Keeps :
      (D : Cipher) (state : State) (s : Session) (message : Bytes) (p q : Process P S)
      → IsSound p
      → send_in D state s message p ≡ done q
      → Keeps p q
  unfolding send_in
  send_in-Keeps D connected s message p q v h =
      let (secret, h0, h1) = >>=-eq-done (deref s.shared_secret) _ h in
      let (buffer, hb, h2) = >>=-eq-done (des_encrypt D secret.text message) _ h1 in
      let (fa, hf, h3) = >>=-eq-done (deref s.foriegn_peer) _ h2 in
      let (f, ho, h4) = >>=-eq-done (object (p.peers fa)) _ h3 in
      let (host, hh, h5) = >>=-eq-done (host_of f p) _ h4 in
      let (port, hp, h6) = >>=-eq-done (deref f.secure_port) _ h5 in
      rw (← done_injective h6) (sent-Keeps _ p v)
  send_in-Keeps D closing s message p q v h = rw (← done_injective h) (Keeps-refl p v)
  send_in-Keeps D dormant s message p q v h = rw (← done_injective h) (Keeps-refl p v)
  send_in-Keeps D error s message p q v h = rw (← done_injective h) (Keeps-refl p v)
  send_in-Keeps D pre_handshake s message p q v h = rw (← done_injective h) (Keeps-refl p v)
  send_in-Keeps D public_key_exchange s message p q v h = rw (← done_injective h) (Keeps-refl p v)
  send_in-Keeps D handshaking s message p q v h = rw (← done_injective h) (Keeps-refl p v)
  send_in-Keeps D (other z) s message p q v h = rw (← done_injective h) (Keeps-refl p v)

  secure_channel_send-Keeps :
      (D : Cipher) (a : ℕ) (message : Bytes) (p q : Process P S)
      → IsSound p
      → secure_channel_send D a message p ≡ done q
      → Keeps p q
  unfolding secure_channel_send
  secure_channel_send-Keeps D a message p q v h =
      let (s, hs, h1) = >>=-eq-done (object (p.sessions a)) _ h in
      let (state, ht, h2) = >>=-eq-done (deref s.current_state) _ h1 in
      send_in-Keeps D state s message p q v h2

  say-Keeps :
      (D : Cipher) (a : ℕ) (line : Bytes) (mode : Mode) (p q : Process P S)
      → IsSound p
      → say D a line p ≡ done (mode, q)
      → Keeps p q
  unfolding say
  say-Keeps D a line mode p q v h =
      let (text, ht, h1) = >>=-eq-done (trim line) _ h in
      let (x, hx, h2) = >>=-eq-done (secure_channel_send D a (text ++ (0 ∷ [])) p) _ h1 in
      let (m, hm, h3) = >>=-eq-done (session_turn a x) _ h2 in
      let same : x ≡ q = ap (λ (y : Mode × Process P S). y.1) (done_injective h3) in
      rw (← same) (secure_channel_send-Keeps D a (text ++ (0 ∷ [])) p x v hx)

  -- A line, whatever the program reads next.
  pub user_input-Keeps :
      (C : Crypto) (D : Cipher) (mode mode' : Mode) (k : Typed) (printed : List Bytes)
      (p q : Process P S)
      → IsSound p
      → user_input C D mode k p ≡ done (printed, mode', q)
      → Keeps p q
  unfolding user_input
  user_input-Keeps C D commanding mode' k printed p q v h =
      let (typed, ht, h1) = >>=-eq-done (read_line k) _ h in
      let (line, hl, h2) = >>=-eq-done (trim typed) _ h1 in
      let (r, hr, h3) = >>=-eq-done (command line k.capacity p) _ h2 in
      let same : p ≡ q = ap (λ (y : List Bytes × Mode × Process P S). y.2) (done_injective h3) in
      rw (← same) (Keeps-refl p v)
  user_input-Keeps C D picking_peer mode' k printed p q v h =
      let (typed, ht, h1) = >>=-eq-done (read_line k) _ h in
      let (l, hl, h2) = >>=-eq-done (trim typed) _ h1 in
      let (x, hx, h3) = >>=-eq-done (user_start_session C l k.uuid k.draws p) _ h2 in
      let same : x ≡ q = ap (λ (y : List Bytes × Mode × Process P S). y.2) (done_injective h3) in
      rw (← same) (user_start_session-Keeps C l k.uuid k.draws p x v hx)
  user_input-Keeps C D (picking_session n) mode' k printed p q v h =
      let (m, hm, h1) = >>=-eq-done (pick_session n k.line p) _ h in
      let same : p ≡ q = ap (λ (y : List Bytes × Mode × Process P S). y.2) (done_injective h1) in
      rw (← same) (Keeps-refl p v)
  user_input-Keeps C D (in_session a) mode' k printed p q v h =
      let (line, hl, h1) = >>=-eq-done (read_line k) _ h in
      let ((m, x), hx, h2) = >>=-eq-done (say D a line p) _ h1 in
      let same : x ≡ q = ap (λ (y : List Bytes × Mode × Process P S). y.2) (done_injective h2) in
      rw (← same) (say-Keeps D a line m p x v hx)

  session_shutdown-Keeps :
      (a : ℕ) (p q : Process P S) → IsSound p → session_shutdown a p ≡ done q → Keeps p q
  unfolding session_shutdown
  session_shutdown-Keeps a p q v h =
      let (s, hs, h1) = >>=-eq-done (object (p.sessions a)) _ h in
      let (state, ht, h2) = >>=-eq-done (deref s.current_state) _ h1 in
      let s' : Session = record s { current_state = set closing } in
      let z : Process P S = record p { sessions = write p.sessions a (some s') } in
      elim (Bool-cases (is_closing state)) [
        | inl e ↦ let same : q ≡ p = ground (arith, h2, e) in rw same (Keeps-refl p v)
        | inr e ↦
            let same : q ≡ z = ground (arith, h2, e) in
            rw same (record {
              sound = record {
                store = store-Agrees p z v.store refl (λ b l. refl) (omega arith);
                sessions =
                    write-SessionsAreValid a s s' closing p z v.sessions
                      (object-eq-done (p.sessions a) hs) refl refl refl (omega arith) (ground arith)
                      (λ b l. ground arith);
              };
              configuration = refl;
              grows = omega arith;
            })
      ]

  shutdown_loop-Keeps :
      (l : List ℕ) (p q : Process P S) → IsSound p → shutdown_loop l p ≡ done q → Keeps p q
  unfolding shutdown_loop
  shutdown_loop-Keeps [] p q v h = rw (← done_injective h) (Keeps-refl p v)
  shutdown_loop-Keeps (a ∷ l) p q v h =
      let (x, hx, h1) = >>=-eq-done (session_shutdown a p) (λ r. shutdown_loop l r) h in
      let first = session_shutdown-Keeps a p x v hx in
      Keeps-trans p x q first (shutdown_loop-Keeps l x q first.sound h1)

  shutdown_all-Keeps :
      (l : Option (List ℕ)) (p q : Process P S) → IsSound p → shutdown_all l p ≡ done q → Keeps p q
  unfolding shutdown_all
  shutdown_all-Keeps none p q v h = rw (← done_injective h) (Keeps-refl p v)
  shutdown_all-Keeps (some l) p q v h = shutdown_loop-Keeps l p q v h

  pub on_interrupt-Keeps : (p q : Process P S) → IsSound p → on_interrupt p ≡ done q → Keeps p q
  unfolding on_interrupt
  on_interrupt-Keeps p q v h =
      let (l, hl, h1) = >>=-eq-done (session_get_connected_sessions p) (λ l. shutdown_all l p) h in
      shutdown_all-Keeps l p q v h1
