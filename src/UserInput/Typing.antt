-- ===== src/UserInput/Typing.antt =====
-- The lines of src/app/userinput.c in a session: what is typed, and what becomes of it.
use whisp.Prelude.{
  length, ◌≤◌, ◌+◌, ℕ, ◌≡◌, refl, ◌==◌, ◌||◌, some, List, [], ◌∷◌, ◌++◌, arith, Bool-cases, inl,
  inr,
}
use whisp.CString.{Bytes, CStr}
use whisp.Outcome.{done, set}
use whisp.Btree.{BTree}
use whisp.Process.{Process, Packet, peer_tree_compare, session_tree_compare}
use whisp.SessionControl.Connected.{IsClosed}
use whisp.Encryption.{Crypto, up_to_nul}
use whisp.Des.{Cipher, des_decrypt}
use whisp.SecureChannel.{send_in, secure_channel_send, secure_listener_callback}
use whisp.SecureChannel.Channel.{
  IsCipher, Connected, Reaches, des_decrypt-des_encrypt, secure_channel_send_ran,
  secure_listener_callback_ran, show_buffer-ended,
}
use whisp.UserInput.{trim, Mode, commanding, in_session, Typed, session_turn, say, user_input}

-- A line that is not empty loses its end, and at most one byte.
pub trim_lem : (c : ℕ) (line : Bytes) → (text : Bytes) × (trim (c ∷ line) ≡ done text)
unfolding trim
trim_lem c [] = elim (Bool-cases (c == b'\n' || c == b'\r')) [
  | inl e ↦ ([], ground (arith, e))
  | inr e ↦ (c ∷ [], ground (arith, e))
]
trim_lem c (d ∷ line) = let (text, ran) = trim_lem d line in (c ∷ text, rw ran refl)

trim-line : (text : Bytes) → trim (text ++ (b'\n' ∷ [])) ≡ done text
unfolding trim
trim-line [] = refl
trim-line (c ∷ []) = refl
trim-line (c ∷ d ∷ text) = rw (trim-line (d ∷ text)) refl

module _ {P : BTree peer_tree_compare} {S : BTree session_tree_compare} where
  -- A line for a session that was closed meanwhile.
  pub user_input_closed :
      (C : Crypto) (D : Cipher) (a c : ℕ) (line : Bytes) (k : Typed) (p : Process P S)
      → IsClosed a p.sessions
      → k.line ≡ some (c ∷ line)
      → user_input C D (in_session a) k p ≡ done ([], commanding, p)
  unfolding user_input say secure_channel_send send_in session_turn
  user_input_closed C D a c line k p (s, at, closed) typed =
      let (text, ran) = trim_lem c line in
      rw typed (rw ran (rw at (rw closed (rw at (rw closed refl)))))

  stays_in_session :
      (a : ℕ) (secret : Bytes) (p : Process P S) (sent : List Packet)
      → Connected a secret p
      → session_turn a (record p { sent = sent }) ≡ done (in_session a)
  unfolding session_turn
  stays_in_session a secret p sent c = rw (c.at, c.in_state) refl

  said :
      (D : Cipher) (a : ℕ) (line text : Bytes) (mode : Mode) (p q : Process P S)
      → trim line ≡ done text
      → secure_channel_send D a (text ++ (0 ∷ [])) p ≡ done q
      → session_turn a q ≡ done mode
      → say D a line p ≡ done (mode, q)
  unfolding say
  said D a line text mode p q trimmed sent turn = rw trimmed (rw sent (rw turn refl))

  heard :
      (D : Cipher) (b : ℕ) (secret text t rest : Bytes) (beyond : ℕ → ℕ) (q : Process P S)
      → Connected b secret q
      → q.last_session ≡ set b
      → up_to_nul text ≡ text
      → des_decrypt D secret t beyond ≡ done ((text ++ (0 ∷ [])) ++ rest)
      → secure_listener_callback D t beyond q ≡ done (some text)
  heard D b secret text t rest beyond q c last no_nul back =
      secure_listener_callback_ran D b secret t ((text ++ (0 ∷ [])) ++ rest) text beyond q c last
        back (show_buffer-ended text rest no_nul)

  -- What the sender hands to the socket, and what the other end shows for it.
  abbrev pub Shows :
      Crypto
      → Cipher
      → ℕ
      → Typed
      → Bytes
      → Bytes
      → CStr
      → (ℕ → ℕ)
      → Process P S
      → Process P S
      → Type 0
  Shows C D a k text host port beyond p q =
      (t : Bytes) × (user_input C D (in_session a) k p
        ≡ done (
          [],
          in_session a,
          record p { sent = record { host = host; port = port.text; payload = t } ∷ p.sent },
        ))
      × (secure_listener_callback D t beyond q ≡ done (some text))

  -- Two ends that are connected under one secret of seven bytes or more: a line without a NUL that the
  -- user types in the session goes out as one packet, the user stays in the session, and the other end
  -- shows exactly that line without its end, whatever lies in memory behind the decoded buffer.
  pub user_input-Shows :
      (C : Crypto) (D : Cipher) (a b : ℕ) (secret text host : Bytes) (port : CStr) (beyond : ℕ → ℕ)
      (k : Typed) (p q : Process P S)
      → IsCipher D
      → 8 ≤ length secret + 1
      → up_to_nul text ≡ text
      → k.line ≡ some (text ++ (b'\n' ∷ []))
      → (c : Connected a secret p) → Reaches host port c.session p
      → Connected b secret q
      → q.last_session ≡ set b
      → Shows C D a k text host port beyond p q
  unfolding user_input
  user_input-Shows C D a b secret text host port beyond k p q laws long no_nul typed c r d last =
      let (t, encrypted, whole, rest, back) =
        des_decrypt-des_encrypt D secret (text ++ (0 ∷ [])) beyond laws long in
      let packet : Packet = record { host = host; port = port.text; payload = t } in
      let sends =
        secure_channel_send_ran D a secret host (text ++ (0 ∷ [])) t port p c r encrypted whole in
      (
        t,
        rw typed (
            rw
              (said D a (text ++ (b'\n' ∷ [])) text (in_session a) p _ (trim-line text) sends
                (stays_in_session a secret p (packet ∷ p.sent) c))
              refl),
        heard D b secret text t rest beyond q d last no_nul back,
      )
