-- ===== src/SecureChannel/Channel.antt =====
-- Lemmas on the two ends of the secure channel (src/net/secure_channel.c, src/crytpo/des.c).
use whisp.Prelude.{
  ◌==◌, Bool-cases, inl, inr, ℕ, zero, suc, ◌+◌, ◌≤◌, ◌≡◌, refl, ap, some, [], ◌∷◌, ◌++◌, length,
  arith,
}
use whisp.CString.{Bytes, CStr}
use whisp.Outcome.{done, set}
use whisp.Btree.{BTree}
use whisp.Process.{Session, RawPeer, Process, connected, peer_tree_compare, session_tree_compare}
use whisp.Encryption.{first_bytes, up_to_nul}
use whisp.Des.{Cipher, in_memory, des_encrypt, des_decrypt}
use whisp.SecureChannel.{
  host_of, send_in, secure_channel_send, show_buffer, shown_for, secure_listener_callback,
}

-- What is documented of base64 (its text has no NUL, it is never shorter than the bytes, and is
-- decoded to them) and of DES in CFB mode (no longer than the text, and the first bytes that are
-- decrypted do not depend on those behind them).
pub record IsCipher (D : Cipher) : Type 0 where
  pub text : (t : Bytes) → up_to_nul (D.b64_encode t) ≡ D.b64_encode t
  pub decode : (t : Bytes) → D.b64_decode (D.b64_encode t) ≡ t
  pub longer : (t : Bytes) → length t ≤ length (D.b64_encode t)
  pub prefix :
      (k m rest : Bytes) → (r : Bytes) × (D.cfb_decrypt k (D.cfb_encrypt k m ++ rest) ≡ m ++ r)

in_memory_prefix :
    (n : ℕ) (s : Bytes) (beyond : ℕ → ℕ)
    → length s ≤ n
    → (rest : Bytes) × (in_memory n s beyond ≡ s ++ rest)
unfolding in_memory
in_memory_prefix n [] beyond le = (in_memory n [] beyond, refl)
in_memory_prefix zero (c ∷ s) beyond le = absurd (omega arith)
in_memory_prefix (suc n) (c ∷ s) beyond le =
    let (rest, e) = in_memory_prefix n s beyond (omega arith) in (rest, ap (λ t. c ∷ t) e)

-- A buffer with a text and its NUL is shown as that text, whatever comes behind.
pub show_buffer-ended :
    (text rest : Bytes)
    → up_to_nul text ≡ text
    → show_buffer ((text ++ (0 ∷ [])) ++ rest) ≡ done text
unfolding up_to_nul show_buffer
show_buffer-ended [] rest h = refl
show_buffer-ended (c ∷ text) rest h = elim (Bool-cases (c == 0)) [
  | inl e ↦ absurd (ground (arith, h, e))
  | inr e ↦ rw (e, show_buffer-ended text rest (ground (arith, h, e))) refl
]

-- A message under a secret of at least seven bytes decrypts to itself and what the bytes behind the
-- decoded buffer decrypt to.
pub des_decrypt-des_encrypt :
    (D : Cipher) (key msg : Bytes) (beyond : ℕ → ℕ)
    → IsCipher D
    → 8 ≤ length key + 1
    → (t : Bytes) × (des_encrypt D key msg ≡ done t)
      × (up_to_nul t ≡ t)
      × (rest : Bytes) × (des_decrypt D key t beyond ≡ done (msg ++ rest))
unfolding des_encrypt des_decrypt
des_decrypt-des_encrypt D key msg beyond laws long =
    let k = first_bytes 8 key in
    let c = D.cfb_encrypt k msg in
    let t = D.b64_encode c in
    let (more, e) = in_memory_prefix (length t) c beyond (laws.longer c) in
    let (rest, d) = laws.prefix k msg more in
    (t, ground arith, laws.text c, rest, rw (laws.decode c, e, d) (ground arith))

module _ {P : BTree peer_tree_compare} {S : BTree session_tree_compare} where
  -- The session at `a` is connected under the secret.
  pub record Connected (a : ℕ) (secret : Bytes) (p : Process P S) : Type 0 where
    pub session : Session
    pub key : CStr
    pub at : p.sessions a ≡ some session
    pub in_state : session.current_state ≡ set connected
    pub shared : session.shared_secret ≡ set key
    pub is_secret : key.text ≡ secret

  -- Where the session's packets go.
  pub record Reaches (host : Bytes) (port : CStr) (s : Session) (p : Process P S) : Type 0 where
    pub address : ℕ
    pub peer : RawPeer
    pub foriegn : s.foriegn_peer ≡ set address
    pub at : p.peers address ≡ some peer
    pub to_host : host_of peer p ≡ done host
    pub to_port : peer.secure_port ≡ set port

  pub secure_channel_send_ran :
      (D : Cipher) (a : ℕ) (secret host message t : Bytes) (port : CStr) (p : Process P S)
      → (c : Connected a secret p) → Reaches host port c.session p
      → des_encrypt D secret message ≡ done t
      → up_to_nul t ≡ t
      → secure_channel_send D a message p
        ≡ done (record p { sent = record { host = host; port = port.text; payload = t } ∷ p.sent })
  unfolding secure_channel_send send_in
  secure_channel_send_ran D a secret host message t port p c r ran text =
      rw (c.at, c.in_state)
        (rw (c.shared, c.is_secret)
          (rw (ran, r.foriegn, r.at) (rw (r.to_host, r.to_port, text) refl)))

  pub secure_listener_callback_ran :
      (D : Cipher) (b : ℕ) (secret t buffer text : Bytes) (beyond : ℕ → ℕ) (q : Process P S)
      → Connected b secret q
      → q.last_session ≡ set b
      → des_decrypt D secret t beyond ≡ done buffer
      → show_buffer buffer ≡ done text
      → secure_listener_callback D t beyond q ≡ done (some text)
  unfolding secure_listener_callback shown_for
  secure_listener_callback_ran D b secret t buffer text beyond q c last ran shown =
      rw (last) (rw (c.at, c.in_state) (rw (c.shared, c.is_secret) (rw ran (rw shown refl))))
