-- ===== src/Encryption/Laws.antt =====
-- What OpenSSL and base64 document, and what `encrypt_message` and `decrypt_message` of
-- src/crytpo/encryption.c make of it.
use whisp.Prelude.{
  ℕ, ◌<◌, ◌≤◌, ◌≡◌, refl, ap, none, some, Option-cases, inl, inr, [], ◌∷◌, ◌++◌, length, arith,
}
use whisp.CString.{Bytes, CStr}
use whisp.Outcome.{done, set}
use whisp.Encryption.{Crypto, first_bytes, text_in, encrypt_message, decrypt_message}

-- A text under RSA is as long as the modulus, longer texts are refused, and base64 makes a text longer.
pub record IsCrypto (C : Crypto) : Type 0 where
  pub size : (k : ℕ) → 0 < C.rsa_size k
  pub full : (k : ℕ) (t c : Bytes) → C.public_encrypt k t ≡ some c → length c ≡ C.rsa_size k
  pub refused : (k len : ℕ) (t : Bytes) → C.rsa_size k < len → C.private_decrypt k len t ≡ none
  pub longer : (t : Bytes) → 0 < length t → length t < length (C.b64_encode t)

first_bytes_all : (s : Bytes) → first_bytes (length s) s ≡ s
first_bytes_all [] = refl
first_bytes_all (c ∷ s) = rw (first_bytes_all s) refl

decrypt_message_refused :
    (C : Crypto) (k : ℕ) (text : CStr) (len : ℕ)
    → IsCrypto C
    → 0 < len
    → len ≤ length text.text
    → C.rsa_size k < len
    → decrypt_message C (set k) (set text) len ≡ done none
unfolding decrypt_message text_in
decrypt_message_refused C k text len laws pos le big =
    rw (laws.refused k len (C.b64_decode (first_bytes len (text.text ++ (0 ∷ [])))) big)
      (ground arith)

encrypt_message_text :
    (C : Crypto) (theirs : ℕ) (message t : Bytes)
    → IsCrypto C
    → encrypt_message C theirs message (C.rsa_size theirs) ≡ done (some t)
    → C.rsa_size theirs < length t
unfolding encrypt_message
encrypt_message_text C theirs message t laws ran =
    elim (Option-cases (C.public_encrypt theirs (message ++ (0 ∷ [])))) [
      | inl e ↦ absurd (ground (arith, ran, e))
      | inr (c, e) ↦
          let n = laws.full theirs (message ++ (0 ∷ [])) c e in
          let whole : first_bytes (C.rsa_size theirs) c ≡ c = rw (← n) (first_bytes_all c) in
          let is_text : C.b64_encode c ≡ t = ground (arith, ran, e, whole) in
          let more = laws.longer c (omega (arith, n, laws.size theirs)) in
          omega (arith, more, n, ap (λ (x : Bytes). length x) is_text)
    ]

-- Even if the length that `encrypt_message` never sets is the right one, that of the whole
-- encrypted text, what it returns is not decrypted: with a key of the same size, `decrypt_message`
-- of that text and its length is NULL, since it hands RSA the length of the encoded text.
pub decrypt_message-encrypt_message :
    (C : Crypto) (theirs mine : ℕ) (message : Bytes) (text : CStr)
    → IsCrypto C
    → C.rsa_size mine ≡ C.rsa_size theirs
    → encrypt_message C theirs message (C.rsa_size theirs) ≡ done (some text.text)
    → decrypt_message C (set mine) (set text) (length text.text) ≡ done none
decrypt_message-encrypt_message C theirs mine message text laws same ran =
    let big = encrypt_message_text C theirs message text.text laws ran in
    decrypt_message_refused C mine text (length text.text) laws (omega arith) (omega arith)
      (omega (arith, same))
