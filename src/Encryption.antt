-- ===== src/Encryption.antt =====
-- src/crytpo/encryption.c: RSA keys as text, and short messages under them.
--
-- OpenSSL and the base64 of jnxlibc are parameters of the model, and so is what is drawn at random or
-- left in memory: the key that RSA_generate_key returns (`srand(time(0))` and the length of the key
-- only matter to that), and the value of a variable that is never set.
pub mod Laws
use whisp.Prelude.{
  ℕ, zero, suc, ◌==◌, ◌+◌, ◌-◌, ◌^◌, Option, none, some, List, [], ◌∷◌, ◌++◌, length, leb, not,
  if◌then◌else◌,
}
use whisp.CString.{Bytes, CStr}
use whisp.Outcome.{Outcome, done, fault, undefined, jnx_check, Slot, deref, is_pointer, ◌>>=◌, ◌>>◌}

-- An `RSA *` is an address. `public_encrypt key text` is `RSA_public_encrypt` of all bytes of `text`;
-- `private_decrypt key flen text` is given a length of its own, as the code gives it. None is -1.
pub record Crypto : Type 0 where
  pub write_public : ℕ → Bytes
  pub write_private : ℕ → Bytes
  pub read_public : Bytes → ℕ
  pub rsa_size : ℕ → ℕ
  pub public_encrypt : ℕ → Bytes → Option Bytes
  pub private_decrypt : ℕ → ℕ → Bytes → Option Bytes
  pub b64_encode : Bytes → Bytes
  pub b64_decode : Bytes → Bytes

pub data KeyType : Type 0 where
  public private : KeyType

-- `take n` of the bytes at a pointer.
abbrev pub first_bytes : ℕ → Bytes → Bytes
first_bytes zero s = []
first_bytes (suc n) [] = []
first_bytes (suc n) (c ∷ s) = c ∷ first_bytes n s

-- The text before the first NUL.
unfoldable pub up_to_nul : Bytes → Bytes
up_to_nul [] = []
up_to_nul (c ∷ s) = if c == 0 then [] else c ∷ up_to_nul s

-- The text in a buffer.
unfoldable pub text_in : Option Bytes → Option Bytes
unfolding up_to_nul
text_in none = none
text_in (some buffer) = some (up_to_nul buffer)

module _ (C : Crypto) where
  -- The NUL is written behind the byte that follows the key, and one behind the `len + 1` bytes that
  -- were allocated: undefined behaviour in every call, as C has it. The model takes it as harmless, as it
  -- is where the allocator pads the block; `slack` is what
  -- `malloc` left in the byte that is skipped.
  unfoldable pub key_to_string : ℕ → KeyType → ℕ → Bytes
  unfolding up_to_nul
  key_to_string keypair public slack = up_to_nul (C.write_public keypair ++ (slack ∷ []))
  key_to_string keypair private slack = up_to_nul (C.write_private keypair ++ (slack ∷ []))

  -- Only a public key is read; else the key is the one of `RSA_new`, `blank`.
  unfoldable pub string_to_key : Bytes → KeyType → ℕ → ℕ
  string_to_key string public blank = C.read_public string
  string_to_key string private blank = blank

  -- The text with its NUL is encrypted, and `elen` bytes of the result are encoded, where `elen` is
  -- never set; beyond the buffer the read is undefined. The result is the text, or NULL.
  unfoldable pub encrypt_message : ℕ → Bytes → ℕ → Outcome (Option Bytes)
  encrypt_message keypair message elen = elim (C.public_encrypt keypair (message ++ (0 ∷ []))) [
    | none ↦ done none
    | some cipher ↦
        if leb elen (C.rsa_size keypair)
        then done (some (C.b64_encode (first_bytes elen cipher)))
        else fault undefined
  ]

  abbrev pub decrypted : ℕ → Bytes → ℕ → Option Bytes
  decrypted key text len =
      text_in (C.private_decrypt key len (C.b64_decode (first_bytes len (text ++ (0 ∷ [])))))

  -- What `*out_encrypted_len` is: the length of the encoded text, or -1 as a `size_t`.
  abbrev pub encrypted_len : Option Bytes → ℕ
  encrypted_len none = 2 ^ 64 - 1
  encrypted_len (some encoded) = length encoded

  -- The buffer that is decrypted into is full of NULs, so the result is the text before the first.
  -- The length that RSA_private_decrypt is given is that of the encoded text.
  unfoldable pub decrypt_message : Slot ℕ → Slot CStr → ℕ → Outcome (Option Bytes)
  decrypt_message keypair encrypted encrypted_message_len = do
    has_key ← is_pointer keypair
    jnx_check has_key
    has_text ← is_pointer encrypted
    jnx_check has_text
    jnx_check (not (encrypted_message_len == 0))
    key ← deref keypair
    text ← deref encrypted
    if leb encrypted_message_len (length text.text + 1)
        then done (decrypted key text.text encrypted_message_len)
        else fault undefined
