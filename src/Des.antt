-- ===== src/Des.antt =====
-- src/crytpo/des.c: a message under the first eight bytes of a secret. DES and base64 are external.
use whisp.Prelude.{ℕ, zero, suc, ◌+◌, [], ◌∷◌, length, leb, if◌then◌else◌}
use whisp.CString.{Bytes}
use whisp.Outcome.{Outcome, done, fault, undefined}
use whisp.Encryption.{first_bytes}

-- `DES_cfb64_encrypt` under the schedule of eight bytes of key, which are the initial vector too,
-- and the base64 of jnxlibc.
pub record Cipher : Type 0 where
  pub cfb_encrypt : Bytes → Bytes → Bytes
  pub cfb_decrypt : Bytes → Bytes → Bytes
  pub b64_encode : Bytes → Bytes
  pub b64_decode : Bytes → Bytes

-- `size` bytes at a pointer to the buffer `s`; behind it lies `beyond`.
unfoldable pub in_memory : ℕ → Bytes → (ℕ → ℕ) → Bytes
in_memory zero s beyond = []
in_memory (suc n) [] beyond = beyond 0 ∷ in_memory n [] (λ i. beyond (suc i))
in_memory (suc n) (c ∷ s) beyond = c ∷ in_memory n s beyond

module _ (D : Cipher) where
  -- A key whose text and NUL are shorter than the eight bytes that are copied is read out of bounds.
  unfoldable pub des_encrypt : Bytes → Bytes → Outcome Bytes
  des_encrypt key msg =
      if leb 8 (length key + 1)
      then done (D.b64_encode (D.cfb_encrypt (first_bytes 8 key) msg))
      else fault undefined

  -- The text `msg` is decoded, and as many bytes are decrypted as the text has, which is more than
  -- the decoded buffer has: the model reads `beyond` behind it.
  unfoldable pub des_decrypt : Bytes → Bytes → (ℕ → ℕ) → Outcome Bytes
  des_decrypt key msg beyond =
      if leb 8 (length key + 1)
      then done
          (D.cfb_decrypt (first_bytes 8 key) (in_memory (length msg) (D.b64_decode msg) beyond))
      else fault undefined
