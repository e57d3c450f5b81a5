-- ===== src/Tests/Channel.antt =====
-- RSA, DES and base64 that can be run, and the two channels over them (src/crytpo, src/net/secure_channel.c) at
-- states of Tests/World.antt.
use whisp.Prelude.{
  ◌-◌, ℕ, zero, suc, ◌≤◌, ◌≡◌, refl, ap, none, some, [], ◌∷◌, ◌++◌, arith, length, ltb,
  if◌then◌else◌,
}
use whisp.CString.{Bytes, codes, strcmp_eq}
use whisp.Outcome.{done, set}
use whisp.Process.{Process}
use whisp.Encryption.{Crypto, up_to_nul, first_bytes, encrypt_message, decrypt_message}
use whisp.Encryption.Laws.{IsCrypto, decrypt_message-encrypt_message}
use whisp.Des.{Cipher, in_memory}
use whisp.SecureChannel.{host_of}
use whisp.SecureChannel.Channel.{IsCipher, Connected}
use whisp.Tests.World.{PTree, STree, str, bob, talk, talking}

-- RSA that pads to twenty bytes, and base64 that puts one byte in front.
abbrev toy_encode : Bytes → Bytes
toy_encode t = b'#' ∷ t

abbrev pub toy_decode : Bytes → Bytes
toy_decode [] = []
toy_decode (c ∷ t) = t

abbrev pub toy : Crypto
toy = record {
  write_public = λ k. codes "KEY";
  write_private = λ k. codes "PRIVATE";
  read_public = λ t. 5;
  rsa_size = λ k. 20;
  public_encrypt = λ k t. some (in_memory 20 t (λ i. 0));
  private_decrypt = λ k len t. if ltb 20 len then none else some t;
  b64_encode = toy_encode;
  b64_decode = toy_decode;
}

length-in_memory : (n : ℕ) (s : Bytes) (beyond : ℕ → ℕ) → length (in_memory n s beyond) ≡ n
unfolding in_memory
length-in_memory zero s beyond = refl
length-in_memory (suc n) [] beyond = ap suc (length-in_memory n [] (λ i. beyond (suc i)))
length-in_memory (suc n) (c ∷ s) beyond = ap suc (length-in_memory n s beyond)

pub toy-IsCrypto : IsCrypto toy
toy-IsCrypto = record {
  size = λ k. omega arith;
  full = λ k t c e.
      let padded : in_memory 20 t (λ i. 0) ≡ c = ground (arith, e) in
      rw (← padded) (length-in_memory 20 t (λ i. 0));
  refused = λ k len t h. ground arith;
  longer = λ t h. omega arith;
}

-- What `encrypt_message` returns for a short message.
abbrev toy_text : Bytes
toy_text = b'#' ∷ first_bytes 20 (in_memory 20 (codes "hi" ++ (0 ∷ [])) (λ i. 0))

toy_encrypts : encrypt_message toy 5 (codes "hi") 20 ≡ done (some toy_text)
unfolding encrypt_message
toy_encrypts = refl

decrypt_message-encrypt_message_example :
    decrypt_message toy (set 5) (set (str 70 toy_text)) (length toy_text) ≡ done none
decrypt_message-encrypt_message_example =
    decrypt_message-encrypt_message toy 5 5 (codes "hi") (str 70 toy_text) toy-IsCrypto refl
      toy_encrypts

-- Base64 that keeps the NULs out, and DES that is not one.
unfoldable pub shift : Bytes → Bytes
shift [] = []
shift (c ∷ t) = suc c ∷ shift t

unfoldable pub unshift : Bytes → Bytes
unshift [] = []
unshift (c ∷ t) = (c - 1) ∷ unshift t

up_to_nul-shift : (t : Bytes) → up_to_nul (shift t) ≡ shift t
unfolding up_to_nul shift
up_to_nul-shift [] = refl
up_to_nul-shift (c ∷ t) = ground (arith, up_to_nul-shift t)

unshift-shift : (t : Bytes) → unshift (shift t) ≡ t
unfolding shift unshift
unshift-shift [] = refl
unshift-shift (c ∷ t) = ground (arith, unshift-shift t)

pub length-shift : (t : Bytes) → length t ≤ length (shift t)
unfolding shift
length-shift [] = omega arith
length-shift (c ∷ t) = omega (arith, length-shift t)

abbrev pub toy_cipher : Cipher
toy_cipher = record {
  cfb_encrypt = λ k m. m;
  cfb_decrypt = λ k m. m;
  b64_encode = shift;
  b64_decode = unshift;
}

pub toy_cipher-IsCipher : IsCipher toy_cipher
toy_cipher-IsCipher = record {
  text = up_to_nul-shift;
  decode = unshift-shift;
  longer = length-shift;
  prefix = λ k m rest. (rest, refl);
}

-- The process listens for its own session.
abbrev pub listening : Process PTree STree
listening = record talking { last_session = set 30 }

abbrev pub talking_secret : Connected 30 (codes "Alpha-Beta-Hugo") talking
talking_secret = record {
  session = talk;
  key = str 34 (codes "Alpha-Beta-Hugo");
  at = refl;
  in_state = refl;
  shared = refl;
  is_secret = refl;
}

abbrev pub listening_secret : Connected 30 (codes "Alpha-Beta-Hugo") listening
listening_secret = record {
  session = talk;
  key = str 34 (codes "Alpha-Beta-Hugo");
  at = refl;
  in_state = refl;
  shared = refl;
  is_secret = refl;
}

pub talking_host : host_of bob talking ≡ done (codes "localhost")
unfolding host_of strcmp_eq
talking_host = refl

pub hello : up_to_nul (codes "hello") ≡ codes "hello"
unfolding up_to_nul
hello = refl
