-- ===== src/System/Unread.antt =====
-- The end of a first conversation where the secret cannot be decrypted: `decrypt_message`
-- (src/crytpo/encryption.c), and after it the reading of the secret for a text that comes in
-- (src/net/secure_channel.c) or goes out (src/app/userinput.c).
use whisp.Prelude.{
  ℕ, ◌^◌, ◌<◌, ◌≡◌, ◌≢◌, refl, subst, Bool, Option, none, some, List, ◌∷◌, length, All, arith,
}
use whisp.CString.{Bytes, CStr, codes, int32}
use whisp.Outcome.{done, fault, undefined, set}
use whisp.Btree.{BTree}
use whisp.Process.{Process, size_of_int, peer_tree_compare, session_tree_compare}
use whisp.SessionControl.{session_generate_secret}
use whisp.SessionControl.Names.{digits_of}
use whisp.Encryption.{
  Crypto, public, key_to_string, string_to_key, encrypt_message, decrypt_message,
}
use whisp.Encryption.Laws.{IsCrypto, decrypt_message-encrypt_message}
use whisp.Des.{Cipher}
use whisp.Authentication.{Draws}
use whisp.SecureChannel.{send_in, secure_channel_send, shown_for, secure_listener_callback}
use whisp.Passive.Agreement.{Ends}
use whisp.App.{Settings}
use whisp.App.Ports.{int32-small}
use whisp.UserInput.{in_session, Typed, say, user_input}
use whisp.UserInput.Typing.{trim_lem}
use whisp.Main.{Node}
use whisp.Main.StartUp.{IsComplete, Ready}
use whisp.System.FirstTalk.{ShortWord, Introduced, start_up-Introduced}

int_of_len : (n : ℕ) → n < 2 ^ 31 → size_of_int (int32 n) ≡ n
unfolding size_of_int
int_of_len n h = rw (int32-small n h) refl

-- The secret as it comes to the partner.
never_opens :
    (C : Crypto) (theirs mine : ℕ) (secret encrypted : Bytes) (at : ℕ)
    → IsCrypto C
    → C.rsa_size mine ≡ C.rsa_size theirs
    → encrypt_message C theirs secret (C.rsa_size theirs) ≡ done (some encrypted)
    → length encrypted < 2 ^ 31
    → decrypt_message C
        (set mine)
        (set (record { at = at; text = encrypted }))
        (size_of_int (int32 (length encrypted)))
      ≡ done none
never_opens C theirs mine secret encrypted at laws same ran short =
    rw (int_of_len (length encrypted) short) (
      decrypt_message-encrypt_message C theirs mine secret (record { at = at; text = encrypted })
        laws same ran)

module _ {P : BTree peer_tree_compare} {S : BTree session_tree_compare} where
  Ends-heard :
      (D : Cipher) (a : ℕ) (msg : Bytes) (beyond : ℕ → ℕ) (q : Process P S)
      → Ends a none q
      → secure_listener_callback D msg beyond q ≡ fault undefined
  unfolding secure_listener_callback shown_for
  Ends-heard D a msg beyond q h = rw (h.last) (rw (h.at, h.in_state) (rw h.shared refl))

  Ends-typed :
      (C : Crypto) (D : Cipher) (a c : ℕ) (line : Bytes) (k : Typed) (q : Process P S)
      → Ends a none q
      → k.line ≡ some (c ∷ line)
      → user_input C D (in_session a) k q ≡ fault undefined
  unfolding user_input say secure_channel_send send_in
  Ends-typed C D a c line k q h typed =
      let (text, ran) = trim_lem c line in
      rw typed (rw ran (rw (h.at, h.in_state) (rw h.shared refl)))

  -- A conversation whose partner has no secret, and what becomes of it.
  pub record Unread (C : Crypto) (D : Cipher) (d e f g : Draws) (uuid : List ℕ) (secret : Bytes)
      (own guid debug debug' : Bytes) (ip ip' there there' : CStr) (k : Typed) (m n : Node P S)
      : Type 0 where
    pub introduced :
        Introduced C d e f g uuid secret none own guid debug debug' ip ip' there there' m n
    pub heard :
        (msg : Bytes) (beyond : ℕ → ℕ)
        → secure_listener_callback D msg beyond introduced.conversed.opens ≡ fault undefined
    pub typed :
        user_input C D (in_session introduced.conversed.answers.next) k introduced.conversed.opens
        ≡ fault undefined

  -- As documented, RSA refuses a text that is longer than the modulus, and base64 makes a text longer.
  -- The settings are complete; the decimals of each UUID, of the two GUIDs and of the session's id, have at
  -- most 23 digits, and the public keys and the encrypted secret are words of less than 1000 bytes.
  -- Two processes come up and get to a conversation as in `start_up-Introduced`; the length that
  -- `encrypt_message` never sets is the right one, and the public key that is sent has a modulus as long
  -- as the keypair's. Then the partner's secret is NULL though its session is connected and listened for:
  -- any text that reaches its secure channel is undefined behaviour, and so is any line, not empty, that
  -- its user types in the session.
  pub start_up-Unread :
      (C : Crypto) (D : Cipher) (d e f g : Draws)
      (interface_ip interface_ip' : Bytes → Bool → Option Bytes) (file file' : Settings)
      (c : IsComplete interface_ip file) (c' : IsComplete interface_ip' file')
      (i j i' j' byte byte' : ℕ) (bytes bytes' : List ℕ)
      (up : Ready P S interface_ip file c i j (byte ∷ bytes))
      (up' : Ready P S interface_ip' file' c' i' j' (byte' ∷ bytes')) (ip ip' there there' : CStr)
      (debug debug' : Bytes) (first : ℕ) (uuid : List ℕ) (secret encrypted : Bytes) (first_char : ℕ)
      (line : Bytes) (k : Typed)
      → length (digits_of (byte ∷ bytes)) < 24
      → length (digits_of (byte' ∷ bytes')) < 24
      → digits_of (byte ∷ bytes) ≢ digits_of (byte' ∷ bytes')
      → file (codes "DEBUG") ≡ some debug
      → file' (codes "DEBUG") ≡ some debug'
      → All (λ x. x < 256) (first ∷ uuid)
      → length (digits_of (first ∷ uuid)) < 24
      → ShortWord (key_to_string C d.keypair public d.slack)
      → ShortWord (key_to_string C e.keypair public e.slack)
      → ShortWord encrypted
      → session_generate_secret f.r f.l f.n ≡ done secret
      → IsCrypto C
      → f.elen ≡ C.rsa_size (string_to_key C (key_to_string C e.keypair public e.slack) public 0)
      → C.rsa_size e.keypair
        ≡ C.rsa_size (string_to_key C (key_to_string C e.keypair public e.slack) public 0)
      → encrypt_message C
          (string_to_key C (key_to_string C e.keypair public e.slack) public 0)
          secret
          f.elen
        ≡ done (some encrypted)
      → k.line ≡ some (first_char ∷ line)
      → Unread C D d e f g
          (first ∷ uuid)
          secret
          (digits_of (byte ∷ bytes))
          (digits_of (byte' ∷ bytes'))
          debug
          debug'
          ip
          ip'
          there
          there'
          k
          up.node
          up'.node
  start_up-Unread C D d e f g interface_ip interface_ip' file file' c c' i j i' j' byte byte' bytes
        bytes' up up' ip ip' there there' debug debug' first uuid secret encrypted first_char line k
        fits fits' differ has_debug has_debug' are_bytes id_fits key key' short drawn laws whole
        same enc typed =
      let theirs = string_to_key C (key_to_string C e.keypair public e.slack) public 0 in
      let sealed : encrypt_message C theirs secret (C.rsa_size theirs) ≡ done (some encrypted) =
        subst (λ (n : ℕ). encrypt_message C theirs secret n ≡ done (some encrypted)) whole enc in
      let met =
        start_up-Introduced C d e f g interface_ip interface_ip' file file' c c' i j i' j' byte
          byte' bytes bytes' up up' ip ip' there there' debug debug' first uuid secret encrypted
          none fits fits' differ has_debug has_debug' are_bytes id_fits key key' short drawn enc
          (λ at.
            never_opens C theirs e.keypair secret encrypted at laws same sealed
              (omega (arith, short.1))) in
      let ends = met.conversed.partner_ends in
      let q = met.conversed.opens in
      record {
        introduced = met;
        heard = λ msg beyond. Ends-heard D met.conversed.answers.next msg beyond q ends;
        typed = Ends-typed C D met.conversed.answers.next first_char line k q ends typed;
      }
