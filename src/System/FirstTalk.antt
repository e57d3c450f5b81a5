-- ===== src/System/FirstTalk.antt =====
-- From the start of two processes (`main` of src/main/main.c) over their pulses (src/net/discovery.c) and the
-- handshake that the user of one begins (src/app/userinput.c, src/net/passive.c) to connected sessions.
use whisp.Prelude.{
  ℕ, ◌<◌, ◌≡◌, ◌≢◌, refl, ◌∙◌, sym, Bool, Option, some, List, ◌∷◌, length, All, inr, ltb-true,
}
use whisp.CString.{Bytes, CStr, codes, int32}
use whisp.CString.Tokens.{IsWord}
use whisp.Outcome.{done, set}
use whisp.Btree.{BTree}
use whisp.Process.{size_of_int, peer_tree_compare, session_tree_compare}
use whisp.SessionControl.{session_generate_id, session_generate_secret}
use whisp.SessionControl.Names.{digits_of, session_generate_id_lem}
use whisp.Encryption.{
  Crypto, public, key_to_string, string_to_key, encrypt_message, decrypt_message,
}
use whisp.Authentication.{Draws}
use whisp.App.{Settings}
use whisp.Main.{Node}
use whisp.Main.StartUp.{IsComplete, Ready}
use whisp.Main.Announce.{digits_of-IsWord}
use whisp.UserInput.Conversation.Whole.{Conversed, user_start_session-Conversed}
use whisp.System.Acquainted.{can_start}
use whisp.System.Letters.{can_answer, Acquainted-Letters}
use whisp.System.Beginning.{strcmp_eq-apart, Meets, start_up-Meets}

-- The id of a session, made of a UUID whose digits fit.
made_of :
    (uuid : List ℕ)
    → All (λ x. x < 256) uuid
    → length (digits_of uuid) < 24
    → session_generate_id uuid ≡ done (digits_of uuid)
made_of uuid h fits =
    session_generate_id_lem uuid h ∙ rw (ltb-true (length (digits_of uuid)) 24 fits) refl

-- A text that can be sent in a message: a word, and short.
abbrev pub ShortWord : Bytes → Type 0
ShortWord t = IsWord t × (length t < 1000)

module _ {P : BTree peer_tree_compare} {S : BTree session_tree_compare} where
  -- Both processes over their pulses to the end of a handshake between them.
  pub record Introduced (C : Crypto) (d e f g : Draws) (uuid : List ℕ) (secret : Bytes)
      (decrypted : Option Bytes) (own guid debug debug' : Bytes) (ip ip' there there' : CStr)
      (m n : Node P S) : Type 0 where
    pub mine : Meets m n ip ip' own guid debug
    pub theirs : Meets n m there there' guid own debug'
    pub local : ℕ
    pub foriegn : ℕ
    pub conversed : Conversed C d e f g guid uuid secret decrypted local foriegn mine.met theirs.met

  -- Two processes come up with complete settings and different UUIDs, whatever ports they draw. Each gets
  -- its own first pulse and then the other's, each without undefined behaviour or a failed check. Then the
  -- user of the first starts a session with the second under the GUID that it announced: three packets
  -- bring both to connected sessions that they listen for, the first under the secret that it draws, the
  -- other with what the keypair that it drew decrypts of it. The digits of the UUIDs must fit their
  -- buffers, and the public keys and the encrypted secret be words of less than 1000 bytes.
  pub start_up-Introduced :
      (C : Crypto) (d e f g : Draws) (interface_ip interface_ip' : Bytes → Bool → Option Bytes)
      (file file' : Settings) (c : IsComplete interface_ip file)
      (c' : IsComplete interface_ip' file') (i j i' j' byte byte' : ℕ) (bytes bytes' : List ℕ)
      (up : Ready P S interface_ip file c i j (byte ∷ bytes))
      (up' : Ready P S interface_ip' file' c' i' j' (byte' ∷ bytes')) (ip ip' there there' : CStr)
      (debug debug' : Bytes) (first : ℕ) (uuid : List ℕ) (secret encrypted : Bytes)
      (decrypted : Option Bytes)
      → length (digits_of (byte ∷ bytes)) < 24
      → length (digits_of (byte' ∷ bytes')) < 24
      → digits_of (byte ∷ bytes) ≢ digits_of (byte' ∷ bytes')
      → file (codes "DEBUG") ≡ some debug
      → file' (codes "DEBUG") ≡ some debug'
      → All (λ x. x < 256) (first ∷ uuid)
      → length (digits_of (first ∷ uuid)) < 24
      → ShortWord (key_to_string C d.keypair public d.slack)
      → ShortWord (key_to_string C e.keypair public e.slack)
      → ShortWord encrypted
      → session_generate_secret f.r f.l f.n ≡ done secret
      → encrypt_message C
          (string_to_key C (key_to_string C e.keypair public e.slack) public 0)
          secret
          f.elen
        ≡ done (some encrypted)
      → ((at : ℕ)
          → decrypt_message C
              (set e.keypair)
              (set (record { at = at; text = encrypted }))
              (size_of_int (int32 (length encrypted)))
            ≡ done decrypted)
      → Introduced C d e f g
          (first ∷ uuid)
          secret
          decrypted
          (digits_of (byte ∷ bytes))
          (digits_of (byte' ∷ bytes'))
          debug
          debug'
          ip
          ip'
          there
          there'
          up.node
          up'.node
  start_up-Introduced C d e f g interface_ip interface_ip' file file' c c' i j i' j' byte byte'
        bytes bytes' up up' ip ip' there there' debug debug' first uuid secret encrypted decrypted
        fits fits' differ has_debug has_debug' are_bytes id_fits key key' short drawn enc opens =
      let own = digits_of (byte ∷ bytes) in
      let guid = digits_of (byte' ∷ bytes') in
      let text = digits_of (first ∷ uuid) in
      let made = made_of (first ∷ uuid) are_bytes id_fits in
      let apart = strcmp_eq-apart own guid differ in
      let apart' = strcmp_eq-apart guid own (λ e. differ (sym e)) in
      let mine =
        start_up-Meets interface_ip interface_ip' file file' c c' i j i' j' byte byte' bytes bytes'
          up up' ip ip' debug fits fits' differ has_debug in
      let theirs =
        start_up-Meets interface_ip' interface_ip file' file c' c i' j' i j byte' byte bytes' bytes
          up' up there there' debug' fits' fits (λ e. differ (sym e)) has_debug' in
      let p = mine.met in
      let q = theirs.met in
      let a = mine.acquainted in
      let b = theirs.acquainted in
      let h = can_start own guid debug text (first ∷ uuid) p a made in
      let k = can_answer C d own guid debug debug' text (first ∷ uuid) p q a b made apart apart' in
      record {
        mine = mine;
        theirs = theirs;
        local = h.foriegn;
        foriegn = k.other_at;
        conversed =
            user_start_session-Conversed C d e f g guid (first ∷ uuid) secret encrypted decrypted p
              q h k apart' (inr (b.is_own, b.is_other))
              (Acquainted-Letters C d e own guid debug debug' text encrypted (first ∷ uuid) p q a b
                made apart apart' (digits_of-IsWord byte bytes, fits)
                (digits_of-IsWord byte' bytes', fits') (digits_of-IsWord first uuid, id_fits) key
                key' short)
              drawn enc opens;
      }
