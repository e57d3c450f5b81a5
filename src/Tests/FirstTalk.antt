-- ===== src/Tests/FirstTalk.antt =====
-- Two processes from their start to a conversation.
use whisp.Des.{in_memory}
use whisp.Prelude.{none, ◌<◌, ◌≡◌, ◌≢◌, refl, some, [], ◌∷◌, length, All, arith}
use whisp.CString.{codes, strcmp_eq, decimal}
use whisp.CString.Tokens.{strcmp_eq_iff}
use whisp.SessionControl.Names.{digits_of}
use whisp.Encryption.{public, key_to_string, up_to_nul}
use whisp.System.FirstTalk.{ShortWord, Introduced, start_up-Introduced}
use whisp.Tests.World.{str}
use whisp.Tests.Channel.{shift}
use whisp.Tests.Handshake.{draws}
use whisp.Tests.Partner.{lawful, sealed_secret, secret_drawn}
use whisp.Tests.Conversation.{secret_sealed_again, secret_opens_anywhere}
use whisp.Tests.Start.{uuid, uuid_fits, file, network, file-IsComplete}
use whisp.Tests.System.{other_uuid, ready, other_ready}

pub file_debug : file (codes "DEBUG") ≡ some (codes "NO")
unfolding strcmp_eq
file_debug = refl

pub other_fits : length (digits_of other_uuid) < 24
unfolding digits_of decimal
other_fits = omega arith

pub guids_differ : digits_of uuid ≢ digits_of other_uuid
unfolding digits_of decimal strcmp_eq
guids_differ e =
    let same = (strcmp_eq_iff (digits_of uuid) (digits_of other_uuid)).1 e in ground (arith, same)

pub uuid-AreBytes : All (λ x. x < 256) uuid
uuid-AreBytes = ground arith

pub key-ShortWord : ShortWord (key_to_string lawful 5 public 0)
unfolding key_to_string up_to_nul
key-ShortWord = ground arith

pub secret-ShortWord : ShortWord sealed_secret
unfolding shift in_memory
secret-ShortWord = ground arith

start_up-Introduced_example :
    Introduced lawful draws draws draws draws uuid
      (codes "Alpha-Beta-Hugo")
      none
      (digits_of uuid)
      (digits_of other_uuid)
      (codes "NO")
      (codes "NO")
      (str 90 (codes "10.0.0.7"))
      (str 91 (codes "10.0.0.8"))
      (str 90 (codes "10.0.0.8"))
      (str 91 (codes "10.0.0.7"))
      ready.node
      other_ready.node
start_up-Introduced_example =
    start_up-Introduced lawful draws draws draws draws network network file file file-IsComplete
      file-IsComplete 7 8 7 8 1 9 (2 ∷ 3 ∷ 4 ∷ 5 ∷ 6 ∷ 7 ∷ 8 ∷ 9 ∷ 0 ∷ 1 ∷ 2 ∷ 3 ∷ 4 ∷ 5 ∷ 6 ∷ [])
      (9 ∷ 3 ∷ 4 ∷ 5 ∷ 6 ∷ 7 ∷ 8 ∷ 9 ∷ 0 ∷ 1 ∷ 2 ∷ 3 ∷ 4 ∷ 5 ∷ 6 ∷ []) ready other_ready
      (str 90 (codes "10.0.0.7")) (str 91 (codes "10.0.0.8")) (str 90 (codes "10.0.0.8"))
      (str 91 (codes "10.0.0.7")) (codes "NO") (codes "NO") 1
      (2 ∷ 3 ∷ 4 ∷ 5 ∷ 6 ∷ 7 ∷ 8 ∷ 9 ∷ 0 ∷ 1 ∷ 2 ∷ 3 ∷ 4 ∷ 5 ∷ 6 ∷ []) (codes "Alpha-Beta-Hugo")
      sealed_secret none uuid_fits other_fits guids_differ file_debug file_debug uuid-AreBytes
      uuid_fits key-ShortWord key-ShortWord secret-ShortWord secret_drawn secret_sealed_again
      secret_opens_anywhere
