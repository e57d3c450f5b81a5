-- ===== src/Tests/Unread.antt =====
-- A line typed into a first conversation whose secret was not decrypted.
use whisp.Prelude.{refl, some, [], ◌∷◌}
use whisp.CString.{codes}
use whisp.UserInput.{Typed}
use whisp.System.Unread.{Unread, start_up-Unread}
use whisp.SessionControl.Names.{digits_of}
use whisp.Tests.World.{str}
use whisp.Tests.Channel.{toy_cipher}
use whisp.Tests.Handshake.{draws}
use whisp.Tests.Partner.{lawful, lawful-IsCrypto, sealed_secret, secret_drawn}
use whisp.Tests.Conversation.{secret_sealed_again}
use whisp.Tests.Start.{uuid, uuid_fits, file, network, file-IsComplete}
use whisp.Tests.System.{other_uuid, ready, other_ready}
use whisp.Tests.FirstTalk.{
  file_debug, other_fits, guids_differ, uuid-AreBytes, key-ShortWord, secret-ShortWord,
}

abbrev greeting : Typed
greeting = record { line = some (codes "hi\n"); capacity = 120; uuid = []; draws = draws }

start_up-Unread_example :
    Unread lawful toy_cipher draws draws draws draws uuid
      (codes "Alpha-Beta-Hugo")
      (digits_of uuid)
      (digits_of other_uuid)
      (codes "NO")
      (codes "NO")
      (str 90 (codes "10.0.0.7"))
      (str 91 (codes "10.0.0.8"))
      (str 90 (codes "10.0.0.8"))
      (str 91 (codes "10.0.0.7"))
      greeting
      ready.node
      other_ready.node
start_up-Unread_example =
    start_up-Unread lawful toy_cipher draws draws draws draws network network file file
      file-IsComplete file-IsComplete 7 8 7 8 1 9
      (2 ∷ 3 ∷ 4 ∷ 5 ∷ 6 ∷ 7 ∷ 8 ∷ 9 ∷ 0 ∷ 1 ∷ 2 ∷ 3 ∷ 4 ∷ 5 ∷ 6 ∷ [])
      (9 ∷ 3 ∷ 4 ∷ 5 ∷ 6 ∷ 7 ∷ 8 ∷ 9 ∷ 0 ∷ 1 ∷ 2 ∷ 3 ∷ 4 ∷ 5 ∷ 6 ∷ []) ready other_ready
      (str 90 (codes "10.0.0.7")) (str 91 (codes "10.0.0.8")) (str 90 (codes "10.0.0.8"))
      (str 91 (codes "10.0.0.7")) (codes "NO") (codes "NO") 1
      (2 ∷ 3 ∷ 4 ∷ 5 ∷ 6 ∷ 7 ∷ 8 ∷ 9 ∷ 0 ∷ 1 ∷ 2 ∷ 3 ∷ 4 ∷ 5 ∷ 6 ∷ []) (codes "Alpha-Beta-Hugo")
      sealed_secret b'h' (b'i' ∷ b'\n' ∷ []) greeting uuid_fits other_fits guids_differ file_debug
      file_debug uuid-AreBytes uuid_fits key-ShortWord key-ShortWord secret-ShortWord secret_drawn
      lawful-IsCrypto refl refl secret_sealed_again refl
