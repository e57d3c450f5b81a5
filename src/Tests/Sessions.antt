-- ===== src/Tests/Sessions.antt =====
-- The sessions, at states of Tests/World.antt.
use whisp.Prelude.{
  ◌<◌, ◌≤◌, ltb, if◌then◌else◌, ℕ, ◌+◌, ◌≡◌, refl, none, some, List, [], ◌∷◌, arith, All, length,
}
use whisp.CString.{codes, strcmp_eq, sprintf, decimal}
use whisp.Outcome.{done, fault, undefined, set}
use whisp.Btree.{find}
use whisp.Btree.Pointers.{first_text}
use whisp.Process.{tree, error, connected, session_tree_compare}
use whisp.SessionControl.Between.{has_between, session_check_exists_lem}
use whisp.SessionControl.Connected.{connected_of, in_connection, connected_list}
use whisp.SessionControl.Names.{
  joined, digits_of, session_generate_secret_lem, session_generate_id_lem,
}
use whisp.SessionControl.{
  secret_name, session_check_exists, session_generate_secret, session_generate_id,
  session_get_state, found_session,
}
use whisp.SessionControl.Exists.{SameAnswer, session_check_exists_by_id_lem}
use whisp.SessionControl.View.{SessionsAreValid, session_at, session_get_state_other_pointer}
use whisp.SessionControl.Create.{Created, session_create_lem}
use whisp.SessionControl.Destroy.{Destroyed, session_destroy_lem}
use whisp.Tests.World.{STree, str, alice, talk, talking}

pub talking-SessionsAreValid : SessionsAreValid talking
talking-SessionsAreValid = record {
  held = (
    record {
      session = talk;
      state = connected;
      at = refl;
      named = refl;
      in_state = refl;
      key_below = omega arith;
      below = omega arith;
    },
    tt,
  );
  distinct = omega arith;
}

secret_test : session_generate_secret 0 1 7 ≡ done (codes "Alpha-Beta-Hugo")
unfolding session_generate_secret sprintf
secret_test = refl

secret_overflow_test : session_generate_secret 8 8 8 ≡ fault undefined
unfolding session_generate_secret sprintf
secret_overflow_test = refl

-- A UUID of small bytes, whose digits fit the buffer.
abbrev small_uuid : List ℕ
small_uuid = 1 ∷ 2 ∷ 3 ∷ 4 ∷ 5 ∷ 6 ∷ 7 ∷ 8 ∷ 9 ∷ 0 ∷ 1 ∷ 2 ∷ 3 ∷ 4 ∷ 5 ∷ 6 ∷ []

small_id : session_generate_id small_uuid ≡ done (codes "1234567890123456")
unfolding session_generate_id decimal
small_id = refl

talk_found : found_session (session_at talking (codes "123")) ≡ (1, set 30)
unfolding first_text strcmp_eq
talk_found = refl

session_check_exists_by_id_lem_example : SameAnswer (codes "123") talking
session_check_exists_by_id_lem_example =
    session_check_exists_by_id_lem (codes "123") talking talking-SessionsAreValid

-- The id of the connected session, in another buffer.
session_get_state_other_pointer_example :
    session_get_state (str 60 (codes "123")) talking ≡ done error
session_get_state_other_pointer_example =
    session_get_state_other_pointer (str 60 (codes "123")) talking talking-SessionsAreValid
      (omega arith)

id_is_new : session_at talking (codes "1234567890123456") ≡ none
unfolding first_text strcmp_eq
id_is_new = refl

session_create_lem_example : Created 10 20 small_uuid (codes "1234567890123456") alice talking
session_create_lem_example =
    session_create_lem 10 20 small_uuid (codes "1234567890123456") alice talking
      talking-SessionsAreValid refl small_id id_is_new

talk_listed :
    find session_tree_compare (str 31 (codes "123")) ((str 31 (codes "123"), 30) ∷ []) ≡ some 30
unfolding find session_tree_compare
talk_listed = refl

session_destroy_lem_example : Destroyed 30 (str 31 (codes "123")) talking
session_destroy_lem_example =
    session_destroy_lem 30 talk (str 31 (codes "123")) talking talking-SessionsAreValid refl refl
      talk_listed (record { secret = (cc); foriegn_key = (cc); local_key = (cc) })

session_generate_secret_lem_example :
    (session_generate_secret 0 1 7 ≡ (
      if ltb (length (secret_name 0) + length (secret_name 1) + length (secret_name 7)) 22
      then done (joined (secret_name 0) (secret_name 1) (secret_name 7))
      else fault undefined))
    × (8 ≤ length (joined (secret_name 0) (secret_name 1) (secret_name 7)))
session_generate_secret_lem_example = session_generate_secret_lem 0 1 7

small_uuid-AreBytes : All (λ b. b < 256) small_uuid
small_uuid-AreBytes = ground arith

session_generate_id_lem_example : session_generate_id small_uuid ≡ (
    if ltb (length (digits_of small_uuid)) 24 then done (digits_of small_uuid) else fault undefined)
session_generate_id_lem_example = session_generate_id_lem small_uuid small_uuid-AreBytes

talk_connected : connected_list talking.sessions ((str 31 (codes "123"), 30) ∷ []) ≡ some (30 ∷ [])
unfolding connected_of in_connection
talk_connected = refl

session_check_exists_lem_example :
    (t : STree.Tree) × (session_check_exists 10 20 talking
      ≡ done (
        if has_between 10 20 talking.sessions ((str 31 (codes "123"), 30) ∷ []) then 1 else 0,
        record talking { session_tree = tree t },
      ))
    × (STree.entries t ≡ (str 31 (codes "123"), 30) ∷ [])
session_check_exists_lem_example =
    session_check_exists_lem 10 20 talking talking-SessionsAreValid
      (record { session = talk; at = refl; local_peer = cc; foriegn_peer = cc }, tt)
