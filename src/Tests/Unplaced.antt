-- ===== src/Tests/Unplaced.antt =====
-- A message that brings a session with no peers, in the state 0 (src/net/passive.c).
use whisp.Prelude.{◌≡◌, refl, none, some, [], ◌∷◌, ◌==◌, arith, if◌then◌else◌}
use whisp.CString.{codes, strcmp_eq, tokens, atoi}
use whisp.Outcome.{done, fault, undefined, set}
use whisp.Btree.Pointers.{first_text}
use whisp.Process.{Session, Process, closing, tree, state_of_int}
use whisp.Serialization.Sessions.{
  fresh_session, session_key, session_loop, set_session_field, deserialize_session_data,
}
use whisp.SessionControl.{
  session_check_exists_by_id, session_count, session_add, sessions_in, exists_loop,
}
use whisp.SessionControl.View.{session_at}
use whisp.Authentication.{authentication_session_update}
use whisp.Passive.{session_received, passive_listener_callback}
use whisp.Passive.Place.{arrived, Arrives}
use whisp.UserInput.{user_start_session}
use whisp.UserInput.Start.Unplaced.{session_received-user_start_session}
use whisp.Sound.{Keeps}
use whisp.Sound.Received.{passive_listener_callback-Keeps}
use whisp.Tests.World.{PTree, STree, str, met}
use whisp.Tests.Store.{met-StoreIsValid}
use whisp.Tests.Channel.{toy}
use whisp.Tests.Handshake.{draws}
use whisp.Tests.Start.{uuid, knows_alice, knows_bob, apart}

abbrev lost : Session
lost = record fresh_session { session_id = set (str 101 (codes "5")); current_state = set closing }

-- The process after the message.
abbrev burdened : Process PTree STree
burdened = record met {
  session_tree = tree ((str 101 (codes "5"), 100) ∷ []);
  sessions = λ a. if 100 == a then some lost else none;
  next = 102;
}

message_ran :
    passive_listener_callback toy (codes "SESSION_ID:5:CURRENT_STATE:0:") 29 draws met
    ≡ done burdened
unfolding passive_listener_callback session_received deserialize_session_data session_loop
    session_key set_session_field tokens strcmp_eq atoi state_of_int session_check_exists_by_id
    session_add session_count sessions_in exists_loop authentication_session_update
message_ran = refl

passive_listener_callback-Keeps_example : Keeps met burdened
passive_listener_callback-Keeps_example =
    passive_listener_callback-Keeps toy (codes "SESSION_ID:5:CURRENT_STATE:0:") 29 draws met
      burdened (record { store = met-StoreIsValid; sessions = tt }) message_ran

lost-Arrives : Arrives 100 lost (str 101 (codes "5")) 102 met
lost-Arrives = record {
  state = closing;
  named = refl;
  in_state = refl;
  fresh = omega arith;
  key_fresh = omega arith;
  below = omega arith;
  key_below = omega arith;
}

no_five : session_at met (codes "5") ≡ none
unfolding first_text
no_five = refl

own_guid : met.configuration (codes "GUID") ≡ some (codes "77")
unfolding strcmp_eq
own_guid = refl

session_received-user_start_session_example :
    (q : Process PTree STree) × (session_received toy 100 draws (arrived 100 lost 102 met) ≡ done q)
    × (session_at q (codes "5") ≡ some 100)
    × (user_start_session toy (codes "88") uuid draws q ≡ fault undefined)
session_received-user_start_session_example =
    session_received-user_start_session toy 100 lost (str 101 (codes "5")) 102 draws draws closing
      (codes "77") (codes "88") 10 20 uuid met met-StoreIsValid tt lost-Arrives no_five refl refl tt
      own_guid knows_alice knows_bob apart
