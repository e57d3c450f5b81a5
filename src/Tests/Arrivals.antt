-- ===== src/Tests/Arrivals.antt =====
-- Sessions that arrive and are added, at states of Tests/World.antt.
use whisp.Prelude.{◌<◌, inl, ◌≡◌, refl, none, some, [], ◌∷◌, arith, length}
use whisp.CString.{Bytes, codes, strcmp_eq, sprintf, show_int, decimal, int32, pos}
use whisp.Outcome.{done, unset, set, ◌>>=◌}
use whisp.Btree.{find}
use whisp.Btree.Pointers.{first_text}
use whisp.Process.{Session, Process, size_of_int, handshaking, session_tree_compare}
use whisp.SessionControl.View.{SessionsAreValid, session_at}
use whisp.Serialization.{okay}
use whisp.Serialization.Sessions.{
  Wire, wire_of, wire_args, session_frame, serialize_session_data, deserialize_session_data,
}
use whisp.Serialization.Sessions.RoundTrip.{
  Knows, read_session, after_read, deserialize_session_data-serialize_session_data,
}
use whisp.Passive.Place.{Arrives, Settles, session_received_new}
use whisp.Passive.Replace.{Supersedes, session_received_known}
use whisp.Passive.Adopt.{adopted}
use whisp.Passive.Agreement.{read_secret}
use whisp.Encryption.{decrypt_message, text_in}
use whisp.Tests.World.{PTree, STree, str, talk, talking, met}
use whisp.Tests.Channel.{toy}
use whisp.Tests.Handshake.{draws, guest, process_at}
use whisp.Tests.Sessions.{talking-SessionsAreValid}
use whisp.Tests.Store.{met-StoreIsValid}

-- A session that was read at 100, under an id.
abbrev read_at : Bytes → Session
read_at id = record talk {
  local_keypair = unset;
  session_id = set (str 102 id);
  current_state = set handshaking;
}

arrives : (id : Bytes) → Arrives 100 (read_at id) (str 102 id) 106 talking
arrives id = record {
  state = handshaking;
  named = refl;
  in_state = refl;
  fresh = omega arith;
  key_fresh = omega arith;
  below = omega arith;
  key_below = omega arith;
}

new_id : session_at talking (codes "999") ≡ none
unfolding first_text strcmp_eq
new_id = refl

session_received_new_example :
    Settles toy 100
      (read_at (codes "999"))
      (str 102 (codes "999"))
      106
      draws
      (read_at (codes "999"))
      talking
session_received_new_example =
    session_received_new toy 100 (read_at (codes "999")) (str 102 (codes "999")) 106 draws talking
      talking-SessionsAreValid (arrives (codes "999")) new_id

old_listed :
    find session_tree_compare (str 31 (codes "123")) ((str 31 (codes "123"), 30) ∷ []) ≡ some 30
unfolding find session_tree_compare
old_listed = refl

old_id : session_at talking (codes "123") ≡ some 30
unfolding first_text strcmp_eq
old_id = refl

session_received_known_example :
    Supersedes toy 30 100
      (read_at (codes "123"))
      (str 102 (codes "123"))
      106
      draws
      (adopted (set 5) (read_at (codes "123")))
      talking
session_received_known_example =
    session_received_known toy 30 100 talk (read_at (codes "123")) (str 31 (codes "123"))
      (str 102 (codes "123")) 106 draws talking talking-SessionsAreValid (arrives (codes "123"))
      (record {
        at = refl;
        named = refl;
        found = old_listed;
        text = refl;
        there = old_id;
        only = (λ e. refl, tt);
        below = omega arith;
        readable = record { secret = (cc); foriegn_key = (cc); local_key = (cc) };
        origin = str 11 (codes "77");
        has_origin = refl;
        keypair = cc;
      })

abbrev talk_wire : Wire
talk_wire = record {
  local_guid = codes "77";
  foriegn_guid = codes "88";
  secret = codes "Alpha-Beta-Hugo";
  state = pos 6;
  id = codes "123";
  origin = codes "77";
  local_key = codes "PA";
  foriegn_key = codes "PB";
  secret_len = pos 16;
}

talk_wired : wire_of 30 talking ≡ done talk_wire
unfolding wire_of int32
talk_wired = refl

talk_fits : length (sprintf session_frame (wire_args talk_wire)) < 6000
unfolding sprintf show_int decimal
talk_fits = omega arith

met-Knows : Knows (codes "77") (codes "88") 10 20 met
unfolding first_text strcmp_eq
met-Knows = record {
  valid = met-StoreIsValid;
  configured = refl;
  differ = refl;
  own_at = refl;
  other_at = refl;
}

deserialize_session_data-serialize_session_data_example :
    (serialize_session_data 30 talking >>= λ sent. deserialize_session_data sent.0 sent.1 met)
    ≡ done (okay, some (100, read_session talk_wire 10 20 101), after_read met)
deserialize_session_data-serialize_session_data_example =
    deserialize_session_data-serialize_session_data 30 talk_wire (codes "77") (codes "88") 10 20
      talking met talk_wired (ground arith) talk_fits met-Knows (inl (refl, refl))

-- A session that waits for its secret, and the message with it.
abbrev waiting : Process PTree STree
waiting = process_at (record guest { current_state = set handshaking })

waiting-SessionsAreValid : SessionsAreValid waiting
waiting-SessionsAreValid = record {
  held = (
    record {
      session = record guest { current_state = set handshaking };
      state = handshaking;
      at = refl;
      named = refl;
      in_state = refl;
      key_below = omega arith;
      below = omega arith;
    },
    tt,
  );
  distinct = omega arith;
}

abbrev secret_wire : Wire
secret_wire = record {
  local_guid = codes "88";
  foriegn_guid = codes "77";
  secret = codes "#hi";
  state = pos 6;
  id = codes "123";
  origin = codes "88";
  local_key = codes "PA";
  foriegn_key = codes "PB";
  secret_len = pos 4;
}

waiting-Knows : Knows (codes "77") (codes "88") 10 20 waiting
unfolding first_text strcmp_eq
waiting-Knows = record {
  valid = met-StoreIsValid;
  configured = refl;
  differ = refl;
  own_at = refl;
  other_at = refl;
}

hi_opens :
    decrypt_message toy (set 5) (set (read_secret secret_wire 100)) (size_of_int (pos 4))
    ≡ done (some (codes "hi"))
unfolding decrypt_message text_in size_of_int
hi_opens = refl

waiting_id : session_at waiting (codes "123") ≡ some 30
unfolding first_text strcmp_eq
waiting_id = refl
