-- ===== src/Tests/Conversation.antt =====
-- A whole handshake between two processes that know each other.
use whisp.Prelude.{ℕ, length, ◌≡◌, refl, inr, none, some, arith}
use whisp.CString.{codes, strcmp_eq, sprintf, show_int, decimal, int32}
use whisp.Outcome.{done, set}
use whisp.Btree.Pointers.{first_text}
use whisp.Process.{Process, size_of_int}
use whisp.Serialization.Sessions.{Wire}
use whisp.Serialization.Sessions.RoundTrip.{Knows}
use whisp.Des.{in_memory}
use whisp.Encryption.{
  public, key_to_string, string_to_key, up_to_nul, text_in, encrypt_message, decrypt_message,
}
use whisp.SessionControl.View.{session_at}
use whisp.UserInput.Conversation.{first_wire, CanAnswer, Letters}
use whisp.UserInput.Conversation.Whole.{Conversed, user_start_session-Conversed}
use whisp.Tests.World.{PTree, STree, str, met}
use whisp.Tests.Store.{met-StoreIsValid}
use whisp.Tests.Channel.{shift, unshift}
use whisp.Tests.Handshake.{draws}
use whisp.Tests.Partner.{
  lawful, sealed_secret, secret_drawn, partner_settings, partner_names_with, their_origin,
}
use whisp.Tests.Start.{uuid, met-CanStart}

-- The other process, whose own GUID is 88.
abbrev other_met : Process PTree STree
other_met = record met { configuration = partner_settings }

other-Knows : Knows (codes "88") (codes "77") 20 10 other_met
unfolding first_text strcmp_eq
other-Knows = record {
  valid = met-StoreIsValid;
  configured = refl;
  differ = refl;
  own_at = refl;
  other_at = refl;
}

no_session_there : session_at other_met (codes "1234567890123456") ≡ none
unfolding first_text
no_session_there = refl

abbrev opening : Wire
opening = first_wire lawful draws (codes "88") uuid met met-CanStart

abbrev other-CanAnswer : CanAnswer opening other_met
other-CanAnswer = record {
  own = codes "88";
  other = codes "77";
  own_at = 20;
  other_at = 10;
  names = partner_names_with (str 102 (codes "1234567890123456")) (str 103 (codes "77"));
  sessions = tt;
  knows = other-Knows;
  both = inr (refl, refl);
  new = no_session_there;
  theirs = their_origin;
}

letters :
    Letters lawful draws draws
      (codes "88")
      uuid
      sealed_secret
      met
      other_met
      met-CanStart
      other-CanAnswer
unfolding sprintf show_int decimal int32 key_to_string up_to_nul shift size_of_int in_memory
letters = record {
  first_fits = omega arith;
  first_words = ground arith;
  second_fits = omega arith;
  second_words = ground arith;
  third_fits = omega arith;
  third_words = ground arith;
}

pub secret_sealed_again :
    encrypt_message lawful
      (string_to_key lawful (key_to_string lawful 5 public 0) public 0)
      (codes "Alpha-Beta-Hugo")
      20
    ≡ done (some sealed_secret)
unfolding encrypt_message string_to_key key_to_string in_memory
secret_sealed_again = refl

pub secret_opens_anywhere :
    (at : ℕ)
    → decrypt_message lawful
        (set 5)
        (set (record { at = at; text = sealed_secret }))
        (size_of_int (int32 (length sealed_secret)))
      ≡ done none
unfolding decrypt_message text_in size_of_int int32 shift unshift in_memory
secret_opens_anywhere at = refl

user_start_session-Conversed_example :
    Conversed lawful draws draws draws draws
      (codes "88")
      uuid
      (codes "Alpha-Beta-Hugo")
      none
      20
      10
      met
      other_met
user_start_session-Conversed_example =
    user_start_session-Conversed lawful draws draws draws draws (codes "88") uuid
      (codes "Alpha-Beta-Hugo") sealed_secret none met other_met met-CanStart other-CanAnswer
      their_origin (inr (refl, refl)) letters secret_drawn secret_sealed_again secret_opens_anywhere
