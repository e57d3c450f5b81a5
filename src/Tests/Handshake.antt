-- ===== src/Tests/Handshake.antt =====
-- The handshake, at states of Tests/World.antt.
use whisp.Prelude.{
  ◌==◌, ℕ, ◌+◌, ◌≡◌, refl, ap, none, some, [], ◌∷◌, ◌++◌, arith, if◌then◌else◌, true,
}
use whisp.CString.{Bytes, CStr, codes, strcmp_eq, sprintf, show_int, int32, decimal}
use whisp.Outcome.{done, set}
use whisp.Process.{
  Session, Process, pre_handshake, public_key_exchange, handshaking, connected, State,
}
use whisp.Serialization.Sessions.{show_slot}
use whisp.SessionControl.{session_generate_secret}
use whisp.Encryption.{public, up_to_nul, first_bytes, key_to_string, string_to_key, encrypt_message}
use whisp.Des.{in_memory}
use whisp.SecureChannel.{secure_channel_listener_resolve_with_session}
use whisp.Authentication.{Draws, put_session, authentication_session_update}
use whisp.Authentication.Outgoing.{Named, IsShown, Fits, packet, outgoing}
use whisp.Authentication.Frame.{Leaves, InState}
use whisp.Authentication.Steps.{offered, answered, kept, pre_handshake_lem}
use whisp.Authentication.Secret.{sealed, sealed-IsShown, opened, handshaking_lem}
use whisp.Authentication.Progress.{next_state, authentication_session_update-Follows}
use whisp.Tests.Channel.{toy}
use whisp.Tests.World.{PTree, STree, str, alice, bob, talk, talking, people, settings}

-- The session of `talk` in the other states, and what is drawn.
abbrev at_state : State → Session
at_state state = record talk { current_state = set state }

abbrev pub process_at : Session → Process PTree STree
process_at s = record talking { sessions = λ a. if a == 30 then some s else none }

abbrev pub draws : Draws
draws = record { keypair = 5; slack = 0; r = 0; l = 1; n = 7; elen = 20 }

pub own_guid : settings (codes "GUID") ≡ some (codes "77")
unfolding strcmp_eq
own_guid = refl

pub debugging : settings (codes "DEBUG") ≡ some (codes "YES")
unfolding strcmp_eq
debugging = refl

abbrev pub names_with :
    (id origin : CStr)
    → Named talk.local_peer talk.foriegn_peer (set id) (set origin) people settings
names_with id origin = record {
  local_at = 10;
  foriegn_at = 20;
  local_peer = alice;
  foriegn_peer = bob;
  local_guid = str 11 (codes "77");
  foriegn_guid = str 21 (codes "88");
  session_id = id;
  origin_guid = origin;
  ip = str 3 (codes "10.0.0.8");
  port = str 23 (codes "50001");
  own = codes "77";
  debug = codes "YES";
  is_local = refl;
  is_foriegn = refl;
  is_id = refl;
  is_origin_guid = refl;
  local_held = refl;
  foriegn_held = refl;
  local_named = refl;
  foriegn_named = refl;
  foriegn_ip = refl;
  foriegn_port = refl;
  has_guid = own_guid;
  has_debug = debugging;
}

abbrev names :
    Named talk.local_peer talk.foriegn_peer talk.session_id talk.session_origin_guid people settings
names = names_with (str 31 (codes "123")) (str 11 (codes "77"))

abbrev shows :
    (s : Session)
    → (secret local_key foriegn_key : Bytes) → (state : State) (len : ℕ)
    → show_slot s.shared_secret ≡ done secret
    → show_slot s.local_public_key ≡ done local_key
    → show_slot s.foriegn_public_key ≡ done foriegn_key
    → s.current_state ≡ set state
    → s.shared_secret_len ≡ set len
    → IsShown s
shows s secret local_key foriegn_key state len a b c d e = record {
  secret_text = secret;
  local_text = local_key;
  foriegn_text = foriegn_key;
  is_state = state;
  is_len = len;
  shows_secret = a;
  shows_local = b;
  shows_foriegn = c;
  in_state = d;
  has_len = e;
}

abbrev before : Process PTree STree
before = process_at (at_state pre_handshake)

abbrev offer : Session
offer = offered toy draws (at_state pre_handshake) before

key_text : key_to_string toy 5 public 0 ≡ codes "KEY"
unfolding key_to_string up_to_nul
key_text = refl

abbrev offer-IsShown : IsShown offer
offer-IsShown =
    shows offer (codes "Alpha-Beta-Hugo") (codes "KEY") (codes "PB") public_key_exchange 16 refl
      (ap (λ t. done t) key_text) refl refl refl

offer-Fits : Fits offer before names offer-IsShown
unfolding sprintf show_int decimal int32
offer-Fits = omega arith

abbrev after_offer : Process PTree STree
after_offer =
    if strcmp_eq (codes "77") (codes "77")
    then outgoing (packet offer before names offer-IsShown) (kept 30 offer (before.next + 1) before)
    else kept 30 offer (before.next + 1) before

offer_ran :
    authentication_session_update toy 30 draws before ≡ done (public_key_exchange, after_offer)
offer_ran =
    pre_handshake_lem toy 30 (at_state pre_handshake) draws before names offer-IsShown refl refl
      offer-Fits

authentication_session_update-Follows_example :
    (public_key_exchange ≡ next_state pre_handshake)
    × Leaves 30 before after_offer
    × InState 30 (at_state pre_handshake) (next_state pre_handshake) after_offer
authentication_session_update-Follows_example =
    authentication_session_update-Follows toy 30 (at_state pre_handshake) pre_handshake
      public_key_exchange draws before after_offer refl refl offer_ran

abbrev exchanging : Process PTree STree
exchanging = process_at (at_state public_key_exchange)

abbrev answer : Session
answer = answered toy draws (at_state public_key_exchange) exchanging

abbrev answer-IsShown : IsShown answer
answer-IsShown =
    shows answer (codes "Alpha-Beta-Hugo") (codes "PA") (codes "KEY") handshaking 16 refl refl
      (ap (λ t. done t) key_text) refl refl

answer-Fits : Fits answer exchanging names answer-IsShown
unfolding sprintf show_int decimal int32
answer-Fits = omega arith

abbrev shaking : Process PTree STree
shaking = process_at (at_state handshaking)

-- The secret under the toy key.
abbrev sealed_text : Bytes
sealed_text = b'#' ∷ first_bytes 20 (in_memory 20 (codes "Alpha-Beta-Hugo" ++ (0 ∷ [])) (λ i. 0))

abbrev sealed_session : Session
sealed_session = sealed sealed_text (at_state handshaking) shaking

abbrev sealed_shown : IsShown sealed_session
sealed_shown =
    sealed-IsShown sealed_text (codes "PA") (str 33 (codes "PB")) (at_state handshaking) shaking
      refl refl

pub mine : strcmp_eq (codes "77") (codes "77") ≡ true
unfolding strcmp_eq
mine = refl

secret_drawn : session_generate_secret 0 1 7 ≡ done (codes "Alpha-Beta-Hugo")
unfolding session_generate_secret sprintf
secret_drawn = refl

secret_sealed :
    encrypt_message toy (string_to_key toy (codes "PB") public 0) (codes "Alpha-Beta-Hugo") 20
    ≡ done (some sealed_text)
unfolding encrypt_message string_to_key
secret_sealed = refl

sealed-Fits : Fits sealed_session shaking names sealed_shown
unfolding sprintf show_int decimal int32 in_memory
sealed-Fits = omega arith

handshaking_lem_example :
    authentication_session_update toy 30 draws shaking
    ≡ done (
      connected,
      secure_channel_listener_resolve_with_session 30 (
          put_session 30
            (opened (codes "Alpha-Beta-Hugo") sealed_text (at_state handshaking) shaking)
            (outgoing
              (packet sealed_session shaking names sealed_shown)
              (kept 30 sealed_session (shaking.next + 1 + 1) shaking))),
    )
handshaking_lem_example =
    handshaking_lem toy 30 (at_state handshaking) draws (codes "Alpha-Beta-Hugo") sealed_text
      (codes "PA") (str 33 (codes "PB")) shaking names refl refl mine refl refl secret_drawn
      secret_sealed sealed-Fits

-- A session that the other peer started.
abbrev pub guest : Session
guest = record talk { session_origin_guid = set (str 21 (codes "88")) }
