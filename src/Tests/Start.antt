-- ===== src/Tests/Start.antt =====
-- The start of a session and of a process, at states of Tests/World.antt.
use whisp.Prelude.{
  ℕ, ◌<◌, ◌≡◌, refl, false, Bool, none, some, Option, List, [], ◌∷◌, arith, All, length,
  if◌then◌else◌,
}
use whisp.CString.{Bytes, codes, strcmp_eq, sprintf, show_int, decimal, int32, atoi}
use whisp.Outcome.{done}
use whisp.Btree.Pointers.{first_text}
use whisp.Encryption.{up_to_nul, key_to_string}
use whisp.Peerstore.View.{peer_at}
use whisp.SessionControl.{session_generate_id}
use whisp.SessionControl.View.{session_at}
use whisp.SessionControl.Between.{has_between}
use whisp.SessionControl.Names.{digits_of}
use whisp.Authentication.Outgoing.{Fits}
use whisp.UserInput.Start.Offer.{
  CanStart, Started, offer, offer-IsShown, user_start_session-Started,
}
use whisp.App.{Settings, put, random_in_range, generate_ports}
use whisp.Main.{generate_log_path}
use whisp.Main.StartUp.{IsComplete, Ready, start_up-Ready}
use whisp.Tests.World.{PTree, STree, str, alice, met}
use whisp.Tests.Store.{met-StoreIsValid}
use whisp.Tests.Channel.{toy}
use whisp.Tests.Handshake.{draws, names_with, mine}

-- A UUID of small bytes, whose digits fit the buffer.
abbrev pub uuid : List ℕ
uuid = 1 ∷ 2 ∷ 3 ∷ 4 ∷ 5 ∷ 6 ∷ 7 ∷ 8 ∷ 9 ∷ 0 ∷ 1 ∷ 2 ∷ 3 ∷ 4 ∷ 5 ∷ 6 ∷ []

pub uuid_id : session_generate_id uuid ≡ done (codes "1234567890123456")
unfolding session_generate_id decimal
uuid_id = refl

pub knows_alice : peer_at met (codes "77") ≡ some 10
unfolding first_text strcmp_eq
knows_alice = refl

pub knows_bob : peer_at met (codes "88") ≡ some 20
unfolding first_text strcmp_eq
knows_bob = refl

pub apart : has_between 10 20 met.sessions [] ≡ false
unfolding has_between
apart = refl

pub no_session : session_at met (codes "1234567890123456") ≡ none
unfolding first_text
no_session = refl

abbrev pub met-CanStart : CanStart (codes "88") uuid met
met-CanStart = record {
  local = 10;
  foriegn = 20;
  text = codes "1234567890123456";
  l = alice;
  names = names_with (str 101 (codes "1234567890123456")) (str 11 (codes "77"));
  store = met-StoreIsValid;
  sessions = tt;
  peers = tt;
  knows_own = knows_alice;
  knows_other = knows_bob;
  apart = apart;
  at = refl;
  made = uuid_id;
  new = no_session;
  mine = mine;
}

first-Fits :
    Fits
      (offer toy draws (codes "88") uuid met met-CanStart)
      met
      met-CanStart.names
      (offer-IsShown toy draws (codes "88") uuid met met-CanStart)
unfolding sprintf show_int decimal int32 key_to_string up_to_nul
first-Fits = omega arith

user_start_session-Started_example : Started toy draws (codes "88") uuid met met-CanStart
user_start_session-Started_example =
    user_start_session-Started toy draws (codes "88") uuid met met-CanStart first-Fits

-- A settings file like the one of the repository, and a network with one interface.
abbrev pub file : Settings
file k =
    if strcmp_eq k (codes "ADDFAMILY")
    then some (codes "AF_INET")
    else if strcmp_eq k (codes "BGROUP")
    then some (codes "225.1.1.1")
    else if strcmp_eq k (codes "BPORT")
    then some (codes "9031")
    else if strcmp_eq k (codes "INTERFACE")
    then some (codes "enp0s3")
    else if strcmp_eq k (codes "INTERVAL")
    then some (codes "5")
    else if strcmp_eq k (codes "DEBUG")
    then some (codes "NO")
    else none

abbrev pub network : Bytes → Bool → Option Bytes
network interface six =
    if strcmp_eq interface (codes "enp0s3") then some (codes "10.0.0.7") else none

unfoldable pub file-IsComplete : IsComplete network file
unfolding strcmp_eq atoi
file-IsComplete = record {
  family = codes "AF_INET";
  interface = codes "enp0s3";
  ip = codes "10.0.0.7";
  group = codes "225.1.1.1";
  port = codes "9031";
  interval = codes "5";
  has_family = refl;
  has_interface = refl;
  has_ip = refl;
  has_group = refl;
  has_port = refl;
  has_interval = refl;
  nonzero = refl;
}

uuid-AreBytes : All (λ b. b < 256) uuid
uuid-AreBytes = ground arith

pub uuid_fits : length (digits_of uuid) < 24
unfolding digits_of decimal
uuid_fits = omega arith

start_up-Ready_example : Ready PTree STree network file file-IsComplete 7 8 uuid
start_up-Ready_example =
    start_up-Ready PTree STree network file file-IsComplete 7 8 uuid uuid-AreBytes uuid_fits

-- Both draws are seeded with the same second, and can give one port twice.
same_port_test :
    generate_ports 37_126_144 37_126_144 file
    ≡ done (put (codes "SECUREPORT") (codes "49152") (put (codes "TPORT") (codes "49152") file))
unfolding generate_ports random_in_range int32 show_int decimal
same_port_test = refl

log_path_test : generate_log_path (some (codes "/tmp/x")) ≡ done (some (codes "/tmp/x.log"))
unfolding generate_log_path sprintf
log_path_test = refl
