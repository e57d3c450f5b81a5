-- ===== src/Tests/Partner.antt =====
-- RSA that keeps its documented laws, and the other peer of a handshake, at states of Tests/World.antt.
use whisp.Prelude.{◌≡◌, refl, Option, some, false, [], ◌∷◌, ◌++◌, arith, if◌then◌else◌}
use whisp.CString.{Bytes, CStr, codes, strcmp_eq, sprintf}
use whisp.Outcome.{done, set}
use whisp.SessionControl.{session_generate_secret}
use whisp.Encryption.{Crypto}
use whisp.Encryption.Laws.{IsCrypto}
use whisp.Des.{in_memory}
use whisp.Authentication.Outgoing.{Named}
use whisp.Tests.World.{str, alice, bob, people, settings}
use whisp.Tests.Channel.{toy, toy_decode, toy-IsCrypto, shift, unshift, length-shift}

-- RSA that pads to twenty bytes and refuses a longer text, and base64 without NULs.
abbrev pub lawful : Crypto
lawful = record toy { b64_encode = λ t. b'#' ∷ shift t; b64_decode = λ t. unshift (toy_decode t) }

pub lawful-IsCrypto : IsCrypto lawful
lawful-IsCrypto = record {
  size = toy-IsCrypto.size;
  full = toy-IsCrypto.full;
  refused = toy-IsCrypto.refused;
  longer = λ t h. omega (arith, length-shift t);
}

-- `Alpha-Beta-Hugo` and its NULs.
abbrev pub sealed_secret : Bytes
sealed_secret = b'#' ∷ shift (in_memory 20 (codes "Alpha-Beta-Hugo" ++ (0 ∷ [])) (λ i. 0))

pub secret_drawn : session_generate_secret 0 1 7 ≡ done (codes "Alpha-Beta-Hugo")
unfolding session_generate_secret sprintf
secret_drawn = refl

-- The other peer, whose own GUID is 88.
abbrev pub partner_settings : Bytes → Option Bytes
partner_settings k = if strcmp_eq k (codes "GUID") then some (codes "88") else settings k

pub partner_guid : partner_settings (codes "GUID") ≡ some (codes "88")
unfolding strcmp_eq
partner_guid = refl

pub partner_debug : partner_settings (codes "DEBUG") ≡ some (codes "YES")
unfolding strcmp_eq
partner_debug = refl

abbrev pub partner_names_with :
    (id origin : CStr) → Named (set 20) (set 10) (set id) (set origin) people partner_settings
partner_names_with id origin = record {
  local_at = 20;
  foriegn_at = 10;
  local_peer = bob;
  foriegn_peer = alice;
  local_guid = str 21 (codes "88");
  foriegn_guid = str 11 (codes "77");
  session_id = id;
  origin_guid = origin;
  ip = str 2 (codes "10.0.0.7");
  port = str 13 (codes "50000");
  own = codes "88";
  debug = codes "YES";
  is_local = refl;
  is_foriegn = refl;
  is_id = refl;
  is_origin_guid = refl;
  local_held = refl;
  foriegn_held = refl;
  local_named = refl;
  foriegn_named = refl;
  foriegn_ip = refl;
  foriegn_port = refl;
  has_guid = partner_guid;
  has_debug = partner_debug;
}

pub their_origin : strcmp_eq (codes "88") (codes "77") ≡ false
unfolding strcmp_eq
their_origin = refl
