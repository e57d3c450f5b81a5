-- ===== src/Tests/World.antt =====
-- A process with association lists for its trees, and small texts and peers.
use whisp.Prelude.{ℕ, Option, none, some, [], ◌∷◌, if◌then◌else◌, ◌==◌}
use whisp.CString.{Bytes, CStr, codes, strcmp_eq}
use whisp.Outcome.{null, set}
use whisp.Btree.{BTree}
use whisp.Btree.Assoc.{assoc}
use whisp.Process.{
  peer_tree_compare, session_tree_compare, RawPeer, Session, connected, Process, no_tree, tree,
}

abbrev pub PTree : BTree peer_tree_compare
PTree = assoc peer_tree_compare

abbrev pub STree : BTree session_tree_compare
STree = assoc session_tree_compare

abbrev pub str : ℕ → Bytes → CStr
str a s = record { at = a; text = s }

abbrev pub settings : Bytes → Option Bytes
settings k =
    if strcmp_eq k (codes "GUID")
    then some (codes "77")
    else if strcmp_eq k (codes "TPORT")
    then some (codes "50000")
    else if strcmp_eq k (codes "SECUREPORT")
    then some (codes "42000")
    else if strcmp_eq k (codes "DEBUG")
    then some (codes "YES")
    else none

-- A peer at 10 whose texts lie at 11 to 15.
abbrev pub alice : RawPeer
alice = record {
  guid = set (str 11 (codes "77"));
  command = set (str 12 (codes "PULSE"));
  ip = set (str 2 (codes "10.0.0.7"));
  port = set (str 13 (codes "50000"));
  secure_port = set (str 14 (codes "42000"));
  peerstring = set (str 15 (codes "PEER-NULL"));
}

-- Another at 20.
abbrev pub bob : RawPeer
bob = record {
  guid = set (str 21 (codes "88"));
  command = set (str 22 (codes "PULSE"));
  ip = set (str 3 (codes "10.0.0.8"));
  port = set (str 23 (codes "50001"));
  secure_port = set (str 24 (codes "42001"));
  peerstring = set (str 25 (codes "PEER-NULL"));
}

abbrev pub people : ℕ → Option RawPeer
people a = if a == 10 then some alice else if a == 20 then some bob else none

-- A process that just started.
abbrev pub started : Process PTree STree
started = record {
  configuration = settings;
  store = no_tree;
  session_tree = no_tree;
  last_session = null;
  peers = λ a. none;
  sessions = λ a. none;
  next = 100;
  sent = [];
}

-- A process that knows both peers.
abbrev pub met : Process PTree STree
met = record started {
  store = tree ((str 21 (codes "88"), 20) ∷ (str 11 (codes "77"), 10) ∷ []);
  peers = people;
}

-- The same with a connected session at 30.
abbrev pub talk : Session
talk = record {
  local_peer = set 10;
  foriegn_peer = set 20;
  local_keypair = set 5;
  local_public_key = set (str 32 (codes "PA"));
  foriegn_public_key = set (str 33 (codes "PB"));
  shared_secret = set (str 34 (codes "Alpha-Beta-Hugo"));
  shared_secret_len = set 16;
  current_state = set connected;
  session_id = set (str 31 (codes "123"));
  session_origin_guid = set (str 11 (codes "77"));
}

abbrev pub talking : Process PTree STree
talking = record met {
  session_tree = tree ((str 31 (codes "123"), 30) ∷ []);
  sessions = λ a. if a == 30 then some talk else none;
}
