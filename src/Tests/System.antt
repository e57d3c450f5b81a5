-- ===== src/Tests/System.antt =====
-- Two processes that came up, and what they reach.
use whisp.Prelude.{ℕ, ◌≡◌, refl, false, none, some, List, [], ◌∷◌, ◌==◌, arith, if◌then◌else◌}
use whisp.CString.{Bytes, codes, strcmp_eq, show_int, decimal, int32, atoi, tokens, pos}
use whisp.Outcome.{done, null, set}
use whisp.Process.{Process, RawPeer, no_tree, tree}
use whisp.Serialization.{deserialize_data, peer_loop, peer_key, set_peer_field}
use whisp.Peerstore.{peerstore_check_peer, peerstore_add_peer}
use whisp.SessionControl.{session_generate_id, id_loop}
use whisp.SessionControl.Names.{digits_of}
use whisp.App.{random_in_range, generate_ports, resolve_interface_address, generate_guid}
use whisp.Discovery.{multicast_listener, keep_peer}
use whisp.Discovery.Beacon.{discovery_setup}
use whisp.Main.{Node, passive_listener_setup, secure_channel_setup, serialiser_setup, start_up}
use whisp.Main.StartUp.{settings_of, Ready}
use whisp.Sound.{IsSound}
use whisp.Sound.Pulses.{Heard, multicast_listener-Heard}
use whisp.System.{System, datagram, Reach, here, next}
use whisp.System.Reachable.{Lives, Reach-Lives}
use whisp.System.Answers.{started, Answers, start_up-Answers, start_up-IsSound}
use whisp.Btree.Pointers.{first_text}
use whisp.Discovery.Known.{known}
use whisp.Main.Announce.{HeardFrom}
use whisp.System.Meeting.{start_up-Meet}
use whisp.Tests.World.{PTree, STree, str}
use whisp.Tests.Channel.{toy, toy_cipher}
use whisp.Tests.Start.{file, file-IsComplete, network, uuid, uuid_fits}

abbrev pub node_of : Bytes → Node PTree STree
node_of guid = record {
  process = record {
    configuration = settings_of (codes "10.0.0.7") (codes "49159") (codes "41398") guid file;
    store = no_tree;
    session_tree = no_tree;
    last_session = null;
    peers = λ a. none;
    sessions = λ a. none;
    next = 1;
    sent = [];
  };
  beacon = record {
    interval = pos 5;
    start_t = 0;
    end_t = 0;
    is_exiting = false;
    bgroup = codes "225.1.1.1";
    port = codes "9031";
  };
  is_not_exiting = 0;
  passive_port = codes "49159";
  secure_port = codes "41398";
  guid_string = some guid;
  has_exited = false;
}

abbrev pub node : Node PTree STree
node = node_of (codes "1234567890123456")

pub node_ran : start_up network (some file) 7 8 uuid ≡ done node
unfolding start_up resolve_interface_address generate_ports random_in_range generate_guid
    session_generate_id id_loop discovery_setup passive_listener_setup secure_channel_setup
    serialiser_setup show_int decimal int32 strcmp_eq atoi
node_ran = refl

-- Another peer's pulse.
abbrev pulse_text : Bytes
pulse_text = codes "GUID:88:COMMAND:PULSE:TPORT:50001:SECUREPORT:42001:PEERAGE:PEER-NULL:"

abbrev other : RawPeer
other = record {
  guid = set (str 2 (codes "88"));
  command = set (str 3 (codes "PULSE"));
  ip = set (str 90 (codes "10.0.0.8"));
  port = set (str 4 (codes "50001"));
  secure_port = set (str 5 (codes "42001"));
  peerstring = set (str 6 (codes "PEER-NULL"));
}

abbrev heard : Process PTree STree
heard = record node.process {
  store = tree ((str 2 (codes "88"), 1) ∷ []);
  peers = λ a. if 1 == a then some other else none;
  next = 7;
}

heard_ran :
    multicast_listener pulse_text 69 (set (str 90 (codes "10.0.0.8"))) node.process ≡ done heard
unfolding multicast_listener deserialize_data peer_loop peer_key set_peer_field strcmp_eq keep_peer
    peerstore_check_peer peerstore_add_peer tokens
heard_ran = refl

node-IsSound : IsSound node.process
node-IsSound = start_up-IsSound network (some file) 7 8 uuid node node_ran

multicast_listener-Heard_example : Heard node.process heard
multicast_listener-Heard_example =
    multicast_listener-Heard pulse_text 69 (set (str 90 (codes "10.0.0.8"))) node.process heard tt
      heard_ran

-- The process after the pulse.
abbrev after_pulse : System PTree STree
after_pulse = record (started node) { node = record node { process = heard } }

pulse-Reach : Reach toy toy_cipher (started node) after_pulse
pulse-Reach =
    next here refl (datagram pulse_text 69 (set (str 90 (codes "10.0.0.8"))) heard heard_ran refl)

Reach-Lives_example : Lives (started node) after_pulse
Reach-Lives_example = Reach-Lives toy toy_cipher (started node) after_pulse node-IsSound pulse-Reach

start_up-Answers_example : Answers after_pulse
start_up-Answers_example =
    start_up-Answers toy toy_cipher network (some file) 7 8 uuid node after_pulse node_ran
      pulse-Reach

abbrev pub ready : Ready PTree STree network file file-IsComplete 7 8 uuid
unfolding digits_of decimal file-IsComplete show_int atoi strcmp_eq
ready = record {
  node = node;
  tport = codes "49159";
  secureport = codes "41398";
  ran = node_ran;
  configuration = refl;
  in_range = (
    (49159, refl, refl, omega arith, omega arith),
    (41398, refl, refl, omega arith, omega arith),
  );
  listens = (refl, refl);
  named = refl;
  interval = refl;
  never_sent = refl;
  runs = refl;
  group = (refl, refl);
}

-- Another process, which drew another UUID.
abbrev pub other_uuid : List ℕ
other_uuid = 9 ∷ 9 ∷ 3 ∷ 4 ∷ 5 ∷ 6 ∷ 7 ∷ 8 ∷ 9 ∷ 0 ∷ 1 ∷ 2 ∷ 3 ∷ 4 ∷ 5 ∷ 6 ∷ []

abbrev pub other_node : Node PTree STree
other_node = node_of (codes "9934567890123456")

pub other_ran : start_up network (some file) 7 8 other_uuid ≡ done other_node
unfolding start_up resolve_interface_address generate_ports random_in_range generate_guid
    session_generate_id id_loop discovery_setup passive_listener_setup secure_channel_setup
    serialiser_setup show_int decimal int32 strcmp_eq atoi
other_ran = refl

abbrev pub other_ready : Ready PTree STree network file file-IsComplete 7 8 other_uuid
unfolding digits_of decimal file-IsComplete show_int atoi strcmp_eq
other_ready = record {
  node = other_node;
  tport = codes "49159";
  secureport = codes "41398";
  ran = other_ran;
  configuration = refl;
  in_range = (
    (49159, refl, refl, omega arith, omega arith),
    (41398, refl, refl, omega arith, omega arith),
  );
  listens = (refl, refl);
  named = refl;
  interval = refl;
  never_sent = refl;
  runs = refl;
  group = (refl, refl);
}

no_peer : known other_node.process (digits_of uuid) ≡ none
unfolding first_text
no_peer = refl

start_up-Meet_example :
    HeardFrom
      (codes "225.1.1.1")
      (codes "9031")
      (digits_of uuid)
      (codes "49159")
      (codes "41398")
      (str 90 (codes "10.0.0.7"))
      heard
      other_node.process
unfolding ready
start_up-Meet_example =
    start_up-Meet toy toy_cipher network file file-IsComplete 7 8 1
      (2 ∷ 3 ∷ 4 ∷ 5 ∷ 6 ∷ 7 ∷ 8 ∷ 9 ∷ 0 ∷ 1 ∷ 2 ∷ 3 ∷ 4 ∷ 5 ∷ 6 ∷ []) ready after_pulse network
      (some file) 7 8 other_uuid other_node (started other_node) (str 90 (codes "10.0.0.7"))
      uuid_fits pulse-Reach refl other_ran here (λ old h. ground (arith, no_peer, h))
