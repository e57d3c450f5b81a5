-- ===== src/Main.antt =====
-- src/main/main.c, with the parts of src/net/passive.c, src/net/secure_channel.c and
-- src/data/serialization.c that it starts: how a process comes up, and what a signal does to it.
--
-- Sockets and threads are left out, and so is what `ipc_setup` and OpenSSL do. What the settings file
-- holds, what is drawn and what the system says of the network are arguments. `exit` is a flag.
pub mod Closing
pub mod Signals
pub mod StartUp
pub mod Announce
use whisp.Prelude.{
  ℕ, ◌==◌, Bool, true, false, Option, none, some, List, [], ◌∷◌, length, ltb, if◌then◌else◌,
}
use whisp.CString.{Bytes, codes, sprintf}
use whisp.Outcome.{Outcome, done, fault, undefined, check_failed, null, jnx_check, ◌>>=◌, ◌>>◌}
use whisp.Btree.{BTree}
use whisp.Process.{Process, peer_tree_compare, session_tree_compare, no_tree}
use whisp.SessionControl.{session_get_connected_sessions, session_shutdown}
use whisp.App.{Settings, required, resolve_interface_address, generate_guid, generate_ports}
use whisp.Discovery.Beacon.{Beacon, discovery_setup, discovery_teardown}

-- The process, with the variables that only it and its threads read.
pub record Node (P : BTree peer_tree_compare) (S : BTree session_tree_compare) : Type 0 where
  pub process : Process P S
  pub beacon : Beacon
  -- `is_not_exiting` of passive.c, and the ports that the two listeners are started on
  pub is_not_exiting : ℕ
  pub passive_port : Bytes
  pub secure_port : Bytes
  -- `guid_string` of serialization.c
  pub guid_string : Option Bytes
  pub has_exited : Bool

abbrev pub sigint : ℕ
sigint = 2

-- The port that the listener is started on.
unfoldable pub passive_listener_setup : Settings → Outcome Bytes
passive_listener_setup configuration = required (configuration (codes "TPORT"))

unfoldable pub secure_channel_setup : Settings → Outcome Bytes
secure_channel_setup config = required (config (codes "SECUREPORT"))

-- `guid_string` after it, from what it was.
unfoldable pub serialiser_setup : Option Bytes → Settings → Outcome (Option Bytes)
serialiser_setup (some guid) configuration = done (some guid)
serialiser_setup none configuration = do
  guid ← required (configuration (codes "GUID"))
  done (some guid)

-- `path` is the directory that is made, or NULL. The text is written to `char buffer[2048]`.
unfoldable pub generate_log_path : Option Bytes → Outcome (Option Bytes)
generate_log_path none = done none
generate_log_path (some path) =
    let buffer = sprintf (codes "%s.log") (path ∷ []) in
    if ltb (length buffer) 2048 then done (some buffer) else fault undefined

module _ {P : BTree peer_tree_compare} {S : BTree session_tree_compare} where
  unfoldable pub passive_listener_stop : Node P S → Node P S
  passive_listener_stop n = record n { is_not_exiting = 1 }

  -- The loop over the list of sessions.
  unfoldable pub shutdown_loop : List ℕ → Process P S → Outcome (Process P S)
  shutdown_loop [] p = done p
  shutdown_loop (a ∷ rest) p = do q ← session_shutdown a p; shutdown_loop rest q

  -- `if(session_list)`
  unfoldable pub shutdown_all : Option (List ℕ) → Process P S → Outcome (Process P S)
  unfolding shutdown_loop
  shutdown_all none p = done p
  shutdown_all (some session_list) p = shutdown_loop session_list p

  -- `case SIGINT`
  unfoldable pub on_interrupt : Process P S → Outcome (Process P S)
  unfolding shutdown_all
  on_interrupt p = do session_list ← session_get_connected_sessions p; shutdown_all session_list p

  -- Any other signal ends the process; of the destroyed map no key is read any more.
  unfoldable pub signal_callback : ℕ → Node P S → Outcome (Node P S)
  unfolding on_interrupt passive_listener_stop
  signal_callback sig n = elim (sig == sigint) [
    | true ↦ do p ← on_interrupt n.process; done (record n { process = p })
    | false ↦
        done (record (passive_listener_stop (record n { beacon = discovery_teardown n.beacon })) {
          process = record n.process { configuration = λ k. none };
          has_exited = true;
        })
  ]

-- `main` up to the thread of the pulse: `file` is what the settings file holds, none where it cannot be
-- read; `a` and `b` are drawn for the ports and `g` for the GUID.
unfoldable pub start_up :
    {P : BTree peer_tree_compare} {S : BTree session_tree_compare}
    → (Bytes → Bool → Option Bytes)
    → Option Settings
    → ℕ
    → ℕ
    → List ℕ
    → Outcome (Node P S)
start_up interface_ip none a b g = fault check_failed
start_up interface_ip (some file) a b g = do
  with_ip ← resolve_interface_address interface_ip file
  with_ports ← generate_ports a b with_ip
  configuration ← generate_guid g with_ports
  beacon ← discovery_setup configuration
  passive_port ← passive_listener_setup configuration
  secure_port ← secure_channel_setup configuration
  guid_string ← serialiser_setup none configuration
  done (record {
    process = record {
      configuration = configuration;
      store = no_tree;
      session_tree = no_tree;
      last_session = null;
      peers = λ a. none;
      sessions = λ a. none;
      next = 1;
      sent = [];
    };
    beacon = beacon;
    is_not_exiting = 0;
    passive_port = passive_port;
    secure_port = secure_port;
    guid_string = guid_string;
    has_exited = false;
  })
