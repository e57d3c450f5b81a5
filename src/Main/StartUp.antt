-- ===== src/Main/StartUp.antt =====
-- How a process comes up (`main` of src/main/main.c), and how others hear of it.
use whisp.Prelude.{
  ℕ, ◌<◌, ◌≡◌, refl, ◌∙◌, true, false, Option, none, some, List, [], All, length, ltb-true, Bool,
}
use whisp.CString.{Bytes, codes, strcmp_eq, atoi}
use whisp.Outcome.{done, null}
use whisp.Btree.{BTree}
use whisp.Process.{no_tree, peer_tree_compare, session_tree_compare}
use whisp.SessionControl.{id_loop, session_generate_id}
use whisp.SessionControl.Names.{digits_of, session_generate_id_lem}
use whisp.App.{Settings, put, resolve_interface_address, generate_guid}
use whisp.App.Ports.{IsPortIn, generate_ports_lem}
use whisp.Discovery.Beacon.{is_nonzero, discovery_setup}
use whisp.Main.{Node, passive_listener_setup, secure_channel_setup, serialiser_setup, start_up}

-- A settings file that names all that is read of it, and a network that has the interface.
pub record IsComplete (interface_ip : Bytes → Bool → Option Bytes) (file : Settings) : Type 0 where
  pub family : Bytes
  pub interface : Bytes
  pub ip : Bytes
  pub group : Bytes
  pub port : Bytes
  pub interval : Bytes
  pub has_family : file (codes "ADDFAMILY") ≡ some family
  pub has_interface : file (codes "INTERFACE") ≡ some interface
  pub has_ip : interface_ip interface (strcmp_eq family (codes "AF_INET6")) ≡ some ip
  pub has_group : file (codes "BGROUP") ≡ some group
  pub has_port : file (codes "BPORT") ≡ some port
  pub has_interval : file (codes "INTERVAL") ≡ some interval
  pub nonzero : is_nonzero (atoi interval) ≡ true

-- The settings after the three functions of app.c.
abbrev pub settings_of : Bytes → Bytes → Bytes → Bytes → Settings → Settings
settings_of ip tport secureport guid file =
    put (codes "GUID") guid
      (put (codes "SECUREPORT") secureport (put (codes "TPORT") tport (put (codes "IP") ip file)))

resolve_interface_address_lem :
    (interface_ip : Bytes → Bool → Option Bytes) (file : Settings)
    (c : IsComplete interface_ip file)
    → resolve_interface_address interface_ip file ≡ done (put (codes "IP") c.ip file)
unfolding resolve_interface_address
resolve_interface_address_lem interface_ip file c =
    rw (c.has_family, c.has_interface, c.has_ip) refl

generate_guid_lem :
    (g : List ℕ) (config : Settings)
    → All (λ b. b < 256) g
    → length (digits_of g) < 24
    → generate_guid g config ≡ done (put (codes "GUID") (digits_of g) config)
unfolding generate_guid session_generate_id
generate_guid_lem g config h fits =
    let made : id_loop [] g ≡ done (digits_of g) =
      session_generate_id_lem g h ∙ rw (ltb-true (length (digits_of g)) 24 fits) refl in
    rw made refl

-- What the rest of the start reads of them.
discovery_setup_lem :
    (interface_ip : Bytes → Bool → Option Bytes) (file : Settings)
    (c : IsComplete interface_ip file) (tport secureport guid : Bytes)
    → discovery_setup (settings_of c.ip tport secureport guid file)
      ≡ done (record {
        interval = atoi c.interval;
        start_t = 0;
        end_t = 0;
        is_exiting = false;
        bgroup = c.group;
        port = c.port;
      })
unfolding discovery_setup strcmp_eq
discovery_setup_lem interface_ip file c tport secureport guid =
    rw c.has_family (rw c.has_group (rw c.has_port (rw c.has_interval (rw c.nonzero refl))))

pub guid_lem :
    (ip tport secureport guid : Bytes) (file : Settings)
    → (settings_of ip tport secureport guid file (codes "GUID") ≡ some guid)
      × (settings_of ip tport secureport guid file (codes "TPORT") ≡ some tport)
      × (settings_of ip tport secureport guid file (codes "SECUREPORT") ≡ some secureport)
unfolding strcmp_eq
guid_lem ip tport secureport guid file = (refl, refl, refl)

module _ (P : BTree peer_tree_compare) (S : BTree session_tree_compare) where
  -- A process that came up.
  pub record Ready (interface_ip : Bytes → Bool → Option Bytes) (file : Settings)
      (c : IsComplete interface_ip file) (a b : ℕ) (g : List ℕ) : Type 0 where
    pub node : Node P S
    pub tport : Bytes
    pub secureport : Bytes
    pub ran : start_up interface_ip (some file) a b g ≡ done node
    pub configuration :
        node.process.configuration ≡ settings_of c.ip tport secureport (digits_of g) file
    pub in_range : IsPortIn 49152 65535 tport × IsPortIn 41390 51952 secureport
    pub listens : (node.passive_port ≡ tport) × (node.secure_port ≡ secureport)
    pub named : node.guid_string ≡ some (digits_of g)
    pub interval : node.beacon.interval ≡ atoi c.interval
    pub never_sent : node.beacon.start_t ≡ 0
    pub runs : node.beacon.is_exiting ≡ false
    pub group : (node.beacon.bgroup ≡ c.group) × (node.beacon.port ≡ c.port)

  -- With a complete settings file and an interface that has an address, `main` comes up whatever it
  -- draws, if the digits of its UUID fit: no check stops it, its GUID is those digits, its two
  -- listeners are on ports of their ranges, as it will announce them, and its pulse has yet to be sent.
  pub start_up-Ready :
      (interface_ip : Bytes → Bool → Option Bytes) (file : Settings)
      (c : IsComplete interface_ip file) (a b : ℕ) (g : List ℕ)
      → All (λ x. x < 256) g
      → length (digits_of g) < 24
      → Ready interface_ip file c a b g
  unfolding start_up passive_listener_setup secure_channel_setup serialiser_setup
  start_up-Ready interface_ip file c a b g h fits =
      let (tport, secureport, drawn, low, high) =
        generate_ports_lem a b (put (codes "IP") c.ip file) in
      let (is_guid, is_tport, is_secureport) = guid_lem c.ip tport secureport (digits_of g) file in
      record {
        node = record {
          process = record {
            configuration = settings_of c.ip tport secureport (digits_of g) file;
            store = no_tree;
            session_tree = no_tree;
            last_session = null;
            peers = λ x. none;
            sessions = λ x. none;
            next = 1;
            sent = [];
          };
          beacon = record {
            interval = atoi c.interval;
            start_t = 0;
            end_t = 0;
            is_exiting = false;
            bgroup = c.group;
            port = c.port;
          };
          is_not_exiting = 0;
          passive_port = tport;
          secure_port = secureport;
          guid_string = some (digits_of g);
          has_exited = false;
        };
        tport = tport;
        secureport = secureport;
        ran = rw (resolve_interface_address_lem interface_ip file c) (
            rw drawn (
              rw (generate_guid_lem g _ h fits) (
                rw (discovery_setup_lem interface_ip file c tport secureport (digits_of g))
                  (rw (is_tport, is_secureport) (rw is_guid refl)))));
        configuration = refl;
        in_range = (low, high);
        listens = (refl, refl);
        named = refl;
        interval = refl;
        never_sent = refl;
        runs = refl;
        group = (refl, refl);
      }
