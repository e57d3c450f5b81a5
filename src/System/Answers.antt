-- ===== src/System/Answers.antt =====
-- A process that came up (`main` of src/main/main.c) answers its searches and SIGINT in every state that
-- it reaches, and its pulse is heard.
use whisp.Prelude.{refl, ℕ, ◌≡◌, Bool, Option, none, some, List}
use whisp.CString.{Bytes}
use whisp.Outcome.{done, done_injective, >>=-eq-done}
use whisp.Btree.{BTree}
use whisp.Process.{no_tree, peer_tree_compare, session_tree_compare}
use whisp.Peerstore.{peerstore_check_peer}
use whisp.Peerstore.View.{checked, peerstore_check_peer_lem}
use whisp.SessionControl.{found_session, session_get_session}
use whisp.SessionControl.View.{session_at, session_get_session_lem}
use whisp.Encryption.{Crypto}
use whisp.Des.{Cipher}
use whisp.App.{Settings, resolve_interface_address, generate_guid, generate_ports}
use whisp.Discovery.Beacon.{discovery_setup}
use whisp.UserInput.{commanding}
use whisp.Main.{Node, passive_listener_setup, secure_channel_setup, serialiser_setup, start_up}
use whisp.Main.Signals.{Interrupted, signal_callback-Interrupted}
use whisp.Sound.{IsSound}
use whisp.System.{System, Reach}
use whisp.System.Reachable.{Reach-Lives}

module _ {P : BTree peer_tree_compare} {S : BTree session_tree_compare} where
  -- A process at its start.
  abbrev pub started : Node P S → System P S
  started n = record { node = n; mode = commanding }

  -- There is no peer and no session at the start.
  pub start_up-Empty :
      (interface_ip : Bytes → Bool → Option Bytes) (file : Option Settings) (a b : ℕ) (g : List ℕ)
      (n : Node P S)
      → start_up interface_ip file a b g ≡ done n
      → (n.process.store ≡ no_tree) × (n.process.session_tree ≡ no_tree)
  unfolding start_up
  start_up-Empty interface_ip none a b g n h = cc
  start_up-Empty interface_ip (some file) a b g n h =
      let (c1, e1, h1) = >>=-eq-done (resolve_interface_address interface_ip file) _ h in
      let (c2, e2, h2) = >>=-eq-done (generate_ports a b c1) _ h1 in
      let (c3, e3, h3) = >>=-eq-done (generate_guid g c2) _ h2 in
      let (b1, e4, h4) = >>=-eq-done (discovery_setup c3) _ h3 in
      let (p1, e5, h5) = >>=-eq-done (passive_listener_setup c3) _ h4 in
      let (s1, e6, h6) = >>=-eq-done (secure_channel_setup c3) _ h5 in
      let (g1, e7, h7) = >>=-eq-done (serialiser_setup none c3) _ h6 in
      rw (← done_injective h7) (refl, refl)

  pub start_up-IsSound :
      (interface_ip : Bytes → Bool → Option Bytes) (file : Option Settings) (a b : ℕ) (g : List ℕ)
      (n : Node P S)
      → start_up interface_ip file a b g ≡ done n
      → IsSound n.process
  start_up-IsSound interface_ip file a b g n h =
      let (store, sessions) = start_up-Empty interface_ip file a b g n h in
      record { store = rw store tt; sessions = rw sessions tt }

  -- The searches end, with what the maps hold, and SIGINT closes all connected sessions.
  pub record Answers (y : System P S) : Type 0 where
    pub peers :
        (guid : Bytes)
        → peerstore_check_peer guid y.node.process ≡ done (checked guid y.node.process)
    pub sessions :
        (id : Bytes)
        → session_get_session id y.node.process
          ≡ done (found_session (session_at y.node.process id))
    pub interrupted : Interrupted y.node

  -- Whatever the settings, whatever datagrams, messages and signals a process got since it came up, and
  -- whatever its user typed: as long as no step was undefined behaviour or a failed check, every search
  -- for a peer or a session ends with what the store and the sessions hold, and SIGINT closes every
  -- connected session without ending the process.
  pub start_up-Answers :
      (C : Crypto) (D : Cipher) (interface_ip : Bytes → Bool → Option Bytes)
      (file : Option Settings) (a b : ℕ) (g : List ℕ) (n : Node P S) (y : System P S)
      → start_up interface_ip file a b g ≡ done n
      → Reach C D (started n) y
      → Answers y
  start_up-Answers C D interface_ip file a b g n y h r =
      let lives = Reach-Lives C D (started n) y (start_up-IsSound interface_ip file a b g n h) r in
      record {
        peers = λ guid. peerstore_check_peer_lem guid y.node.process lives.sound.store;
        sessions = λ id. session_get_session_lem id y.node.process lives.sound.sessions;
        interrupted = signal_callback-Interrupted y.node lives.sound.sessions;
      }
