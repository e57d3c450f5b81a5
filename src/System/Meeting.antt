-- ===== src/System/Meeting.antt =====
-- Two processes that came up (`main` of src/main/main.c), each somewhere in its life: a pulse of the one
-- (src/net/discovery.c) reaches the other.
use whisp.Prelude.{ℕ, ◌<◌, ◌≡◌, ◌∙◌, false, Bool, Option, some, List, ◌∷◌, length}
use whisp.CString.{Bytes, CStr}
use whisp.Outcome.{done}
use whisp.Btree.{BTree}
use whisp.Process.{RawPeer, peer_tree_compare, session_tree_compare}
use whisp.Peerstore.Operations.{CanUpdate}
use whisp.SessionControl.Names.{digits_of}
use whisp.Encryption.{Crypto}
use whisp.Des.{Cipher}
use whisp.App.{Settings}
use whisp.Discovery.Known.{known}
use whisp.Main.{Node, start_up}
use whisp.Main.StartUp.{IsComplete, Ready}
use whisp.Main.Announce.{HeardFrom, pulse_heard}
use whisp.System.{System, Reach}
use whisp.System.Reachable.{Reach-Lives}
use whisp.System.Answers.{started, start_up-IsSound}

module _ {P : BTree peer_tree_compare} {S : BTree session_tree_compare} where
  -- A process that came up with complete settings sends a pulse at any time before it exits, and the
  -- pulse gets to another one at any time of its life, whatever has happened to both: the other deals
  -- with it without undefined behaviour or a failed check, and knows afterwards the GUID that the first
  -- drew at its start, with the ports that its listeners are on; every other GUID it knows as before. What
  -- it knew of that GUID must have the four fields that an update frees.
  pub start_up-Meet :
      (C : Crypto) (D : Cipher) (interface_ip : Bytes → Bool → Option Bytes) (file : Settings)
      (c : IsComplete interface_ip file) (a b byte : ℕ) (bytes : List ℕ)
      (up : Ready P S interface_ip file c a b (byte ∷ bytes)) (x : System P S)
      (other_ip : Bytes → Bool → Option Bytes) (other_file : Option Settings) (i j : ℕ) (g : List ℕ)
      (n : Node P S) (y : System P S) (ip : CStr)
      → length (digits_of (byte ∷ bytes)) < 24
      → Reach C D (started up.node) x
      → x.node.has_exited ≡ false
      → start_up other_ip other_file i j g ≡ done n
      → Reach C D (started n) y
      → ((old : RawPeer)
          → known y.node.process (digits_of (byte ∷ bytes)) ≡ some old
          → CanUpdate old)
      → HeardFrom x.node.beacon.bgroup x.node.beacon.port
          (digits_of (byte ∷ bytes))
          x.node.passive_port
          x.node.secure_port
          ip
          x.node.process
          y.node.process
  start_up-Meet C D interface_ip file c a b byte bytes up x other_ip other_file i j g n y ip fits r
        alive ran r' can =
      let mine =
        Reach-Lives C D (started up.node) x
          (start_up-IsSound interface_ip (some file) a b (byte ∷ bytes) up.node up.ran) r in
      let theirs =
        Reach-Lives C D (started n) y (start_up-IsSound other_ip other_file i j g n ran) r' in
      rw (mine.ports.0 ∙ up.listens.0) (
        rw (mine.ports.1 ∙ up.listens.1) (
          pulse_heard c.ip up.tport up.secureport x.node.beacon.bgroup x.node.beacon.port file byte
            bytes ip x.node.process y.node.process (mine.configuration alive ∙ up.configuration)
            up.in_range.0 up.in_range.1 fits theirs.sound.store can))
