-- ===== src/System.antt =====
-- A running whisp: `main` of src/main/main.c with what its threads do. The thread of the pulse
-- (src/net/discovery.c) beats, the listeners get datagrams, messages of sessions (src/net/passive.c) and
-- texts (src/net/secure_channel.c), the user types (src/app/userinput.c), and signals arrive, in any
-- order and each as one step.
pub mod Reachable
pub mod Answers
pub mod Meeting
pub mod Acquainted
pub mod Letters
pub mod Beginning
pub mod FirstTalk
pub mod Unread
use whisp.Prelude.{ℕ, ◌≡◌, false, List}
use whisp.CString.{Bytes, CStr}
use whisp.Outcome.{done, Slot}
use whisp.Prelude.{Option}
use whisp.Btree.{BTree}
use whisp.Process.{Process, peer_tree_compare, session_tree_compare}
use whisp.Encryption.{Crypto}
use whisp.Des.{Cipher}
use whisp.Authentication.{Draws}
use whisp.SecureChannel.{secure_listener_callback}
use whisp.Passive.{passive_listener_callback}
use whisp.Discovery.{multicast_listener}
use whisp.Discovery.Beacon.{Beacon, Round, beat}
use whisp.UserInput.{Mode, Typed, user_input}
use whisp.Main.{Node, signal_callback}

-- The process, and what the loop of the commands waits for.
pub record System (P : BTree peer_tree_compare) (S : BTree session_tree_compare) : Type 0 where
  pub node : Node P S
  pub mode : Mode

module _ {P : BTree peer_tree_compare} {S : BTree session_tree_compare} where
  abbrev pub with_process : Process P S → System P S → System P S
  with_process p x = record x { node = record x.node { process = p } }

  -- What can happen next. Each step is a run that goes through.
  pub data Step (C : Crypto) (D : Cipher) (x y : System P S) : Type 0 where
    -- the thread of the pulse, in one round of its loop
    pulse :
        (r : Round) (b : Beacon) (p : Process P S)
        → x.node.beacon.is_exiting ≡ false
        → beat r x.node.beacon x.node.process ≡ done (b, p)
        → y ≡ record x { node = record x.node { process = p; beacon = b } }
        → Step C D x y
    -- a datagram, from any address
    datagram :
        (msg : Bytes) (len : ℕ) (ip : Slot CStr) (p : Process P S)
        → multicast_listener msg len ip x.node.process ≡ done p
        → y ≡ with_process p x
        → Step C D x y
    -- a message to the passive listener
    message :
        (msg : Bytes) (len : ℕ) (d : Draws) (p : Process P S)
        → passive_listener_callback C msg len d x.node.process ≡ done p
        → y ≡ with_process p x
        → Step C D x y
    -- a message to the secure channel, and what is shown
    text :
        (msg : Bytes) (beyond : ℕ → ℕ) (shown : Option Bytes)
        → secure_listener_callback D msg beyond x.node.process ≡ done shown
        → y ≡ x
        → Step C D x y
    -- a line that the user types, and what is printed
    line :
        (k : Typed) (printed : List Bytes) (mode : Mode) (p : Process P S)
        → user_input C D x.mode k x.node.process ≡ done (printed, mode, p)
        → y ≡ record (with_process p x) { mode = mode }
        → Step C D x y
    -- a signal
    signal :
        (sig : ℕ) (n : Node P S)
        → signal_callback sig x.node ≡ done n
        → y ≡ record x { node = n }
        → Step C D x y

  -- A process that has exited takes no step.
  pub data Reach (C : Crypto) (D : Cipher) (x : System P S) : System P S → Type 0 where
    here : Reach C D x x
    next :
        {y z : System P S}
        → Reach C D x y
        → y.node.has_exited ≡ false
        → Step C D y z
        → Reach C D x z
