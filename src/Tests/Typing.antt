-- ===== src/Tests/Typing.antt =====
-- What the user types, and SIGINT, at states of Tests/World.antt.
use whisp.Prelude.{◌≡◌, refl, inl, false, some, [], ◌∷◌, ◌++◌, arith}
use whisp.CString.{Bytes, codes, strcmp_eq, pos, sprintf, decimal}
use whisp.Outcome.{done, fault, undefined}
use whisp.Btree.{find}
use whisp.Process.{Process, peer_tree_compare}
use whisp.SessionControl.Connected.{connected_of, in_connection}
use whisp.Peerstore.{peerstore_print_peers, print_loop, peerstore_check_peer, scan_peers}
use whisp.UserInput.{
  Typed, commanding, picking_session, in_session, trim, command, user_start_session, session_with,
  user_input, user_input_loop,
}
use whisp.UserInput.Typing.{Shows, user_input-Shows}
use whisp.Main.{Node, signal_callback, sigint}
use whisp.Main.Signals.{Among, user_input-signal_callback}
use whisp.Tests.World.{PTree, STree, str, bob, talking, met}
use whisp.Tests.Sessions.{talking-SessionsAreValid}
use whisp.Tests.Channel.{
  toy, toy_cipher, toy_cipher-IsCipher, talking_secret, listening_secret, talking_host, hello,
  listening,
}
use whisp.Tests.Handshake.{draws}

abbrev hello_line : Typed
hello_line = record {
  line = some (codes "hello" ++ (b'\n' ∷ []));
  capacity = 120;
  uuid = [];
  draws = draws;
}

user_input-Shows_example :
    Shows toy toy_cipher 30 hello_line
      (codes "hello")
      (codes "localhost")
      (str 24 (codes "42001"))
      (λ i. 7)
      talking
      listening
user_input-Shows_example =
    user_input-Shows toy toy_cipher 30 30 (codes "Alpha-Beta-Hugo") (codes "hello")
      (codes "localhost") (str 24 (codes "42001")) (λ i. 7) hello_line talking listening
      toy_cipher-IsCipher (omega arith) hello refl talking_secret
      (record {
        address = 20;
        peer = bob;
        foriegn = refl;
        at = refl;
        to_host = talking_host;
        to_port = refl;
      })
      listening_secret refl

-- The process with a session, before it gets a signal.
abbrev node : Node PTree STree
node = record {
  process = talking;
  beacon = record {
    interval = pos 5;
    start_t = 10;
    end_t = 0;
    is_exiting = false;
    bgroup = codes "225.1.1.1";
    port = codes "9031";
  };
  is_not_exiting = 0;
  passive_port = codes "50000";
  secure_port = codes "42000";
  guid_string = some (codes "77");
  has_exited = false;
}

talk-Among : Among 30 (connected_of talking.sessions ((str 31 (codes "123"), 30) ∷ []))
unfolding connected_of in_connection
talk-Among = inl refl

user_input-signal_callback_example :
    (q : Process PTree STree) × (signal_callback sigint node ≡ done (record node { process = q }))
    × (q.sent ≡ talking.sent)
    × (user_input toy toy_cipher (in_session 30) hello_line q ≡ done ([], commanding, q))
user_input-signal_callback_example =
    user_input-signal_callback toy toy_cipher 30 b'h' (codes "ello" ++ (b'\n' ∷ [])) hello_line node
      talking-SessionsAreValid talk-Among refl

abbrev typed : Bytes → Typed
typed line = record { line = some line; capacity = 120; uuid = []; draws = draws }

-- The peers are listed, and nobody is met by a GUID that is not known.
commands_test :
    user_input_loop toy toy_cipher
      (typed (codes "list\n")
        ∷ typed (codes "convo\n")
        ∷ typed (codes "99\n")
        ∷ typed (codes "send\n")
        ∷ [])
      commanding
      met
    ≡ done (codes "0)88 [Foriegn]\n" ∷ codes "1)77 [Local]\n" ∷ [], picking_session 120, met)
unfolding user_input_loop user_input trim command peerstore_print_peers print_loop strcmp_eq sprintf
    decimal find peer_tree_compare user_start_session session_with peerstore_check_peer scan_peers
commands_test = refl

empty_line_test : trim [] ≡ fault undefined
unfolding trim
empty_line_test = refl
