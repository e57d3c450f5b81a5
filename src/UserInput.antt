-- ===== src/UserInput.antt =====
-- src/app/userinput.c: what the user types, and what it makes the process do.
--
-- The terminal is a sequence of lines. A line that is read is the text that `getline` leaves in its
-- buffer; none is its -1, after which the buffer holds nothing that was written. The pointer and the
-- capacity that `getline` gets are never set, and `getline` is taken to make a new buffer. The loop of
-- the commands and the loop inside a session are one state machine, since other threads and signals run
-- between two lines. Prompts and colours are left out.
pub mod Start
pub mod Conversation
pub mod Typing
use whisp.Prelude.{ℕ, ◌==◌, ◌||◌, Bool, true, false, Option, none, some, List, [], ◌∷◌, ◌++◌}
use whisp.CString.{Bytes, CStr, codes, strcmp_eq}
use whisp.Outcome.{Outcome, done, fault, undefined, jnx_check, Slot, deref, ◌>>=◌, ◌>>◌}
use whisp.Btree.{BTree}
use whisp.Process.{Process, is_connected, peer_tree_compare, session_tree_compare, object}
use whisp.Peerstore.{peerstore_check_peer, peerstore_print_peers}
use whisp.SessionControl.{same_pointer, session_check_exists, session_create, session_get_session}
use whisp.Encryption.{Crypto, first_bytes}
use whisp.Des.{Cipher}
use whisp.Authentication.{Draws, authentication_session_update}
use whisp.SecureChannel.{secure_channel_send}

-- The last byte goes if it ends a line. An empty text has none, and the byte before it is read.
unfoldable pub trim : Bytes → Outcome Bytes
trim [] = fault undefined
trim (c ∷ []) = elim (c == b'\n' || c == b'\r') [ true ↦ done [] | false ↦ done (c ∷ []) ]
trim (c ∷ d ∷ cs) = do rest ← trim (d ∷ cs); done (c ∷ rest)

-- What the program does with a line: it reads a command, the GUID of a peer after "convo", the id of a
-- session after "send" (with the capacity that the buffer of the command has), or a message for the
-- session at an address.
pub data Mode : Type 0 where
  commanding picking_peer : Mode
  picking_session : ℕ → Mode
  in_session : ℕ → Mode

-- A line, the capacity of its buffer, and what a new session and its first update draw.
pub record Typed : Type 0 where
  pub line : Option Bytes
  pub capacity : ℕ
  pub uuid : List ℕ
  pub draws : Draws

-- The text in the buffer.
abbrev pub read_line : Typed → Outcome Bytes
read_line k = object k.line

module _ {P : BTree peer_tree_compare} {S : BTree session_tree_compare} where
  -- The test at the head of the loop of a session.
  unfoldable pub session_turn : ℕ → Process P S → Outcome Mode
  session_turn a p = do
    s ← object (p.sessions a)
    state ← deref s.current_state
    elim (is_connected state) [ true ↦ done (in_session a) | false ↦ done commanding ]

  unfoldable pub interact_with : ℕ × Slot ℕ → Process P S → Outcome Mode
  interact_with (r, s) p = elim (r == 0) [
    | true ↦ done commanding
    | false ↦ do a ← deref s; session_turn a p
  ]

  -- `user_interact_session` up to where it waits for a line, or its return.
  unfoldable pub user_interact_session : Bytes → Process P S → Outcome Mode
  unfolding interact_with
  user_interact_session session_id p = do
    found ← session_get_session session_id p
    interact_with found p

  -- The three tests of a command, on the trimmed line. What is printed comes first.
  unfoldable pub command : Bytes → ℕ → Process P S → Outcome (List Bytes × Mode)
  command line capacity p = elim (strcmp_eq line (codes "list")) [
    | true ↦ do lines ← peerstore_print_peers p; done (lines, commanding)
    | false ↦ elim (strcmp_eq line (codes "convo")) [
      | true ↦ done ([], picking_peer)
      | false ↦ elim (strcmp_eq line (codes "send")) [
        | true ↦ done ([], picking_session capacity)
        | false ↦ done ([], commanding)
      ]
    ]
  ]

  -- `strndup(t,n)` of the line that was read, for the capacity of the command's buffer.
  unfoldable pub pick_session : ℕ → Option Bytes → Process P S → Outcome Mode
  unfolding user_interact_session
  pick_session n line p = elim (n == 0) [
    | true ↦ done commanding
    | false ↦ do
      t ← object line
      session_id ← trim (first_bytes n t)
      user_interact_session session_id p
  ]

  module _ (D : Cipher) where
    -- The rest of the body of the loop of a session, and its test.
    unfoldable pub say : ℕ → Bytes → Process P S → Outcome (Mode × Process P S)
    say a line p = do
      text ← trim line
      q ← secure_channel_send D a (text ++ (0 ∷ [])) p
      mode ← session_turn a q
      done (mode, q)

  module _ (C : Crypto) where
    -- The new session is found under its id, and the handshake begins.
    unfoldable pub begin_session : ℕ → ℕ → Draws → CStr → Process P S → Outcome (Process P S)
    begin_session local foriegn d session_handle p = do
      (ret, handle) ← session_get_session session_handle.text p
      jnx_check (ret == 1)
      a ← deref handle
      s ← object (p.sessions a)
      l ← same_pointer local s.local_peer
      jnx_check l
      f ← same_pointer foriegn s.foriegn_peer
      jnx_check f
      (state, q) ← authentication_session_update C a d p
      done q

    -- `if(!session_check_exists(local_peer,foriegn_peer))`
    unfoldable pub session_between : ℕ → ℕ → List ℕ → Draws → Process P S → Outcome (Process P S)
    unfolding begin_session
    session_between local foriegn uuid d p = do
      (exists, q) ← session_check_exists local foriegn p
      elim (exists == 0) [
        | true ↦ do
          (handle, r) ← session_create local foriegn uuid q
          begin_session local foriegn d handle r
        | false ↦ done q
      ]

    -- `if(peerstore_check_peer(foriegn_peer_guid,&foriegn_peer))`
    unfoldable pub session_with : ℕ → Bytes → List ℕ → Draws → Process P S → Outcome (Process P S)
    unfolding session_between
    session_with local guid uuid d p = do
      ((known, foriegn), q) ← peerstore_check_peer guid p
      elim (known == 0) [
        | true ↦ done q
        | false ↦ do f ← deref foriegn; session_between local f uuid d q
      ]

    -- `uuid` is drawn by `session_create`.
    unfoldable pub user_start_session : Bytes → List ℕ → Draws → Process P S → Outcome (Process P S)
    unfolding session_with
    user_start_session foriegn_peer_guid uuid d p = do
      own ← object (p.configuration (codes "GUID"))
      ((known, local), q) ← peerstore_check_peer own p
      elim (known == 0) [
        | true ↦ done q
        | false ↦ do l ← deref local; session_with l foriegn_peer_guid uuid d q
      ]

    module _ (D : Cipher) where
      -- One line: what is printed, how the next line is read, and the process.
      unfoldable pub user_input :
          Mode → Typed → Process P S → Outcome (List Bytes × Mode × Process P S)
      user_input commanding k p = do
        typed ← read_line k
        line ← trim typed
        (printed, mode) ← command line k.capacity p
        done (printed, mode, p)
      user_input picking_peer k p = do
        typed ← read_line k
        l ← trim typed
        q ← user_start_session l k.uuid k.draws p
        done ([], commanding, q)
      user_input (picking_session n) k p = do mode ← pick_session n k.line p; done ([], mode, p)
      user_input (in_session a) k p = do
        line ← read_line k
        (mode, q) ← say D a line p
        done ([], mode, q)

      -- The loop over the lines that are typed, with all that is printed.
      unfoldable pub user_input_loop :
          List Typed → Mode → Process P S → Outcome (List Bytes × Mode × Process P S)
      unfolding user_input
      user_input_loop [] mode p = done ([], mode, p)
      user_input_loop (k ∷ ks) mode p = do
        (printed, next, q) ← user_input mode k p
        (more, end, r) ← user_input_loop ks next q
        done (printed ++ more, end, r)
