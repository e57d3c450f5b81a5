-- ===== src/Lib.antt =====
-- whisp: a messenger whose instances find each other by multicast, agree on a secret in a handshake
-- over TCP, and then exchange messages under it.
--
-- How the parts interact. A process announces itself with a pulse (src/net/discovery.c), which the
-- others read (src/data/serialization.c) and keep in their store of peers (src/data/peerstore.c). To
-- talk to a peer, a session is created (src/data/sessioncontrol.c) and updated
-- (src/net/authentication.c): each update takes one step of the handshake and may send the session to
-- the other peer, whose passive listener (src/net/passive.c) reads it, puts it in the place of the one
-- it had, and updates it in turn. Keys and the secret are encrypted with RSA (src/crytpo/encryption.c).
-- Once a session is connected, the secure channel (src/net/secure_channel.c) sends and shows messages
-- under DES (src/crytpo/des.c). The program makes its settings (src/app/app.c), starts its listeners and
-- the pulse (src/main/main.c), and then does what the user types (src/app/userinput.c): a session begins
-- there, and messages are typed there. A signal closes the connected sessions or ends the process.
--
-- Which file models what (each file says more; children of a module hold its proofs):
--   Prelude          shared names, Boolean tests, lists
--   CString          C strings, strtok_r, sprintf, %d and atoi of the C library
--   Outcome          what a run of C code comes to: a value, undefined behaviour, a failed JNXCHECK
--   Btree            the tree of jnxlibc: an interface with its documented laws, an instance in
--                    Btree/Assoc, and lemmas for keys that are compared by address
--   Process          the state of one process: raw_peer, session, state, the static variables, the heap
--   Serialization    serialize_data and deserialize_data; Serialization/Sessions has
--                    serialize_session_data and deserialize_session_data
--   Peerstore        the peerstore_... functions
--   Discovery        multicast_pulse, multicast_listener and multicast_serialization_process;
--                    Discovery/Beacon has discovery_setup, discovery_teardown and discovery_start
--   SessionControl   the session_... functions
--   Encryption       key_to_string, string_to_key, encrypt_message, decrypt_message
--   Des              des_encrypt, des_decrypt
--   SecureChannel    secure_channel_send, secure_listener_callback, and the session listened for
--   Authentication   authentication_session_update, one function for each state
--   Passive          passive_listener_callback
--   App              the functions of app.c on the settings
--   SendAwait        send_and_await
--   UserInput        trim, user_interact_session, user_start_session, user_input_loop;
--                    UserInput/Conversation has the handshake of two processes
--   Main             main up to the loop of the commands, signal_callback, generate_log_path, and what
--                    they call of passive.c, secure_channel.c and serialization.c
--   Sound            what every operation keeps, whatever reaches a process: its children go from the
--                    writes to the heap up to the listeners and the lines that the user types
--   System           the threads of main as one step relation; its children hold what is so in every
--                    state that is reached, and follow two processes from their start to a
--                    conversation
--   Tests            concrete states, runs at them, and the theorems at them
--
-- State. A Process holds the heap of peers and of sessions (by address), the trees, the settings and
-- what was handed to sockets. Addresses are dealt out by a counter and never again; malloc is taken to
-- succeed. A field of a C struct is a Slot: not yet written, NULL, or a value, and reading what was not
-- written is undefined behaviour, which a run reports as a fault. A char pointer to a kept string is
-- its address with its text, since the trees compare addresses.
--
-- Loops run over the tokens of a message, the keys of a tree or the bytes of a UUID and are structural
-- recursion on that list. The digits of a number n are made with n + 1 rounds, which are enough since
-- each round divides by ten. Numbers that wrap around are an int (the low 32 bits) and a size_t that an
-- int is stored to. What waits for something that happens outside is a run over a list of what happens:
-- the rounds of discovery_start, with the clock and whether the process is exiting; the tests of
-- send_and_await, with the clock and what has arrived; the lines of user_input_loop. The loops of the
-- program go on where such a list ends. In System the rounds of the pulse, datagrams, messages, texts,
-- typed lines and signals are steps that happen in any order, each a run that goes through, and a process
-- is in a state that is reached by such steps.
--
-- Parameters: the tree of jnxlibc (Btree.BTree), OpenSSL's RSA and the base64 of jnxlibc
-- (Encryption.Crypto), DES_cfb64_encrypt (Des.Cipher), and what is random or left in memory
-- (Authentication.Draws). What is documented of RSA, base64 and DES is a hypothesis of the theorems
-- that need it (Encryption.Laws.IsCrypto, SecureChannel.Channel.IsCipher).
--
-- A jnx_hashmap is the map from texts that its get and put document. What the network library says of an
-- interface, the UUIDs and what rand returns are arguments.
--
-- Where the model says less than C: atoi of a number that is too large for an int goes on counting, where
-- C is undefined; and the NUL that key_to_string writes behind its buffer is taken as harmless.
--
-- Each handler runs as one step. Not modelled: threads and locks, the sockets themselves,
-- src/app/ipc.c, which only calls the socket library (so that ipc_setup, which main calls between
-- generate_guid and discovery_setup, is left out of the start; nothing else reads the key that it
-- sets), the welcome and the start of OpenSSL in src/app/app.c, prompts and colours on the terminal,
-- and logging, but for the reads through pointers that it makes. Of the set-up of the listeners only
-- the port is there, and of exit only that it happened.
pub mod Prelude
pub mod CString
pub mod Outcome
pub mod Btree
pub mod Process
pub mod Peerstore
pub mod Serialization
pub mod Discovery
pub mod SessionControl
pub mod Encryption
pub mod Des
pub mod SecureChannel
pub mod Authentication
pub mod Passive
pub mod App
pub mod SendAwait
pub mod UserInput
pub mod Main
pub mod Sound
pub mod System
pub mod Tests
