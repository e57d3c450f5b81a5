-- ===== src/Process.antt =====
-- The state of one running whisp: the objects that its components share.
--   src/data/peerstore.h (raw_peer), src/data/sessioncontrol.h (state, session), the static and
--   global variables of src/data/peerstore.c, src/data/sessioncontrol.c, src/net/discovery.c and
--   src/net/secure_channel.c.
-- Peers and sessions are objects on a heap, at addresses that `malloc` deals out in order and never
-- again (it is taken to succeed, as the code does). A `raw_peer *` in a session is an address, so an
-- update of a peer is seen by every session that points to it.
use whisp.Prelude.{
  ℕ, zero, suc, ltb, true, false, ◌-◌, ◌^◌, ◌≡◌, Bool, Option, none, some, List, ◌==◌,
  if◌then◌else◌,
}
use whisp.CString.{Bytes, CStr, ℤ, pos, negsuc}
use whisp.Outcome.{Outcome, done, fault, undefined, Slot}
use whisp.Btree.{BTree}

pub record RawPeer : Type 0 where
  pub guid : Slot CStr
  pub command : Slot CStr
  pub ip : Slot CStr
  pub port : Slot CStr
  pub secure_port : Slot CStr
  pub peerstring : Slot CStr

-- `state`; an `int` that is cast to the enumeration may be none of its members.
pub data State : Type 0 where
  closing dormant error pre_handshake public_key_exchange handshaking connected : State
  other : ℤ → State

pub record Session : Type 0 where
  pub local_peer : Slot ℕ
  pub foriegn_peer : Slot ℕ
  pub local_keypair : Slot ℕ
  pub local_public_key : Slot CStr
  pub foriegn_public_key : Slot CStr
  pub shared_secret : Slot CStr
  pub shared_secret_len : Slot ℕ
  pub current_state : Slot State
  pub session_id : Slot CStr
  pub session_origin_guid : Slot CStr

-- Both comparators compare the pointers, and not the texts behind them.
unfoldable pub session_tree_compare : CStr → CStr → ℤ
session_tree_compare a b =
    if ltb b.at a.at then negsuc 0 else if ltb a.at b.at then pos 1 else pos 0

unfoldable pub peer_tree_compare : CStr → CStr → ℤ
peer_tree_compare a b = if ltb b.at a.at then negsuc 0 else if ltb a.at b.at then pos 1 else pos 0

-- A variable that holds a tree: NULL, a tree, or a pointer to a tree that is destroyed.
pub data Ref (T : Type 0) : Type 0 where
  no_tree : Ref T
  tree : T → Ref T
  dangling : Ref T

-- The tree after `if(!t) { t = jnx_btree_create(...); }`.
abbrev pub ensured : {T : Type 0} → T → Ref T → Outcome T
ensured fresh no_tree = done fresh
ensured fresh (tree t) = done t
ensured fresh dangling = fault undefined

-- What is handed to a socket: host, port and payload.
pub record Packet : Type 0 where
  pub host : Bytes
  pub port : Bytes
  pub payload : Bytes

-- `P` and `S` are the external trees, for the two comparators.
pub record Process (P : BTree peer_tree_compare) (S : BTree session_tree_compare) : Type 0 where
  -- `configuration`: what `jnx_hash_get` answers
  pub configuration : Bytes → Option Bytes
  -- the `static` variables of peerstore.c, sessioncontrol.c and secure_channel.c
  pub store : Ref P.Tree
  pub session_tree : Ref S.Tree
  pub last_session : Slot ℕ
  -- the objects at each address, and the next address of `malloc`
  pub peers : ℕ → Option RawPeer
  pub sessions : ℕ → Option Session
  pub next : ℕ
  -- what was handed to sockets, the last packet first
  pub sent : List Packet

abbrev pub write {ℓ} : {A : Type ℓ} → (ℕ → Option A) → ℕ → Option A → ℕ → Option A
write heap a v b = if a == b then v else heap b

-- An object on a heap; another address is undefined.
abbrev pub object {ℓ} : {A : Type ℓ} → Option A → Outcome A
object none = fault undefined
object (some x) = done x

pub object-eq-done {ℓ} : {A : Type ℓ} (o : Option A) {a : A} → object o ≡ done a → o ≡ some a
object-eq-done none h = cc
object-eq-done (some x) h = cc

-- A field of an enumeration reads as the `int` that stands for it.
abbrev pub int_of_state : State → ℤ
int_of_state closing = pos 0
int_of_state dormant = pos 1
int_of_state error = pos 2
int_of_state pre_handshake = pos 3
int_of_state public_key_exchange = pos 4
int_of_state handshaking = pos 5
int_of_state connected = pos 6
int_of_state (other z) = z

state_of_ℕ : ℕ → State
state_of_ℕ zero = closing
state_of_ℕ (suc zero) = dormant
state_of_ℕ (suc (suc zero)) = error
state_of_ℕ (suc (suc (suc zero))) = pre_handshake
state_of_ℕ (suc (suc (suc (suc zero)))) = public_key_exchange
state_of_ℕ (suc (suc (suc (suc (suc zero))))) = handshaking
state_of_ℕ (suc (suc (suc (suc (suc (suc zero)))))) = connected
state_of_ℕ n = other (pos n)

-- `state s = value` for an `int value`
unfoldable pub state_of_int : ℤ → State
unfolding state_of_ℕ
state_of_int (pos n) = state_of_ℕ n
state_of_int (negsuc n) = other (negsuc n)

-- `s == m` for the members of the enumeration
abbrev pub is_connected : State → Bool
is_connected connected = true
is_connected _ = false

abbrev pub is_closing : State → Bool
is_closing closing = true
is_closing _ = false

-- `size_t n = value` for an `int value`
unfoldable pub size_of_int : ℤ → ℕ
size_of_int (pos n) = n
size_of_int (negsuc n) = 2 ^ 64 - 1 - n
