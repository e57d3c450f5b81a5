-- ===== src/Serialization/Sessions.antt =====
-- src/data/serialization.c, the messages of a handshake: `serialize_session_data` and
-- `deserialize_session_data`.
pub mod RoundTrip
use whisp.Prelude.{
  ℕ, zero, suc, ◌+◌, ◌==◌, Bool, true, false, Option, none, some, List, [], ◌∷◌, length, ltb,
  if◌then◌else◌,
}
use whisp.CString.{Bytes, CStr, codes, strcmp_eq, tokens, sprintf, ℤ, show_int, atoi, int32}
use whisp.Outcome.{
  Outcome, done, fault, undefined, Slot, unset, null, set, deref, free_slot, ◌>>=◌, ◌>>◌,
}
use whisp.Btree.{BTree}
use whisp.Process.{
  Session, Process, peer_tree_compare, session_tree_compare, object, int_of_state, state_of_int,
  size_of_int,
}
use whisp.Peerstore.{peerstore_check_peer}
use whisp.Serialization.{STypes, okay, malformed, show_str}

-- What %s prints for a field.
abbrev pub show_slot : Slot CStr → Outcome Bytes
show_slot unset = fault undefined
show_slot null = done (show_str none)
show_slot (set s) = done (show_str (some s.text))

-- The arguments of `sprintf`: texts, the state and the length.
pub record Wire : Type 0 where
  pub local_guid : Bytes
  pub foriegn_guid : Bytes
  pub secret : Bytes
  pub state : ℤ
  pub id : Bytes
  pub origin : Bytes
  pub local_key : Bytes
  pub foriegn_key : Bytes
  pub secret_len : ℤ

abbrev pub session_frame : Bytes
session_frame =
    codes
      "LOCAL_PEER:%s:FORIEGN_PEER:%s:SHARED_SECRET:%s:CURRENT_STATE:%d:SESSION_ID:%s:SESSION_ORIGIN_GUID:%s:LOCAL_PUBLIC_KEY:%s:FORIEGN_PUBLIC_KEY:%s:SHARED_SECRET_LEN:%d:"

abbrev pub wire_args : Wire → List Bytes
wire_args w =
    w.local_guid
    ∷ w.foriegn_guid
    ∷ w.secret
    ∷ show_int w.state
    ∷ w.id
    ∷ w.origin
    ∷ w.local_key
    ∷ w.foriegn_key
    ∷ show_int w.secret_len
    ∷ []

-- The keys of a session's fields, in the order of the tests.
pub data SessionKey : Type 0 where
  local_peer_key foriegn_peer_key shared_secret_key current_state_key session_id_key : SessionKey
  session_origin_guid_key local_public_key_key foriegn_public_key_key : SessionKey
  shared_secret_len_key : SessionKey

-- The `if(strcmp(t, ...) == 0)` that the token passes. The keys differ, so it is one at most.
unfoldable pub session_key : Bytes → Option SessionKey
session_key t =
    if strcmp_eq t (codes "LOCAL_PEER")
    then some local_peer_key
    else if strcmp_eq t (codes "FORIEGN_PEER")
    then some foriegn_peer_key
    else if strcmp_eq t (codes "SHARED_SECRET")
    then some shared_secret_key
    else if strcmp_eq t (codes "CURRENT_STATE")
    then some current_state_key
    else if strcmp_eq t (codes "SESSION_ID")
    then some session_id_key
    else if strcmp_eq t (codes "SESSION_ORIGIN_GUID")
    then some session_origin_guid_key
    else if strcmp_eq t (codes "LOCAL_PUBLIC_KEY")
    then some local_public_key_key
    else if strcmp_eq t (codes "FORIEGN_PUBLIC_KEY")
    then some foriegn_public_key_key
    else if strcmp_eq t (codes "SHARED_SECRET_LEN")
    then some shared_secret_len_key
    else none

-- What happens where the key has no value behind it: the fields that are freed, but `atoi(NULL)` for
-- the state, and for the last three keys a read of `*s` after it was freed.
unfoldable pub free_session_fields : SessionKey → Session → Outcome (Unit {0})
free_session_fields local_peer_key s = done tt
free_session_fields foriegn_peer_key s = done tt
free_session_fields shared_secret_key s = done tt
free_session_fields current_state_key s = fault undefined
free_session_fields session_id_key s = free_slot s.shared_secret
free_session_fields session_origin_guid_key s = do free_slot s.shared_secret; free_slot s.session_id
free_session_fields local_public_key_key s = fault undefined
free_session_fields foriegn_public_key_key s = fault undefined
free_session_fields shared_secret_len_key s = fault undefined

-- `malloc(sizeof(session))`
abbrev pub fresh_session : Session
fresh_session = record {
  local_peer = unset;
  foriegn_peer = unset;
  local_keypair = unset;
  local_public_key = unset;
  foriegn_public_key = unset;
  shared_secret = unset;
  shared_secret_len = unset;
  current_state = unset;
  session_id = unset;
  session_origin_guid = unset;
}

-- `if(peerstore_check_peer(value, &peer))` where the value is a GUID; the flag says whether it is
-- this peer's own, which is then the local peer, and else the foriegn one.
abbrev pub place_peer : Bool → ℕ × Slot ℕ → Session → Session
place_peer own (zero, peer) s = s
place_peer true (suc found, peer) s = record s { local_peer = peer }
place_peer false (suc found, peer) s = record s { foriegn_peer = peer }

module _ {P : BTree peer_tree_compare} {S : BTree session_tree_compare} where
  -- What `serialize_session_data` reads of the session at `a`.
  unfoldable pub wire_of : ℕ → Process P S → Outcome Wire
  wire_of a p = do
    s ← object (p.sessions a)
    la ← deref s.local_peer
    l ← object (p.peers la)
    fa ← deref s.foriegn_peer
    f ← object (p.peers fa)
    local_guid ← show_slot l.guid
    foriegn_guid ← show_slot f.guid
    secret ← show_slot s.shared_secret
    state ← deref s.current_state
    id ← show_slot s.session_id
    origin ← show_slot s.session_origin_guid
    local_key ← show_slot s.local_public_key
    foriegn_key ← show_slot s.foriegn_public_key
    len ← deref s.shared_secret_len
    done (record {
      local_guid = local_guid;
      foriegn_guid = foriegn_guid;
      secret = secret;
      state = int_of_state state;
      id = id;
      origin = origin;
      local_key = local_key;
      foriegn_key = foriegn_key;
      secret_len = int32 len;
    })

  -- `*outbuffer`, of 6000 bytes, and the length of the text.
  unfoldable pub serialize_session_data : ℕ → Process P S → Outcome (Bytes × ℕ)
  serialize_session_data a p = do
    w ← wire_of a p
    let buffer = sprintf session_frame (wire_args w)
    if ltb (length buffer) 6000 then done (buffer, length buffer) else fault undefined

  -- `strdup(value)`: the copy, and the state with the next address.
  abbrev pub copied : Bytes → Process P S → CStr
  copied value p = record { at = p.next; text = value }

  abbrev pub bumped : Process P S → Process P S
  bumped p = record p { next = p.next + 1 }

  unfoldable pub set_peer : Bytes → Session → Process P S → Outcome (Session × Process P S)
  set_peer value s p = do
    own ← object (p.configuration (codes "GUID"))
    (r, q) ← peerstore_check_peer value p
    done (place_peer (strcmp_eq value own) r s, q)

  -- What each key does with the value behind it.
  unfoldable pub set_session_field :
      SessionKey → Bytes → Session → Process P S → Outcome (Session × Process P S)
  unfolding set_peer
  set_session_field local_peer_key value s p = set_peer value s p
  set_session_field foriegn_peer_key value s p = set_peer value s p
  set_session_field shared_secret_key value s p =
      done (record s { shared_secret = set (copied value p) }, bumped p)
  set_session_field current_state_key value s p =
      done (record s { current_state = set (state_of_int (atoi value)) }, p)
  set_session_field session_id_key value s p =
      done (record s { session_id = set (copied value p) }, bumped p)
  set_session_field session_origin_guid_key value s p =
      done (record s { session_origin_guid = set (copied value p) }, bumped p)
  set_session_field local_public_key_key value s p =
      done (record s { local_public_key = set (copied value p) }, bumped p)
  set_session_field foriegn_public_key_key value s p =
      done (record s { foriegn_public_key = set (copied value p) }, bumped p)
  set_session_field shared_secret_len_key value s p =
      done (record s { shared_secret_len = set (size_of_int (atoi value)) }, p)

  -- The `while` loop over the tokens; a key takes the token behind it. `at` is the address of the
  -- session. The result is what was returned, `*s` with its address, and the state.
  unfoldable pub session_loop :
      List Bytes → ℕ → Session → Process P S → Outcome (STypes × Option (ℕ × Session) × Process P S)
  unfolding free_session_fields set_session_field
  session_loop [] at s p = done (okay, some (at, s), p)
  session_loop (t ∷ []) at s p = elim (session_key t) [
    | none ↦ done (okay, some (at, s), p)
    | some k ↦ do free_session_fields k s; done (malformed, none, p)
  ]
  session_loop (t ∷ value ∷ ts) at s p = elim (session_key t) [
    | none ↦ session_loop (value ∷ ts) at s p
    | some k ↦ do (s', q) ← set_session_field k value s p; session_loop ts at s' q
  ]

  unfoldable pub deserialize_session_data :
      Bytes → ℕ → Process P S → Outcome (STypes × Option (ℕ × Session) × Process P S)
  deserialize_session_data raw_message raw_message_len p =
      if raw_message_len == 0
      then done (malformed, none, p)
      else session_loop (tokens raw_message) p.next fresh_session (bumped p)
