-- ===== src/SessionControl.antt =====
-- src/data/sessioncontrol.c: the sessions of this peer, in a tree keyed by the pointer to their id.
-- What `rand` and `uuid_generate_random` draw is an argument. Logging is left out, but for the reads
-- through pointers that it makes.
pub mod View
pub mod Exists
pub mod Unique
pub mod Changes
pub mod Create
pub mod Destroy
pub mod Names
pub mod Connected
pub mod Between
use whisp.Prelude.{
  ℕ, zero, suc, ◌+◌, ◌<◌, ◌==◌, Bool, true, false, Option, none, some, List, [], ◌∷◌, ◌++◌, length,
  ltb, if◌then◌else◌,
}
use whisp.CString.{Bytes, CStr, codes, strcmp_eq, sprintf, decimal}
use whisp.Outcome.{
  Outcome, done, fault, undefined, jnx_check, Slot, unset, null, set, deref, is_pointer, ◌>>=◌,
  ◌>>◌,
}
use whisp.Btree.{BTree}
use whisp.Process.{
  State, closing, error, pre_handshake, is_connected, is_closing, Session, Process,
  peer_tree_compare, session_tree_compare, Ref, no_tree, tree, dangling, write, object, ensured,
}
use whisp.Peerstore.{existing}

-- `names[i]`
abbrev pub secret_name : ℕ → Bytes
secret_name zero = codes "Alpha"
secret_name (suc zero) = codes "Beta"
secret_name (suc (suc zero)) = codes "Charlie"
secret_name (suc (suc (suc zero))) = codes "Delta"
secret_name (suc (suc (suc (suc zero)))) = codes "Epsilon"
secret_name (suc (suc (suc (suc (suc zero))))) = codes "Foxtrot"
secret_name (suc (suc (suc (suc (suc (suc zero)))))) = codes "Gamma"
secret_name (suc (suc (suc (suc (suc (suc (suc zero))))))) = codes "Hugo"
secret_name (suc (suc (suc (suc (suc (suc (suc (suc zero)))))))) = codes "Ipswitch"
secret_name _ = codes "Jupiter"

-- `r`, `l` and `n` are the remainders of `rand()` by 10. The text is written to `char buffer[24]`.
unfoldable pub session_generate_secret : ℕ → ℕ → ℕ → Outcome Bytes
session_generate_secret r l n =
    let buffer = sprintf (codes "%s-%s-%s") (secret_name r ∷ secret_name l ∷ secret_name n ∷ []) in
    if ltb (length buffer) 24 then done buffer else fault undefined

-- The loop over the bytes of the UUID: each is printed to `char micro[4]` and appended to
-- `char buffer[24]`.
unfoldable pub id_loop : Bytes → List ℕ → Outcome Bytes
id_loop buffer [] = done buffer
id_loop buffer (b ∷ bs) =
    let micro = decimal b in
    let rest = id_loop (buffer ++ micro) bs in
    if ltb (length micro) 4
    then if ltb (length (buffer ++ micro)) 24 then rest else fault undefined
    else fault undefined

unfoldable pub session_generate_id : List ℕ → Outcome Bytes
unfolding id_loop
session_generate_id g = id_loop [] g

-- The loop of `session_get_session`: the first key with this text whose session is there. The log
-- reads the session's id.
unfoldable pub find_session :
    (S : BTree session_tree_compare)
    → S.Tree
    → (ℕ → Option Session)
    → Bytes
    → List CStr
    → Outcome (Option ℕ)
find_session S t sessions id [] = done none
find_session S t sessions id (k ∷ ks) = elim (strcmp_eq k.text id) [
  | true ↦ elim (S.lookup t k) [
    | none ↦ find_session S t sessions id ks
    | some a ↦ do s ← object (sessions a); logged ← deref s.session_id; done (some a)
  ]
  | false ↦ find_session S t sessions id ks
]

-- The loop of `session_check_exists_by_id`: 1 at the first key with this text whose session is there.
unfoldable pub exists_loop :
    (S : BTree session_tree_compare) → S.Tree → (ℕ → Option Session) → Bytes → List CStr → Outcome ℕ
exists_loop S t sessions id [] = done 0
exists_loop S t sessions id (k ∷ ks) = elim (strcmp_eq k.text id) [
  | true ↦ elim (S.lookup t k) [
    | none ↦ exists_loop S t sessions id ks
    | some a ↦ do s ← object (sessions a); logged ← deref s.session_id; done 1
  ]
  | false ↦ exists_loop S t sessions id ks
]

-- `p == q` for a pointer and a field.
abbrev pub same_pointer : ℕ → Slot ℕ → Outcome Bool
same_pointer a unset = fault undefined
same_pointer a null = done false
same_pointer a (set b) = done (a == b)

-- The loop of `session_check_exists`: `&&` reads the second peer only if the first one is the same.
unfoldable pub find_peers :
    (S : BTree session_tree_compare) → S.Tree → (ℕ → Option Session) → ℕ → ℕ → List CStr → Outcome ℕ
find_peers S t sessions local foriegn [] = done 0
find_peers S t sessions local foriegn (k ∷ ks) = elim (S.lookup t k) [
  | none ↦ find_peers S t sessions local foriegn ks
  | some a ↦ do
    s ← object (sessions a)
    l ← same_pointer local s.local_peer
    f ← elim l [ true ↦ same_pointer foriegn s.foriegn_peer | false ↦ done false ]
    elim f [ true ↦ done 1 | false ↦ find_peers S t sessions local foriegn ks ]
]

-- The loop of `session_get_connected_sessions`: the result of the lookup is read with no test.
unfoldable pub connected_loop :
    (S : BTree session_tree_compare) → S.Tree → (ℕ → Option Session) → List CStr → Outcome (List ℕ)
connected_loop S t sessions [] = done []
connected_loop S t sessions (k ∷ ks) = do
  a ← object (S.lookup t k)
  s ← object (sessions a)
  state ← deref s.current_state
  rest ← connected_loop S t sessions ks
  done (if is_connected state then a ∷ rest else rest)

abbrev pub found_session : Option ℕ → ℕ × Slot ℕ
found_session none = (0, unset)
found_session (some a) = (1, set a)

unfoldable pub sessions_in : (S : BTree session_tree_compare) → Ref S.Tree → Outcome ℕ
sessions_in S no_tree = done 0
sessions_in S (tree t) = done (length (S.keys t))
sessions_in S dangling = fault undefined

module _ {P : BTree peer_tree_compare} {S : BTree session_tree_compare} where
  -- The functions `…_in` are the branches on `session_tree`, which is their first argument.
  unfoldable pub state_in : Ref S.Tree → CStr → Process P S → Outcome State
  state_in no_tree id p = done error
  state_in (tree t) id p = elim (S.lookup t id) [
    | none ↦ done error
    | some a ↦ do s ← object (p.sessions a); deref s.current_state
  ]
  state_in dangling id p = fault undefined

  unfoldable pub session_get_state : CStr → Process P S → Outcome State
  unfolding state_in
  session_get_state id p = state_in p.session_tree id p

  unfoldable pub session_in : Ref S.Tree → Bytes → Process P S → Outcome (ℕ × Slot ℕ)
  session_in no_tree id p = done (0, unset)
  session_in (tree t) id p = do
    r ← find_session S t p.sessions id (S.keys t)
    done (found_session r)
  session_in dangling id p = fault undefined

  -- The result, and what was written to `*session_handle`.
  unfoldable pub session_get_session : Bytes → Process P S → Outcome (ℕ × Slot ℕ)
  unfolding session_in
  session_get_session id p = session_in p.session_tree id p

  unfoldable pub exists_by_id_in : Ref S.Tree → Bytes → Process P S → Outcome (ℕ × Process P S)
  exists_by_id_in no_tree id p = done (0, record p { session_tree = tree S.create })
  exists_by_id_in (tree t) id p = do r ← exists_loop S t p.sessions id (S.keys t); done (r, p)
  exists_by_id_in dangling id p = fault undefined

  unfoldable pub session_check_exists_by_id : Bytes → Process P S → Outcome (ℕ × Process P S)
  unfolding exists_by_id_in
  session_check_exists_by_id id p = exists_by_id_in p.session_tree id p

  -- `local` and `foriegn` are addresses of peers.
  unfoldable pub session_check_exists : ℕ → ℕ → Process P S → Outcome (ℕ × Process P S)
  session_check_exists local foriegn p = do
    t ← ensured S.create p.session_tree
    r ← find_peers S t p.sessions local foriegn (S.keys t)
    done (r, record p { session_tree = tree t })

  unfoldable pub session_count : Process P S → Outcome ℕ
  session_count p = sessions_in S p.session_tree

  -- `a` is the address of the session.
  unfoldable pub session_add : ℕ → Process P S → Outcome (Process P S)
  session_add a p = do
    t ← ensured S.create p.session_tree
    n ← session_count (record p { session_tree = tree t })
    s ← object (p.sessions a)
    id ← deref s.session_id
    let q = record p { session_tree = tree (S.add t id a) }
    m ← session_count q
    jnx_check (m == n + 1)
    done q

  -- `local` and `foriegn` are addresses of peers, and `g` is the UUID. The session is allocated
  -- first, and then the copy of its id, which is returned.
  unfoldable pub session_create : ℕ → ℕ → List ℕ → Process P S → Outcome (CStr × Process P S)
  session_create local foriegn g p = do
    t ← ensured S.create p.session_tree
    text ← session_generate_id g
    l ← object (p.peers local)
    let id : CStr = record { at = p.next + 1; text = text }
    let s : Session = record {
      local_peer = set local;
      foriegn_peer = set foriegn;
      local_keypair = null;
      local_public_key = null;
      foriegn_public_key = null;
      shared_secret = null;
      shared_secret_len = set 0;
      current_state = set pre_handshake;
      session_id = set id;
      session_origin_guid = l.guid;
    }
    let q : Process P S = record p {
      session_tree = tree t;
      sessions = write p.sessions p.next (some s);
      next = p.next + 2;
    }
    c ← session_count q
    r ← session_add p.next q
    n ← session_count r
    jnx_check (n == c + 1)
    done (id, r)

  -- The session goes from the tree, then its texts and itself are freed; the tests read the fields.
  unfoldable pub session_destroy : ℕ → Process P S → Outcome (Process P S)
  session_destroy a p = do
    s ← object (p.sessions a)
    t ← existing p.session_tree
    id ← deref s.session_id
    secret ← is_pointer s.shared_secret
    foriegn_key ← is_pointer s.foriegn_public_key
    local_key ← is_pointer s.local_public_key
    done (record p { session_tree = tree (S.remove t id); sessions = write p.sessions a none })

  abbrev pub connected_in : Ref S.Tree → Process P S → Outcome (Option (List ℕ))
  connected_in no_tree p = done none
  connected_in (tree t) p =
      if length (S.keys t) == 0
      then done none
      else do cl ← connected_loop S t p.sessions (S.keys t); done (some cl)
  connected_in dangling p = fault undefined

  -- NULL, or the list of the connected sessions.
  unfoldable pub session_get_connected_sessions : Process P S → Outcome (Option (List ℕ))
  session_get_connected_sessions p = connected_in p.session_tree p

  unfoldable pub session_shutdown : ℕ → Process P S → Outcome (Process P S)
  session_shutdown a p = do
    s ← object (p.sessions a)
    state ← deref s.current_state
    let closed = some (record s { current_state = set closing })
    if is_closing state then done p else done (record p { sessions = write p.sessions a closed })
