-- ===== src/Passive.antt =====
-- src/net/passive.c: what a received session does to the sessions of this peer.
pub mod Place
pub mod Adopt
pub mod Replace
pub mod Agreement
pub mod Endings
pub mod Answer
pub mod Sealing
use whisp.Prelude.{ℕ, zero, suc, ◌==◌, true, false, Option, none, some, if◌then◌else◌}
use whisp.CString.{Bytes}
use whisp.Outcome.{Outcome, done, fault, undefined, jnx_check, deref, is_pointer, ◌>>=◌, ◌>>◌}
use whisp.Btree.{BTree}
use whisp.Process.{Session, Process, peer_tree_compare, session_tree_compare, object}
use whisp.Serialization.{STypes, okay}
use whisp.Serialization.Sessions.{deserialize_session_data}
use whisp.SessionControl.{
  session_check_exists_by_id, session_get_session, session_add, session_destroy,
}
use whisp.Encryption.{Crypto}
use whisp.Authentication.{Draws, put_session, authentication_session_update}

-- The new session with the keypair of the old one, if that has one.
unfoldable pub with_keypair : Session → Session → Outcome Session
with_keypair old new = do
  has ← is_pointer old.local_keypair
  elim has [ true ↦ done (record new { local_keypair = old.local_keypair }) | false ↦ done new ]

module _ {P : BTree peer_tree_compare} {S : BTree session_tree_compare} where
  -- The `else` branch: the session at `o` makes room for the new one at `a`.
  unfoldable pub replace_session : ℕ → ℕ → Process P S → Outcome (Process P S)
  unfolding with_keypair
  replace_session o a p = do
    old ← object (p.sessions o)
    origin ← is_pointer old.session_origin_guid
    jnx_check origin
    id ← is_pointer old.session_id
    jnx_check id
    new ← object (p.sessions a)
    new' ← with_keypair old new
    q ← session_destroy o (put_session a new' p)
    session_add a q

  -- `if(!session_check_exists_by_id(...))`, on its result. None is the `return 0` of the branch
  -- where the search fails.
  unfoldable pub keep_session : ℕ → ℕ → Bytes → Process P S → Outcome (Option (Process P S))
  unfolding replace_session
  keep_session zero a id p = session_add a p >>= λ q. done (some q)
  keep_session (suc n) a id p = do
    (found, handle) ← session_get_session id p
    if found == 0
        then done none
        else (deref handle >>= λ o. replace_session o a p >>= λ q. done (some q))

  module _ (C : Crypto) where
    unfoldable pub updated : ℕ → Draws → Option (Process P S) → Process P S → Outcome (Process P S)
    updated a d none p = done p
    updated a d (some q) p = authentication_session_update C a d q >>= λ r. done r.1

    -- The new session is at `a`.
    unfoldable pub session_received : ℕ → Draws → Process P S → Outcome (Process P S)
    unfolding keep_session updated
    session_received a d p = do
      s ← object (p.sessions a)
      id ← deref s.session_id
      (found, q) ← session_check_exists_by_id id.text p
      r ← keep_session found a id.text q
      updated a d r q

    -- The branches on the result of `deserialize_session_data`: an error is logged.
    unfoldable pub session_read :
        STypes × Option (ℕ × Session) × Process P S → Draws → Outcome (Process P S)
    unfolding session_received
    session_read (okay, some (a, s), p) d = session_received a d (put_session a s p)
    session_read (okay, none, p) d = fault undefined
    session_read (_, s, p) d = done p

    -- The callback returns `is_not_exiting`, which the model leaves out.
    unfoldable pub passive_listener_callback :
        Bytes → ℕ → Draws → Process P S → Outcome (Process P S)
    unfolding session_read
    passive_listener_callback msg msg_len d p = do
      r ← deserialize_session_data msg msg_len p
      session_read r d
