-- ===== src/Authentication/Steps.antt =====
-- The steps of `authentication_session_update` of src/net/authentication.c, when they go through.
use whisp.Prelude.{ℕ, ◌+◌, ◌≡◌, refl, Option, some, if◌then◌else◌, arith}
use whisp.CString.{strcmp_eq}
use whisp.Outcome.{done, set}
use whisp.Btree.{BTree}
use whisp.Process.{
  Session, State, pre_handshake, public_key_exchange, handshaking, Process, peer_tree_compare,
  session_tree_compare, write,
}
use whisp.Encryption.{Crypto, public, key_to_string}
use whisp.Authentication.{
  Draws, put_session, is_origin, on_pre_handshake, on_public_key_exchange, on_state,
  authentication_session_update,
}
use whisp.Authentication.Outgoing.{
  IsShown, IsNamed, packet, Fits, outgoing, authentication_update_foriegn_session_lem,
}

pub write_same {ℓ} :
    {A : Type ℓ} (heap : ℕ → Option A) (a : ℕ) (v : Option A) → write heap a v a ≡ v
write_same heap a v = ground arith

module _ {P : BTree peer_tree_compare} {S : BTree session_tree_compare} where
  pub is_origin_lem :
      (s : Session) (p : Process P S) (n : IsNamed s p)
      → is_origin s p ≡ done (strcmp_eq n.own n.origin_guid.text)
  unfolding is_origin
  is_origin_lem s p n = ground (arith, n.has_guid, n.is_origin_guid)

  -- A step that ends with the session in `state'`.
  pub update_ran :
      (C : Crypto) (a : ℕ) (s s' : Session) (d : Draws) (state state' : State) (p q : Process P S)
      → p.sessions a ≡ some s
      → s.current_state ≡ set state
      → on_state C state a s d p ≡ done q
      → q.sessions a ≡ some s'
      → s'.current_state ≡ set state'
      → authentication_session_update C a d p ≡ done (state', q)
  unfolding authentication_session_update
  update_ran C a s s' d state state' p q at in_state ran at' in_state' =
      ground (arith, at, in_state, ran, at', in_state')

  -- The session with a new key, as the peer that starts the handshake sends it.
  abbrev pub offered : Crypto → Draws → Session → Process P S → Session
  offered C d s p = record s {
    local_keypair = set d.keypair;
    local_public_key =
        set (record { at = p.next; text = key_to_string C d.keypair public d.slack });
    current_state = set public_key_exchange;
  }

  -- The process that keeps it.
  abbrev pub kept : ℕ → Session → ℕ → Process P S → Process P S
  kept a s next p = put_session a s (record p { next = next })

  -- In the state before the handshake, a session gets a key of its own and goes on to the exchange of
  -- keys. Only the peer whose GUID the session names as its origin sends it, with that key, and to
  -- the foriegn peer alone.
  pub pre_handshake_lem :
      (C : Crypto) (a : ℕ) (s : Session) (d : Draws) (p : Process P S) (n : IsNamed s p)
      (h : IsShown (offered C d s p))
      → p.sessions a ≡ some s
      → s.current_state ≡ set pre_handshake
      → Fits (offered C d s p) p n h
      → authentication_session_update C a d p
        ≡ done (
          public_key_exchange,
          if strcmp_eq n.own n.origin_guid.text
              then outgoing
                  (packet (offered C d s p) p n h)
                  (kept a (offered C d s p) (p.next + 1) p)
              else kept a (offered C d s p) (p.next + 1) p,
        )
  unfolding on_pre_handshake
  pre_handshake_lem C a s d p n h at in_state fits =
      let s' = offered C d s p in
      let q = kept a s' (p.next + 1) p in
      let sends =
        authentication_update_foriegn_session_lem a s' q n h (write_same p.sessions a (some s'))
          fits in
      update_ran C a s s' d pre_handshake public_key_exchange p _ at in_state
        (ground (arith, is_origin_lem s' (record p { next = p.next + 1 }) n, sends))
        (ground (arith, write_same p.sessions a (some s'))) refl

  -- The session with a new key in the place of the foriegn one, as the other peer answers it.
  abbrev pub answered : Crypto → Draws → Session → Process P S → Session
  answered C d s p = record s {
    local_keypair = set d.keypair;
    foriegn_public_key =
        set (record { at = p.next; text = key_to_string C d.keypair public d.slack });
    current_state = set handshaking;
  }

  -- In the exchange of keys, a session keeps a new keypair, takes its public key for the foriegn one,
  -- is sent to the foriegn peer and is handshaking then, whoever its origin is.
  pub public_key_exchange_lem :
      (C : Crypto) (a : ℕ) (s : Session) (d : Draws) (p : Process P S) (n : IsNamed s p)
      (h : IsShown (answered C d s p))
      → p.sessions a ≡ some s
      → s.current_state ≡ set public_key_exchange
      → Fits (answered C d s p) p n h
      → authentication_session_update C a d p
        ≡ done (
          handshaking,
          outgoing (packet (answered C d s p) p n h) (kept a (answered C d s p) (p.next + 1) p),
        )
  unfolding on_public_key_exchange
  public_key_exchange_lem C a s d p n h at in_state fits =
      let s' = answered C d s p in
      let q = kept a s' (p.next + 1) p in
      let sends =
        authentication_update_foriegn_session_lem a s' q n h (write_same p.sessions a (some s'))
          fits in
      update_ran C a s s' d public_key_exchange handshaking p _ at in_state (ground (arith, sends))
        (ground (arith, write_same p.sessions a (some s'))) refl
