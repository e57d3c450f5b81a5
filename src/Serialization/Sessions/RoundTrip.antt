-- ===== src/Serialization/Sessions/RoundTrip.antt =====
-- A session that is sent is read back: its texts, its state and the length of its secret are copied,
-- and the two GUIDs are looked up, so that the reader's own is the local one.
use whisp.Prelude.{
  ℕ, ◌≤◌, ap, ◌+◌, ◌<◌, ◌≡◌, refl, ◌⊎◌, inl, inr, false, some, List, [], ◌∷◌, length, arith,
  ltb-true,
}
use whisp.CString.{Bytes, codes, strcmp_eq, tokens, sprintf, show_int}
use whisp.CString.Tokens.{IsWord, strcmp_eq_refl}
use whisp.CString.Decimal.{atoi-show_int, show_int-IsWord}
use whisp.Outcome.{done, unset, set, ◌>>=◌}
use whisp.Btree.{BTree}
use whisp.Process.{
  Session, Process, peer_tree_compare, session_tree_compare, state_of_int, size_of_int, Ref,
}
use whisp.Peerstore.View.{peer_at, RefIsValid, StoreIsValid, peerstore_check_peer_lem}
use whisp.Peerstore.Changes.{IsStore-Agrees}
use whisp.Peerstore.Operations.{checked_in-some, RefIsValid-map}
use whisp.Serialization.{okay}
use whisp.Serialization.Peers.{framed, tokens-framed}
use whisp.Serialization.Sessions.{
  Wire, session_frame, wire_args, session_key, fresh_session, serialize_session_data, wire_of,
  place_peer, bumped, set_peer, session_loop, deserialize_session_data,
}

abbrev pub wire_words : Wire → List Bytes
wire_words w =
    codes "LOCAL_PEER"
    ∷ w.local_guid
    ∷ codes "FORIEGN_PEER"
    ∷ w.foriegn_guid
    ∷ codes "SHARED_SECRET"
    ∷ w.secret
    ∷ codes "CURRENT_STATE"
    ∷ show_int w.state
    ∷ codes "SESSION_ID"
    ∷ w.id
    ∷ codes "SESSION_ORIGIN_GUID"
    ∷ w.origin
    ∷ codes "LOCAL_PUBLIC_KEY"
    ∷ w.local_key
    ∷ codes "FORIEGN_PUBLIC_KEY"
    ∷ w.foriegn_key
    ∷ codes "SHARED_SECRET_LEN"
    ∷ show_int w.secret_len
    ∷ []

sprintf-session_frame : (w : Wire) → sprintf session_frame (wire_args w) ≡ framed (wire_words w)
unfolding sprintf
sprintf-session_frame w = refl

-- The texts can be told apart on the wire.
pub record IsSendable (w : Wire) : Type 0 where
  pub local_guid : IsWord w.local_guid
  pub foriegn_guid : IsWord w.foriegn_guid
  pub secret : IsWord w.secret
  pub id : IsWord w.id
  pub origin : IsWord w.origin
  pub local_key : IsWord w.local_key
  pub foriegn_key : IsWord w.foriegn_key

tokens-wire :
    (w : Wire) → IsSendable w → tokens (sprintf session_frame (wire_args w)) ≡ wire_words w
tokens-wire w h = rw sprintf-session_frame (
    tokens-framed (wire_words w)
      (ground (arith, show_int-IsWord w.state, show_int-IsWord w.secret_len)))

-- The session that is read: `next` is the address of its first text.
abbrev pub read_session : Wire → ℕ → ℕ → ℕ → Session
read_session w local foriegn next = record {
  local_peer = set local;
  foriegn_peer = set foriegn;
  local_keypair = unset;
  local_public_key = set (record { at = next + 1 + 1 + 1; text = w.local_key });
  foriegn_public_key = set (record { at = next + 1 + 1 + 1 + 1; text = w.foriegn_key });
  shared_secret = set (record { at = next; text = w.secret });
  shared_secret_len = set (size_of_int w.secret_len);
  current_state = set (state_of_int w.state);
  session_id = set (record { at = next + 1; text = w.id });
  session_origin_guid = set (record { at = next + 1 + 1; text = w.origin });
}

-- One GUID of the message is the reader's own, and the other is not.
abbrev pub NamesBoth : Bytes → Bytes → Wire → Type 0
NamesBoth own other w =
    ((w.local_guid ≡ own) × (w.foriegn_guid ≡ other))
    ⊎ ((w.local_guid ≡ other) × (w.foriegn_guid ≡ own))

-- The loop behind the two GUIDs.
abbrev rest_words : Wire → List Bytes
rest_words w =
    codes "SHARED_SECRET"
    ∷ w.secret
    ∷ codes "CURRENT_STATE"
    ∷ show_int w.state
    ∷ codes "SESSION_ID"
    ∷ w.id
    ∷ codes "SESSION_ORIGIN_GUID"
    ∷ w.origin
    ∷ codes "LOCAL_PUBLIC_KEY"
    ∷ w.local_key
    ∷ codes "FORIEGN_PUBLIC_KEY"
    ∷ w.foriegn_key
    ∷ codes "SHARED_SECRET_LEN"
    ∷ show_int w.secret_len
    ∷ []

module _ {P : BTree peer_tree_compare} {S : BTree session_tree_compare} where
  -- The state after the session and its five texts are allocated.
  abbrev pub after_read : Process P S → Process P S
  after_read p = record p { next = p.next + 1 + 1 + 1 + 1 + 1 + 1 }

  set_peer_found :
      (value own : Bytes) (a : ℕ) (s : Session) (p : Process P S)
      → p.configuration (codes "GUID") ≡ some own
      → StoreIsValid p
      → peer_at p value ≡ some a
      → set_peer value s p ≡ done (place_peer (strcmp_eq value own) (1, set a) s, p)
  unfolding set_peer
  set_peer_found value own a s p c v h =
      rw (c, peerstore_check_peer_lem value p v, checked_in-some p.store value p a v h) refl

  bumped-StoreIsValid : (p : Process P S) → StoreIsValid p → StoreIsValid (bumped p)
  bumped-StoreIsValid p v =
      RefIsValid-map p.store p (bumped p) (λ es w. IsStore-Agrees (λ b h. refl) (omega arith) w) v

  session_loop-rest :
      (w : Wire) (at x y : ℕ) (p : Process P S)
      → session_loop
          (rest_words w)
          at
          (record fresh_session { local_peer = set x; foriegn_peer = set y })
          (bumped p)
        ≡ done (okay, some (at, read_session w x y (p.next + 1)), after_read p)
  unfolding session_loop session_key strcmp_eq
  session_loop-rest w at x y p = rw (atoi-show_int w.state, atoi-show_int w.secret_len)

  session_loop-guids :
      (v u : Bytes) (ts : List Bytes) (at : ℕ) (s : Session) (p : Process P S)
      → session_loop (codes "LOCAL_PEER" ∷ v ∷ codes "FORIEGN_PEER" ∷ u ∷ ts) at s p
        ≡ (set_peer v s p >>= λ r. set_peer u r.0 r.1 >>= λ q. session_loop ts at q.0 q.1)
  unfolding session_loop session_key strcmp_eq
  session_loop-guids v u ts at s p = refl

  -- Where the reader stands: its own GUID and the other one, and the peers that it has under them.
  pub record Knows (own other : Bytes) (x y : ℕ) (p : Process P S) : Type 0 where
    pub valid : StoreIsValid p
    pub configured : p.configuration (codes "GUID") ≡ some own
    pub differ : strcmp_eq other own ≡ false
    pub own_at : peer_at p own ≡ some x
    pub other_at : peer_at p other ≡ some y

  -- The peers and the settings are as they were, and the heap has grown.
  pub record SamePeers (p q : Process P S) : Type 0 where
    pub peers : q.peers ≡ p.peers
    pub store : q.store ≡ p.store
    pub configuration : q.configuration ≡ p.configuration
    pub grows : p.next ≤ q.next

  RefIsValid-at : (r s : Ref P.Tree) (q : Process P S) → s ≡ r → RefIsValid r q → RefIsValid s q
  RefIsValid-at r s q e v = rw e v

  -- The reader stands there as well later, when only its sessions have changed.
  pub Knows-SamePeers :
      (own other : Bytes) (x y : ℕ) (p q : Process P S)
      → Knows own other x y p
      → SamePeers p q
      → Knows own other x y q
  Knows-SamePeers own other x y p q k h = record {
    valid = RefIsValid-at p.store q.store q h.store (
        RefIsValid-map p.store p q
          (λ es w. IsStore-Agrees (λ b l. ap (λ heap. heap b) h.peers) h.grows w) k.valid);
    configured = rw h.configuration k.configured;
    differ = k.differ;
    own_at = rw h.store k.own_at;
    other_at = rw h.store k.other_at;
  }

  session_loop-wire :
      (own other : Bytes) (x y : ℕ) (w : Wire) (p : Process P S)
      → Knows own other x y p
      → NamesBoth own other w
      → session_loop (wire_words w) p.next fresh_session (bumped p)
        ≡ done (okay, some (p.next, read_session w x y (p.next + 1)), after_read p)
  session_loop-wire own other x y w p k n =
      let v = bumped-StoreIsValid p k.valid in
      let place = λ (value : Bytes) (a : ℕ) (s : Session) (h : peer_at p value ≡ some a).
        set_peer_found value own a s (bumped p) k.configured v h in
      rw session_loop-guids (elim n [
        | inl (a, b) ↦
            rw (a, b)
              (rw (place own x fresh_session k.own_at, strcmp_eq_refl own)
                (rw
                  (place other y (record fresh_session { local_peer = set x }) k.other_at, k.differ)
                  (session_loop-rest w p.next x y p)))
        | inr (a, b) ↦
            rw (a, b)
              (rw (place other y fresh_session k.other_at, k.differ)
                (rw
                  (
                    place own x (record fresh_session { foriegn_peer = set y }) k.own_at,
                    strcmp_eq_refl own,
                  )
                  (session_loop-rest w p.next x y p)))
      ])

  pub deserialize_session_data-wire :
      (own other : Bytes) (x y : ℕ) (w : Wire) (len : ℕ) (p : Process P S)
      → IsSendable w
      → 0 < len
      → Knows own other x y p
      → NamesBoth own other w
      → deserialize_session_data (sprintf session_frame (wire_args w)) len p
        ≡ done (okay, some (p.next, read_session w x y (p.next + 1)), after_read p)
  unfolding deserialize_session_data
  deserialize_session_data-wire own other x y w len p h pos k n =
      rw (tokens-wire w h) (ground (arith, session_loop-wire own other x y w p k n))

  -- A session whose texts are words is sent by one process and read by another that knows both
  -- peers: the texts, the state and the length come over, and, whichever of the two the sender is,
  -- the reader's own peer is the local one and the other the foriegn one. The keypair is not sent.
  pub deserialize_session_data-serialize_session_data :
      (a : ℕ) (w : Wire) (own other : Bytes) (x y : ℕ) (sender p : Process P S)
      → wire_of a sender ≡ done w
      → IsSendable w
      → length (sprintf session_frame (wire_args w)) < 6000
      → Knows own other x y p
      → NamesBoth own other w
      → (serialize_session_data a sender >>= λ sent. deserialize_session_data sent.0 sent.1 p)
        ≡ done (okay, some (p.next, read_session w x y (p.next + 1)), after_read p)
  unfolding serialize_session_data
  deserialize_session_data-serialize_session_data a w own other x y sender p e h fits k n = rw e (
      rw (ltb-true (length (sprintf session_frame (wire_args w))) 6000 fits) (
        deserialize_session_data-wire own other x y w (length (sprintf session_frame (wire_args w)))
          p h (unfold sprintf in omega arith) k n))
