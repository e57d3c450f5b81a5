-- ===== src/Discovery/Known.antt =====
-- What the store knows of a GUID, and what an update of it is (src/net/discovery.c).
use whisp.Prelude.{
  ℕ, ◌+◌, ◌≤◌, ◌≡◌, refl, ◌≢◌, Option, none, some, arith, length, Bool-cases, Option-cases, inl,
  inr, if◌then◌else◌,
}
use whisp.CString.{Bytes, CStr, strcmp_eq}
use whisp.CString.Tokens.{strcmp_eq_iff}
use whisp.Outcome.{done, set}
use whisp.Btree.{BTree}
use whisp.Btree.Pointers.{Absent, All-map}
use whisp.Process.{RawPeer, Process, peer_tree_compare, session_tree_compare, write}
use whisp.Peerstore.View.{Held, stored_in, peer_at, StoreIsValid, checked, peerstore_check_peer_lem}
use whisp.Peerstore.Changes.{IsStore-Agrees, Found, first_text-Found}
use whisp.Peerstore.Operations.{refreshed, RefIsValid-map, stored-Held}
use whisp.Discovery.{keep_peer, peer_received}

-- The pointers of a new peer that are checked, and its GUID.
pub record IsComplete (k : CStr) (rp : RawPeer) : Type 0 where
  pub guid : rp.guid ≡ set k
  pub command : (s : CStr) × (rp.command ≡ set s)
  pub ip : (s : CStr) × (rp.ip ≡ set s)
  pub port : (s : CStr) × (rp.port ≡ set s)

abbrev pub peer_of : (ℕ → Option RawPeer) → Option ℕ → Option RawPeer
peer_of peers none = none
peer_of peers (some a) = peers a

abbrev pub new_entries : Option ℕ → ℕ
new_entries none = 1
new_entries (some a) = 0

-- A new GUID brings its peer, and a known one takes over the four fields.
abbrev pub merged : RawPeer → Option RawPeer → RawPeer
merged rp none = rp
merged rp (some old) = refreshed rp old

module _ {P : BTree peer_tree_compare} {S : BTree session_tree_compare} where
  -- What the store knows of a GUID.
  abbrev pub known : Process P S → Bytes → Option RawPeer
  known p guid = peer_of p.peers (peer_at p guid)

  -- The state with the object that `deserialize_data` made.
  abbrev pub loaded : ℕ → RawPeer → ℕ → Process P S → Process P S
  loaded a rp later p = record p { peers = write p.peers a (some rp); next = later }

  pub loaded-valid :
      (a : ℕ) (rp : RawPeer) (later : ℕ) (p : Process P S)
      → p.next ≤ a
      → p.next ≤ later
      → StoreIsValid p
      → StoreIsValid (loaded a rp later p)
  loaded-valid a rp later p fresh more v =
      RefIsValid-map p.store p (loaded a rp later p)
        (λ es w. IsStore-Agrees (λ b h. ground arith) more w) v

  -- The keys of the store lie below `next`, so a new pointer is no key.
  pub stored-Absent :
      (p : Process P S) (k : CStr) → StoreIsValid p → p.next ≤ k.at → Absent k (stored_in P p.store)
  stored-Absent p k v h =
      All-map (Held p.peers p.next) (stored_in P p.store) (λ e w. omega (arith, w.key_below))
        (stored-Held p.store p v)

  -- What a message about the peer `rp`, with GUID `k`, does to the store: its GUID is known as the
  -- merged peer, every other GUID is known as before, and there is one entry more if it is new. The
  -- sessions, the settings and what was sent stay.
  pub record Upserted (k : CStr) (rp : RawPeer) (p q : Process P S) : Type 0 where
    pub valid : StoreIsValid q
    pub known_after :
        (guid : Bytes)
        → known q guid
          ≡ (if strcmp_eq k.text guid then some (merged rp (known p k.text)) else known p guid)
    pub sessions_after : q.sessions ≡ p.sessions
    pub session_tree_after : q.session_tree ≡ p.session_tree
    pub configuration_after : q.configuration ≡ p.configuration
    pub sent_after : q.sent ≡ p.sent
    pub grows : p.next ≤ q.next
    pub count :
        length (stored_in P q.store) ≡ length (stored_in P p.store) + new_entries (peer_at p k.text)

  -- The run of `peer_received` goes on with the result of the search.
  pub peer_received-checked :
      (a : ℕ) (rp : RawPeer) (k : CStr) (p : Process P S)
      → IsComplete k rp
      → StoreIsValid p
      → peer_received a rp p ≡ keep_peer a (checked k.text p)
  unfolding peer_received
  peer_received-checked a rp k p c v =
      let (s, hs) = c.command in
      let (i, hi) = c.ip in
      let (t, ht) = c.port in
      rw (c.guid, hs, hi, ht) (rw (peerstore_check_peer_lem k.text p v) refl)

  -- What the message leaves in the store, for the state `p` before it was loaded.
  abbrev pub Merges : ℕ → RawPeer → ℕ → CStr → Process P S → Type 0
  Merges a rp later k p =
      (q : Process P S) × (peer_received a rp (loaded a rp later p) ≡ done q) × Upserted k rp p q

  -- A GUID that leads to the same object, which is the same, is known as before.
  pub known-eq :
      (p q : Process P S) (guid : Bytes)
      → StoreIsValid p
      → peer_at q guid ≡ peer_at p guid
      → ((h : ℕ) → Found p.peers p.next guid h → q.peers h ≡ p.peers h)
      → known q guid ≡ known p guid
  known-eq p q guid v e same = rw e (elim (Option-cases (peer_at p guid)) [
    | inl h ↦ rw h refl
    | inr (a, h) ↦ rw h (
        same a (
          first_text-Found p.peers p.next guid a (stored_in P p.store) (stored-Held p.store p v) h))
  ])

  pub known_cases :
      (rp : RawPeer) (k : CStr) (p q : Process P S) (guid : Bytes)
      → known q k.text ≡ some (merged rp (known p k.text))
      → (k.text ≢ guid → known q guid ≡ known p guid)
      → known q guid
        ≡ (if strcmp_eq k.text guid then some (merged rp (known p k.text)) else known p guid)
  known_cases rp k p q guid self other = elim (Bool-cases (strcmp_eq k.text guid)) [
    | inl e ↦ rw (e, ← (strcmp_eq_iff k.text guid).0 e) self
    | inr e ↦ rw e (other (λ same. ground (arith, strcmp_eq_iff k.text guid)))
  ]
