-- ===== src/UserInput/Start/Unplaced.antt =====
-- A session that arrives with no local peer, in a state that no step of the handshake begins
-- (src/net/passive.c), and what `user_start_session` (src/app/userinput.c) does after it.
use whisp.Prelude.{
  ℕ, ◌==◌, ◌<◌, ◌≡◌, ◌≢◌, refl, ap, subst, ◌∙◌, sym, Bool, true, false, ◌&&◌, Option, none, some,
  List, [], ◌∷◌, map, arith, All, ◌⊎◌, Bool-cases, inl, inr,
}
use whisp.CString.{Bytes, CStr, codes}
use whisp.Outcome.{Outcome, done, fault, undefined, Slot, unset, null, set, ◌>>=◌}
use whisp.Btree.{BTree, Entry, Inserts, here, there}
use whisp.Process.{
  Session, State, closing, dormant, error, pre_handshake, public_key_exchange, handshaking,
  connected, other, Process, Ref, write, peer_tree_compare, session_tree_compare,
}
use whisp.SessionControl.{same_pointer, find_peers, session_check_exists}
use whisp.SessionControl.View.{
  HeldSession, SessionsAreValid, listed_in, listed_held, session_at, lookups,
}
use whisp.CString.Tokens.{strcmp_eq_iff}
use whisp.Btree.Pointers.{All-map, first_text}
use whisp.Peerstore.View.{StoreIsValid, stored_in, peer_at}
use whisp.Encryption.{Crypto}
use whisp.Authentication.{Draws, authentication_session_update}
use whisp.Passive.{session_received}
use whisp.Passive.Place.{arrived, Arrives, session_received-Joins}
use whisp.UserInput.{session_between, session_with, user_start_session}
use whisp.UserInput.Start.{known_peer}
use whisp.Sound.{store-Agrees}
use whisp.SessionControl.Changes.{ensured-listed}
use whisp.SessionControl.Between.{points_to, same_pointer-points_to, has_between}

Slot-cases : (s : Slot ℕ) → (s ≡ unset) ⊎ (s ≢ unset)
Slot-cases unset = inl refl
Slot-cases null = inr (λ e. cc)
Slot-cases (set a) = inr (λ e. cc)

-- The states in which an update does nothing.
abbrev pub IsIdle : State → Type 0
IsIdle closing = Unit
IsIdle dormant = Unit
IsIdle error = Unit
IsIdle (other z) = Unit
IsIdle _ = ⊥

-- The test of the loop at one entry.
abbrev between_test : ℕ → ℕ → Slot ℕ → Slot ℕ → Outcome Bool
between_test local foriegn l f =
    same_pointer local l >>= λ x. elim x [ true ↦ same_pointer foriegn f | false ↦ done false ]

-- It goes on to the next entry or faults, where the session is not between the two.
between_test-cases :
    (local foriegn : ℕ) (l f : Slot ℕ)
    → (points_to local l && points_to foriegn f) ≡ false
    → (between_test local foriegn l f ≡ done false)
      ⊎ (between_test local foriegn l f ≡ fault undefined)
between_test-cases local foriegn unset f h = inr refl
between_test-cases local foriegn null f h = inl refl
between_test-cases local foriegn (set b) f h = elim (Bool-cases (local == b)) [
  | inl e ↦ elim (Slot-cases f) [
    | inl u ↦ inr (rw (e, u) refl)
    | inr g ↦ inl (rw e (same_pointer-points_to foriegn f g ∙ ap done (ground (arith, h, e))))
  ]
  | inr e ↦ inl (rw e refl)
]

find_peers_unset :
    (S : BTree session_tree_compare) (t : S.Tree) (sessions : ℕ → Option Session) (next : ℕ)
    (local foriegn a : ℕ) (k : CStr) (s : Session) {xs es : List Entry}
    → Inserts (k, a) xs es
    → sessions a ≡ some s
    → s.local_peer ≡ unset
    → All (HeldSession sessions next) es
    → All (λ (e : Entry). S.lookup t e.0 ≡ some e.1) es
    → has_between local foriegn sessions es ≡ false
    → find_peers S t sessions local foriegn (map (λ e. e.0) es) ≡ fault undefined
unfolding find_peers has_between
find_peers_unset S t sessions next local foriegn a k s here at lost held l none_between =
    rw (l.0, at, lost) refl
find_peers_unset S t sessions next local foriegn a k s (there {x} {xs} {ys} i) at lost held l
      none_between =
    let g = held.0 in
    let rest =
      find_peers_unset S t sessions next local foriegn a k s i at lost held.1 l.1
        (ground (arith, none_between)) in
    elim (between_test-cases local foriegn g.session.local_peer g.session.foriegn_peer
      (ground (arith, none_between, g.at))) [
        | inl e ↦ ground (arith, l.0, g.at, e, rest)
        | inr e ↦ ground (arith, l.0, g.at, e)
      ]

-- What is written at a new address is no session of these.
has_between-write :
    (local foriegn a : ℕ) (s : Session) (sessions : ℕ → Option Session) (es : List Entry)
    → All (λ (e : Entry). e.1 < a) es
    → has_between local foriegn sessions es ≡ false
    → has_between local foriegn (write sessions a (some s)) es ≡ false
unfolding has_between
has_between-write local foriegn a s sessions [] old h = refl
has_between-write local foriegn a s sessions ((k, b) ∷ es) old h =
    let below = old.0 in
    let rest = has_between-write local foriegn a s sessions es old.1 (ground (arith, h)) in
    let same : write sessions a (some s) b ≡ sessions b = ground arith in
    rw same (ground (arith, h, rest))

-- The new session is between no two peers.
has_between-joined :
    (local foriegn a : ℕ) (k : CStr) (s : Session) (sessions : ℕ → Option Session)
    {xs es : List Entry}
    → Inserts (k, a) xs es
    → s.local_peer ≡ unset
    → All (λ (e : Entry). e.1 < a) xs
    → has_between local foriegn sessions xs ≡ false
    → has_between local foriegn (write sessions a (some s)) es ≡ false
unfolding has_between
has_between-joined local foriegn a k s sessions {xs} here lost old h =
    let rest = has_between-write local foriegn a s sessions xs old h in ground (arith, lost, rest)
has_between-joined local foriegn a k s sessions (there {x} {xs} {ys} i) lost old h =
    let below = old.0 in
    let rest = has_between-joined local foriegn a k s sessions i lost old.1 (ground (arith, h)) in
    let same : write sessions a (some s) x.1 ≡ sessions x.1 = ground arith in
    rw same (ground (arith, h, rest))

module _ {P : BTree peer_tree_compare} {S : BTree session_tree_compare} where
  idle_update :
      (C : Crypto) (a : ℕ) (d : Draws) (s : Session) (state : State) (p : Process P S)
      → p.sessions a ≡ some s
      → s.current_state ≡ set state
      → IsIdle state
      → authentication_session_update C a d p ≡ done (state, p)
  unfolding authentication_session_update
  idle_update C a d s closing p at c i = ground (arith, at, c)
  idle_update C a d s dormant p at c i = ground (arith, at, c)
  idle_update C a d s error p at c i = ground (arith, at, c)
  idle_update C a d s (other z) p at c i = ground (arith, at, c)
  idle_update C a d s pre_handshake p at c i = absurd i
  idle_update C a d s public_key_exchange p at c i = absurd i
  idle_update C a d s handshaking p at c i = absurd i
  idle_update C a d s connected p at c i = absurd i

  check_faults :
      (local foriegn a : ℕ) (k : CStr) (s : Session) (xs : List Entry) (p : Process P S)
      → SessionsAreValid p
      → Inserts (k, a) xs (listed_in S p.session_tree)
      → p.sessions a ≡ some s
      → s.local_peer ≡ unset
      → has_between local foriegn p.sessions (listed_in S p.session_tree) ≡ false
      → session_check_exists local foriegn p ≡ fault undefined
  unfolding session_check_exists
  check_faults local foriegn a k s xs p v i at lost apart =
      let (t, e, same, w) = ensured-listed p.session_tree p v in
      let run : find_peers S t p.sessions local foriegn (S.keys t) ≡ fault undefined =
        rw S.keys_lem (
          find_peers_unset S t p.sessions p.next local foriegn a k s
            (subst (λ (es : List Entry). Inserts (k, a) xs es) (sym same) i) at lost w.held
            (lookups p t w) (rw same apart)) in
      rw e (rw run refl)

  moved_peer :
      (guid : Bytes) (a : ℕ) (p q : Process P S)
      → q.store ≡ p.store
      → peer_at p guid ≡ some a
      → peer_at q guid ≡ some a
  moved_peer guid a p q e h = ap (λ (r : Ref P.Tree). first_text guid (stored_in P r)) e ∙ h

  -- A message whose session has a new id, no local peer, and a state in which an update does nothing, is
  -- taken: the session is added and stays. From then on `user_start_session` of any known peer with which
  -- there is no session reads a pointer that was never written.
  pub session_received-user_start_session :
      (C : Crypto) (a : ℕ) (s : Session) (k : CStr) (later : ℕ) (d d' : Draws) (state : State)
      (own guid : Bytes) (local foriegn : ℕ) (uuid : List ℕ) (p : Process P S)
      → StoreIsValid p
      → SessionsAreValid p
      → Arrives a s k later p
      → session_at p k.text ≡ none
      → s.local_peer ≡ unset
      → s.current_state ≡ set state
      → IsIdle state
      → p.configuration (codes "GUID") ≡ some own
      → peer_at p own ≡ some local
      → peer_at p guid ≡ some foriegn
      → has_between local foriegn p.sessions (listed_in S p.session_tree) ≡ false
      → (q : Process P S) × (session_received C a d (arrived a s later p) ≡ done q)
        × (session_at q k.text ≡ some a)
        × (user_start_session C guid uuid d' q ≡ fault undefined)
  unfolding user_start_session session_with session_between
  session_received-user_start_session C a s k later d d' state own guid local foriegn uuid p store v
        r new lost in_state idle has_guid knows_own knows_other apart =
      let (q, ran, placed, joined, heap) = session_received-Joins C a s k later d p v r new in
      let w : StoreIsValid q =
        store-Agrees p q store placed.store_after (λ b h. rw placed.peers_after refl)
          placed.grows in
      let old : All (λ (e : Entry). e.1 < a) (listed_in S p.session_tree) =
        All-map (HeldSession p.sessions p.next) (listed_in S p.session_tree)
          (λ e h. let f = r.fresh in omega (arith, h.below)) (listed_held p.session_tree p v) in
      let apart' : has_between local foriegn q.sessions (listed_in S q.session_tree) ≡ false =
        rw heap (has_between-joined local foriegn a k s p.sessions joined lost old apart) in
      let check =
        check_faults local foriegn a k s (listed_in S p.session_tree) q placed.valid joined
          placed.session_after lost apart' in
      let own_known =
        known_peer own local q w (moved_peer own local p q placed.store_after knows_own) in
      let other_known =
        known_peer guid foriegn q w (moved_peer guid foriegn p q placed.store_after knows_other) in
      let settings : q.configuration (codes "GUID") ≡ some own =
        ap (λ (c : Bytes → Option Bytes). c (codes "GUID")) placed.configuration_after ∙ has_guid in
      (
        q,
        ran ∙ rw (idle_update C a d s state q placed.session_after in_state idle) refl,
        placed.map_after k.text ∙ rw ((strcmp_eq_iff k.text k.text).1 refl) refl,
        rw settings (rw own_known (rw other_known (rw check refl))),
      )
