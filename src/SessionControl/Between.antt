-- ===== src/SessionControl/Between.antt =====
-- `session_check_exists` of src/data/sessioncontrol.c: is there a session between two peers?
use whisp.Prelude.{
  ℕ, ◌==◌, ◌≡◌, ◌≢◌, refl, ◌∙◌, Bool, true, false, ◌&&◌, Option, none, some, List, [], ◌∷◌, map,
  arith, All, if◌then◌else◌,
}
use whisp.Outcome.{done, Slot, unset, null, set}
use whisp.Btree.{BTree, Entry}
use whisp.Process.{Session, Process, peer_tree_compare, session_tree_compare, tree, ensured}
use whisp.SessionControl.{same_pointer, find_peers, session_check_exists}
use whisp.SessionControl.View.{listed_in, SessionsAreValid, lookups}
use whisp.SessionControl.Changes.{ensured-listed}

-- The pointer is this address.
abbrev pub points_to : ℕ → Slot ℕ → Bool
points_to a (set b) = a == b
points_to a _ = false

abbrev pub is_between : ℕ → ℕ → Option Session → Bool
is_between local foriegn none = false
is_between local foriegn (some s) = points_to local s.local_peer && points_to foriegn s.foriegn_peer

-- There is an entry whose session is between the two.
unfoldable pub has_between : ℕ → ℕ → (ℕ → Option Session) → List Entry → Bool
has_between local foriegn sessions [] = false
has_between local foriegn sessions ((k, a) ∷ es) =
    if is_between local foriegn (sessions a) then true else has_between local foriegn sessions es

-- Both peers of the entry's session were written.
pub record HasPeers (sessions : ℕ → Option Session) (e : Entry) : Type 0 where
  pub session : Session
  pub at : sessions e.1 ≡ some session
  pub local_peer : session.local_peer ≢ unset
  pub foriegn_peer : session.foriegn_peer ≢ unset

pub same_pointer-points_to :
    (a : ℕ) (s : Slot ℕ) → s ≢ unset → same_pointer a s ≡ done (points_to a s)
same_pointer-points_to a unset h = absurd (h refl)
same_pointer-points_to a null h = refl
same_pointer-points_to a (set b) h = refl

find_peers-has_between :
    (S : BTree session_tree_compare) (t : S.Tree) (sessions : ℕ → Option Session)
    (local foriegn : ℕ) (es : List Entry)
    → All (HasPeers sessions) es
    → All (λ (e : Entry). S.lookup t e.0 ≡ some e.1) es
    → find_peers S t sessions local foriegn (map (λ e. e.0) es)
      ≡ done (if has_between local foriegn sessions es then 1 else 0)
unfolding find_peers has_between
find_peers-has_between S t sessions local foriegn [] h l = refl
find_peers-has_between S t sessions local foriegn ((k, a) ∷ es) h l =
    let g = h.0 in
    ground (
      arith,
      l.0,
      g.at,
      same_pointer-points_to local g.session.local_peer g.local_peer,
      same_pointer-points_to foriegn g.session.foriegn_peer g.foriegn_peer,
      find_peers-has_between S t sessions local foriegn es h.1 l.1,
    )

module _ {P : BTree peer_tree_compare} {S : BTree session_tree_compare} where
  session_check_exists_ran :
      (local foriegn n : ℕ) (t : S.Tree) (p : Process P S)
      → ensured S.create p.session_tree ≡ done t
      → find_peers S t p.sessions local foriegn (S.keys t) ≡ done n
      → session_check_exists local foriegn p ≡ done (n, record p { session_tree = tree t })
  unfolding session_check_exists
  session_check_exists_ran local foriegn n t p e f = rw (e, f) refl

  -- On well-formed sessions whose peers were all written, the check answers 1 if a session of the
  -- tree has exactly these two peers, as the local and the foriegn one, and 0 otherwise; the sessions
  -- in the tree stay the same.
  pub session_check_exists_lem :
      (local foriegn : ℕ) (p : Process P S)
      → SessionsAreValid p
      → All (HasPeers p.sessions) (listed_in S p.session_tree)
      → (t : S.Tree) × (session_check_exists local foriegn p
          ≡ done (
            if has_between local foriegn p.sessions (listed_in S p.session_tree) then 1 else 0,
            record p { session_tree = tree t },
          ))
        × (S.entries t ≡ listed_in S p.session_tree)
  session_check_exists_lem local foriegn p v h =
      let (t, e, same, w) = ensured-listed p.session_tree p v in
      let found : find_peers S t p.sessions local foriegn (S.keys t)
          ≡ done
              (if has_between local foriegn p.sessions (listed_in S p.session_tree) then 1 else 0) =
        rw S.keys_lem (
          find_peers-has_between S t p.sessions local foriegn (S.entries t) (rw same h)
            (lookups p t w)
          ∙ rw same refl) in
      (t, session_check_exists_ran local foriegn _ t p e found, same)
