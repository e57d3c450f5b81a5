-- ===== src/SessionControl/View.antt =====
-- The sessions as a client sees them: a map from the text of an id to a session, which the searches
-- of src/data/sessioncontrol.c read.
use whisp.Prelude.{ℕ, ◌<◌, ◌≡◌, refl, ◌∙◌, Option, none, some, List, [], ◌∷◌, map, arith, All}
use whisp.CString.{Bytes, CStr}
use whisp.Outcome.{done, set}
use whisp.Btree.{BTree, Entry, find}
use whisp.Btree.Pointers.{ByAddress, Distinct, Absent, All-map, find_each, find-Absent, first_text}
use whisp.Process.{
  State, error, Session, Process, peer_tree_compare, session_tree_compare, Ref, no_tree, tree,
  dangling,
}
use whisp.SessionControl.{
  find_session, found_session, session_in, session_get_session, state_in, session_get_state,
}

pub session_tree_compare-ByAddress : ByAddress session_tree_compare
unfolding session_tree_compare
session_tree_compare-ByAddress = record { same = λ a b. ground arith }

-- An entry of the tree: its value is the address of a session, and its key is that session's id.
pub record HeldSession (sessions : ℕ → Option Session) (next : ℕ) (e : Entry) : Type 0 where
  pub session : Session
  pub state : State
  pub at : sessions e.1 ≡ some session
  pub named : session.session_id ≡ set e.0
  pub in_state : session.current_state ≡ set state
  pub key_below : e.0.at < next
  pub below : e.1 < next

pub record AreSessions (sessions : ℕ → Option Session) (next : ℕ) (es : List Entry) : Type 0 where
  pub held : All (HeldSession sessions next) es
  pub distinct : Distinct es

abbrev pub listed_in : (S : BTree session_tree_compare) → Ref S.Tree → List Entry
listed_in S (tree t) = S.entries t
listed_in S _ = []

-- The map: the address of the session with this id.
abbrev pub session_at :
    {P : BTree peer_tree_compare} {S : BTree session_tree_compare} → Process P S → Bytes → Option ℕ
session_at {S} p id = first_text id (listed_in S p.session_tree)

find_session-first_text :
    (S : BTree session_tree_compare) (t : S.Tree) (sessions : ℕ → Option Session) (next : ℕ)
    (id : Bytes) (es : List Entry)
    → All (HeldSession sessions next) es
    → All (λ (e : Entry). S.lookup t e.0 ≡ some e.1) es
    → find_session S t sessions id (map (λ e. e.0) es) ≡ done (first_text id es)
unfolding find_session first_text
find_session-first_text S t sessions next id [] h l = refl
find_session-first_text S t sessions next id ((k, a) ∷ es) h l =
    ground (arith, h.0.at, h.0.named, find_session-first_text S t sessions next id es h.1 l.1)

module _ {P : BTree peer_tree_compare} {S : BTree session_tree_compare} where
  abbrev pub AreValidIn : Ref S.Tree → Process P S → Type 0
  AreValidIn no_tree p = Unit
  AreValidIn (tree t) p = AreSessions p.sessions p.next (S.entries t)
  AreValidIn dangling p = ⊥

  abbrev pub SessionsAreValid : Process P S → Type 0
  SessionsAreValid p = AreValidIn p.session_tree p

  pub lookups :
      (p : Process P S) (t : S.Tree)
      → AreSessions p.sessions p.next (S.entries t)
      → All (λ (e : Entry). S.lookup t e.0 ≡ some e.1) (S.entries t)
  lookups p t v =
      All-map (λ (e : Entry). find session_tree_compare e.0 (S.entries t) ≡ some e.1) (S.entries t)
        (λ e f. S.lookup_lem t e.0 ∙ f)
        (find_each session_tree_compare-ByAddress (S.entries t) v.distinct)

  pub search_tree :
      (p : Process P S) (t : S.Tree) (id : Bytes)
      → AreSessions p.sessions p.next (S.entries t)
      → find_session S t p.sessions id (S.keys t) ≡ done (first_text id (S.entries t))
  search_tree p t id v =
      rw S.keys_lem
        (find_session-first_text S t p.sessions p.next id (S.entries t) v.held (lookups p t v))

  session_in_lem :
      (r : Ref S.Tree) (id : Bytes) (p : Process P S)
      → AreValidIn r p
      → session_in r id p ≡ done (found_session (first_text id (listed_in S r)))
  unfolding session_in first_text
  session_in_lem no_tree id p v = refl
  session_in_lem (tree t) id p v = rw (search_tree p t id v)
  session_in_lem dangling id p v = absurd v

  -- `session_get_session` ends and answers as the map of the ids does: 1 and the session's address,
  -- or 0.
  pub session_get_session_lem :
      (id : Bytes) (p : Process P S)
      → SessionsAreValid p
      → session_get_session id p ≡ done (found_session (session_at p id))
  unfolding session_get_session
  session_get_session_lem id p v = session_in_lem p.session_tree id p v

  pub listed_held :
      (r : Ref S.Tree) (p : Process P S)
      → AreValidIn r p
      → All (HeldSession p.sessions p.next) (listed_in S r)
  listed_held no_tree p v = tt
  listed_held (tree t) p v = v.held
  listed_held dangling p v = absurd v

  state_in_other_pointer :
      (r : Ref S.Tree) (id : CStr) (p : Process P S)
      → AreValidIn r p
      → Absent id (listed_in S r)
      → state_in r id p ≡ done error
  unfolding state_in
  state_in_other_pointer no_tree id p v h = refl
  state_in_other_pointer (tree t) id p v h =
      let missing : S.lookup t id ≡ none =
        S.lookup_lem t id ∙ find-Absent session_tree_compare-ByAddress id (S.entries t) h in
      rw missing refl
  state_in_other_pointer dangling id p v h = absurd v

  -- A pointer that is no key of the tree is not found, whatever text it points to: the tree compares
  -- pointers. The state that is returned is SESSION_ERROR.
  pub session_get_state_other_pointer :
      (id : CStr) (p : Process P S)
      → SessionsAreValid p
      → Absent id (listed_in S p.session_tree)
      → session_get_state id p ≡ done error
  unfolding session_get_state
  session_get_state_other_pointer id p v h = state_in_other_pointer p.session_tree id p v h
