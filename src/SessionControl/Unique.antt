-- ===== src/SessionControl/Unique.antt =====
-- The one session with an id (src/data/sessioncontrol.c): no other entry of the tree has its text.
use whisp.Prelude.{
  ℕ, ◌==◌, ==_iff, ◌<◌, ◌≤◌, ◌≡◌, refl, ap, ◌∙◌, true, Option, none, some, List, [], ◌∷◌, arith,
  All, Bool-cases, inl, inr,
}
use whisp.CString.{Bytes, CStr, strcmp_eq}
use whisp.Outcome.{Slot, set}
use whisp.Btree.{BTree, Entry, Inserts, find}
use whisp.Btree.Pointers.{All-map, All-Inserts, find_each, first_text}
use whisp.Process.{
  Session, State, Process, Packet, Ref, no_tree, tree, dangling, write, peer_tree_compare,
  session_tree_compare,
}
use whisp.SessionControl.View.{
  HeldSession, AreSessions, AreValidIn, SessionsAreValid, listed_in, listed_held, session_at,
  session_tree_compare-ByAddress,
}

-- The entries whose key has this text are all for this address.
abbrev pub OnlyAt : Bytes → ℕ → List Entry → Type 0
OnlyAt id o = All (λ (e : Entry). strcmp_eq e.0.text id ≡ true → e.1 ≡ o)

first_text-OnlyAt :
    (id : Bytes) (o : ℕ) (es : List Entry) → first_text id es ≡ none → OnlyAt id o es
unfolding first_text
first_text-OnlyAt id o [] h = tt
first_text-OnlyAt id o ((k, a) ∷ es) h = elim (Bool-cases (strcmp_eq k.text id)) [
  | inl e ↦ absurd (ground (arith, e, h))
  | inr e ↦ (λ t. ground (arith, e, t), first_text-OnlyAt id o es (ground (arith, e, h)))
]

-- The new entry is the only one with its text, if there was none.
pub OnlyAt-Inserts :
    (k : CStr) (a : ℕ) {xs ys : List Entry}
    → Inserts (k, a) xs ys
    → first_text k.text xs ≡ none
    → OnlyAt k.text a ys
OnlyAt-Inserts k a {xs} i h =
    All-Inserts (λ (e : Entry). strcmp_eq e.0.text k.text ≡ true → e.1 ≡ a) i (λ t. refl)
      (first_text-OnlyAt k.text a xs h)

first_text-find :
    (id : Bytes) (o : ℕ) (s : Session) (j : CStr) (sessions : ℕ → Option Session) (next : ℕ)
    (whole es : List Entry)
    → All (HeldSession sessions next) es
    → All (λ (e : Entry). find session_tree_compare e.0 whole ≡ some e.1) es
    → sessions o ≡ some s
    → s.session_id ≡ set j
    → first_text id es ≡ some o
    → find session_tree_compare j whole ≡ some o
unfolding first_text
first_text-find id o s j sessions next whole [] held each at named h = cc
first_text-find id o s j sessions next whole ((k, a) ∷ es) held each at named h =
    elim (Bool-cases (strcmp_eq k.text id)) [
      | inl e ↦
          let g = held.0 in
          let same : a ≡ o = ground (arith, e, h) in
          let there = ap sessions same ∙ at in
          let here = g.at in
          let is : g.session ≡ s = cc in
          let id_here = g.named in let key : k ≡ j = cc in rw (← key) (rw (← same) each.0)
      | inr e ↦
          first_text-find id o s j sessions next whole es held.1 each.1 at named
            (ground (arith, e, h))
    ]

HeldSession-write :
    (sessions : ℕ → Option Session) (a next later : ℕ) (s s' : Session) (state : State) (e : Entry)
    → sessions a ≡ some s
    → s'.session_id ≡ s.session_id
    → s'.current_state ≡ set state
    → next ≤ later
    → HeldSession sessions next e
    → HeldSession (write sessions a (some s')) later e
HeldSession-write sessions a next later s s' state e at same_id in_state le h =
    elim (Bool-cases (a == e.1)) [
      | inl i ↦ record {
        session = s';
        state = state;
        at = ground (arith, i);
        named =
            let here = ap sessions ((==_iff a e.1).0 i) ∙ h.at in
            let is : s ≡ h.session = cc in
            same_id ∙ ap (λ (x : Session). x.session_id) is ∙ h.named;
        in_state = in_state;
        key_below = omega (arith, h.key_below);
        below = omega (arith, h.below);
      }
      | inr i ↦ record {
        session = h.session;
        state = h.state;
        at = ground (arith, i, h.at);
        named = h.named;
        in_state = h.in_state;
        key_below = omega (arith, h.key_below);
        below = omega (arith, h.below);
      }
    ]

-- Sessions stay well formed where one of them is written with its id and some state.
pub AreSessions-write :
    (sessions : ℕ → Option Session) (a next later : ℕ) (s s' : Session) (state : State)
    (es : List Entry)
    → sessions a ≡ some s
    → s'.session_id ≡ s.session_id
    → s'.current_state ≡ set state
    → next ≤ later
    → AreSessions sessions next es
    → AreSessions (write sessions a (some s')) later es
AreSessions-write sessions a next later s s' state es at same_id in_state le v = record {
  held =
      All-map (HeldSession sessions next) es
        (λ e h. HeldSession-write sessions a next later s s' state e at same_id in_state le h)
        v.held;
  distinct = v.distinct;
}

listed_below :
    (id : Bytes) (o : ℕ) (sessions : ℕ → Option Session) (next : ℕ) (es : List Entry)
    → All (HeldSession sessions next) es
    → first_text id es ≡ some o
    → o < next
unfolding first_text
listed_below id o sessions next [] held h = cc
listed_below id o sessions next ((k, a) ∷ es) held h = elim (Bool-cases (strcmp_eq k.text id)) [
  | inl e ↦ let same : a ≡ o = ground (arith, e, h) in rw (← same) (let g = held.0 in g.below)
  | inr e ↦ listed_below id o sessions next es held.1 (ground (arith, e, h))
]

module _ {P : BTree peer_tree_compare} {S : BTree session_tree_compare} where
  find_in :
      (r : Ref S.Tree) (p : Process P S) (id : Bytes) (o : ℕ) (s : Session) (j : CStr)
      → AreValidIn r p
      → p.sessions o ≡ some s
      → s.session_id ≡ set j
      → first_text id (listed_in S r) ≡ some o
      → find session_tree_compare j (listed_in S r) ≡ some o
  unfolding first_text
  find_in no_tree p id o s j v at named h = cc
  find_in (tree t) p id o s j v at named h =
      first_text-find id o s j p.sessions p.next (S.entries t) (S.entries t) v.held
        (find_each session_tree_compare-ByAddress (S.entries t) v.distinct) at named h
  find_in dangling p id o s j v at named h = absurd v

  -- The session that is found under an id is found by its own pointer.
  pub session_at-find :
      (p : Process P S) (id : Bytes) (o : ℕ) (s : Session) (j : CStr)
      → SessionsAreValid p
      → p.sessions o ≡ some s
      → s.session_id ≡ set j
      → session_at p id ≡ some o
      → find session_tree_compare j (listed_in S p.session_tree) ≡ some o
  session_at-find p id o s j v at named h = find_in p.session_tree p id o s j v at named h

  -- A session that is found lies on the heap.
  pub found_below :
      (p : Process P S) (id : Bytes) (o : ℕ)
      → SessionsAreValid p
      → session_at p id ≡ some o
      → o < p.next
  found_below p id o v h =
      listed_below id o p.sessions p.next (listed_in S p.session_tree)
        (listed_held p.session_tree p v) h

  -- The session `s` at `o` is well placed under its id.
  pub record Stands (o : ℕ) (id : Bytes) (s : Session) (q : Process P S) : Type 0 where
    pub valid : SessionsAreValid q
    pub at : q.sessions o ≡ some s
    pub found : session_at q id ≡ some o
    pub only : OnlyAt id o (listed_in S q.session_tree)
    pub below : o < q.next

  pub write-AreValidIn :
      (r : Ref S.Tree) (a : ℕ) (s s' : Session) (state : State) (p q : Process P S)
      → AreValidIn r p
      → p.sessions a ≡ some s
      → s'.session_id ≡ s.session_id
      → s'.current_state ≡ set state
      → p.next ≤ q.next
      → q.sessions ≡ write p.sessions a (some s')
      → AreValidIn r q
  write-AreValidIn no_tree a s s' state p q v at i c le e = tt
  write-AreValidIn (tree t) a s s' state p q v at i c le e =
      rw e (AreSessions-write p.sessions a p.next q.next s s' state (S.entries t) at i c le v)
  write-AreValidIn dangling a s s' state p q v at i c le e = absurd v

  -- It stands there too when it is written with its id and some state.
  pub Stands-write :
      (o later : ℕ) (id : Bytes) (s s' : Session) (state : State) (last : Slot ℕ)
      (sent : List Packet) (q : Process P S)
      → Stands o id s q
      → s'.session_id ≡ s.session_id
      → s'.current_state ≡ set state
      → q.next ≤ later
      → Stands o id s' (record q {
        sessions = write q.sessions o (some s');
        next = later;
        sent = sent;
        last_session = last;
      })
  Stands-write o later id s s' state last sent q h i c le =
      let q' : Process P S = record q {
        sessions = write q.sessions o (some s');
        next = later;
        sent = sent;
        last_session = last;
      } in
      record {
        valid = write-AreValidIn q.session_tree o s s' state q q' h.valid h.at i c le refl;
        at = ground arith;
        found = h.found;
        only = h.only;
        below = omega (arith, h.below);
      }
