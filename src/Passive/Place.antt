-- ===== src/Passive/Place.antt =====
-- A received session whose id is new (src/net/passive.c).
use whisp.Prelude.{ℕ, ◌<◌, ◌≤◌, ◌≡◌, refl, ap, subst, ◌∙◌, List, none, some, if◌then◌else◌, arith}
use whisp.CString.{Bytes, CStr, strcmp_eq}
use whisp.CString.Tokens.{strcmp_eq_iff}
use whisp.Outcome.{done, set, ◌>>=◌}
use whisp.Btree.{BTree, Entry, Inserts}
use whisp.Btree.Pointers.{Absent, All-map}
use whisp.Process.{Session, State, Process, write, peer_tree_compare, session_tree_compare, Ref}
use whisp.SessionControl.{session_check_exists_by_id}
use whisp.SessionControl.View.{
  HeldSession, listed_in, session_at, AreValidIn, SessionsAreValid, listed_held,
}
use whisp.SessionControl.Exists.{exists_kept}
use whisp.SessionControl.Unique.{OnlyAt, Stands, found_below}
use whisp.SessionControl.Changes.{AreSessions-Agrees, AreValidIn-map, session_add_lem}
use whisp.Encryption.{Crypto}
use whisp.Authentication.{Draws, put_session, authentication_session_update}
use whisp.Passive.{keep_session, updated, session_received}

module _ {P : BTree peer_tree_compare} {S : BTree session_tree_compare} where
  -- The process with a session that was read, at a new address.
  abbrev pub arrived : ℕ → Session → ℕ → Process P S → Process P S
  arrived a s later p = put_session a s (record p { next = later })

  pub record Arrives (a : ℕ) (s : Session) (k : CStr) (later : ℕ) (p : Process P S) : Type 0 where
    pub state : State
    pub named : s.session_id ≡ set k
    pub in_state : s.current_state ≡ set state
    pub fresh : p.next ≤ a
    pub key_fresh : p.next ≤ k.at
    pub below : a < later
    pub key_below : k.at < later

  -- The session `s` is at `a`, under the id of the pointer `k`, and all other ids are as before.
  pub record Placed (a : ℕ) (k : CStr) (s : Session) (p q : Process P S) : Type 0 where
    pub valid : SessionsAreValid q
    pub map_after :
        (id : Bytes) → session_at q id ≡ (if strcmp_eq k.text id then some a else session_at p id)
    pub session_after : q.sessions a ≡ some s
    pub only_after : OnlyAt k.text a (listed_in S q.session_tree)
    pub peers_after : q.peers ≡ p.peers
    pub store_after : q.store ≡ p.store
    pub grows : p.next ≤ q.next
    pub configuration_after : q.configuration ≡ p.configuration
    pub sent_after : q.sent ≡ p.sent

  pub Placed-Stands :
      (a : ℕ) (k : CStr) (s : Session) (p q : Process P S) → Placed a k s p q → Stands a k.text s q
  Placed-Stands a k s p q h =
      let found : session_at q k.text ≡ some a =
        h.map_after k.text ∙ rw ((strcmp_eq_iff k.text k.text).1 refl) refl in
      record {
        valid = h.valid;
        at = h.session_after;
        found = found;
        only = h.only_after;
        below = found_below q k.text a h.valid found;
      }

  -- A tree that is valid here is so in a later process, whose heap agrees on the old addresses.
  pub later_valid :
      (r : Ref S.Tree) (p q : Process P S)
      → AreValidIn r p
      → ((b : ℕ) → b < p.next → q.sessions b ≡ p.sessions b)
      → p.next ≤ q.next
      → AreValidIn r q
  later_valid r p q v same le =
      AreValidIn-map r p q
        (λ es w. AreSessions-Agrees q.sessions p.sessions p.next q.next es same le w) v

  -- The run of the callback goes on with what `keep_session` leaves.
  pub session_received_ran :
      (C : Crypto) (a n : ℕ) (s : Session) (k : CStr) (d : Draws) (p q r : Process P S)
      → p.sessions a ≡ some s
      → s.session_id ≡ set k
      → session_check_exists_by_id k.text p ≡ done (n, q)
      → keep_session n a k.text q ≡ done (some r)
      → session_received C a d p ≡ (authentication_session_update C a d r >>= λ x. done x.1)
  unfolding session_received updated
  session_received_ran C a n s k d p q r at named check keep =
      ground (arith, at, named, check, keep)

  -- What the callback does with a session that arrives: it is placed as `s'`, and then updated.
  abbrev pub Settles : Crypto → ℕ → Session → CStr → ℕ → Draws → Session → Process P S → Type 0
  Settles C a s k later d s' p =
      (q : Process P S) × (session_received C a d (arrived a s later p)
        ≡ (authentication_session_update C a d q >>= λ x. done x.1))
      × Placed a k s' p q

  -- How a session that is new joins the others.
  abbrev pub Joins : Crypto → ℕ → Session → CStr → ℕ → Draws → Process P S → Type 0
  Joins C a s k later d p =
      (q : Process P S) × (session_received C a d (arrived a s later p)
        ≡ (authentication_session_update C a d q >>= λ x. done x.1))
      × Placed a k s p q
      × Inserts (k, a) (listed_in S p.session_tree) (listed_in S q.session_tree)
      × (q.sessions ≡ write p.sessions a (some s))

  pub session_received-Joins :
      (C : Crypto) (a : ℕ) (s : Session) (k : CStr) (later : ℕ) (d : Draws) (p : Process P S)
      → SessionsAreValid p
      → Arrives a s k later p
      → session_at p k.text ≡ none
      → Joins C a s k later d p
  unfolding session_check_exists_by_id
  session_received-Joins C a s k later d p v r new =
      let p' = arrived a s later p in
      let agrees : (b : ℕ) → b < p.next → p'.sessions b ≡ p.sessions b =
        λ b h. let f = r.fresh in ground arith in
      let v' =
        later_valid p.session_tree p p' v agrees
          (let f = r.fresh in let g = r.below in omega arith) in
      let c = exists_kept p.session_tree k.text p' refl v' in
      let q : Process P S = record p' { session_tree = c.there } in
      let held : HeldSession q.sessions q.next (k, a) = record {
        session = s;
        state = r.state;
        at = ground arith;
        named = r.named;
        in_state = r.in_state;
        key_below = r.key_below;
        below = r.below;
      } in
      let absent : Absent k (listed_in S c.there) = rw c.same (
        All-map (HeldSession p.sessions p.next) (listed_in S p.session_tree)
          (λ e h. let f = r.key_fresh in omega (arith, h.key_below))
          (listed_held p.session_tree p v)) in
      let added =
        session_add_lem a q k
          (c.valid q (
            later_valid p.session_tree p q v agrees
              (let f = r.fresh in let g = r.below in omega arith)))
          held absent (rw c.same new) in
      (
        added.after,
        session_received_ran C a 0 s k d p' q added.after (ground arith) r.named
            (c.ran ∙ rw new refl) (unfold keep_session in rw added.ran refl),
        record {
          valid = added.valid;
          map_after = λ id. added.map_after id ∙ rw c.same refl;
          only_after = added.only_after;
          session_after = ap (λ (x : Process P S). x.sessions a) added.only_tree ∙ ground arith;
          peers_after = ap (λ (x : Process P S). x.peers) added.only_tree;
          store_after = ap (λ (x : Process P S). x.store) added.only_tree;
          grows =
              let e = ap (λ (x : Process P S). x.next) added.only_tree in
              let f = r.fresh in let b = r.below in omega (arith, e);
          configuration_after = ap (λ (x : Process P S). x.configuration) added.only_tree;
          sent_after = ap (λ (x : Process P S). x.sent) added.only_tree;
        },
        subst (λ (es : List Entry). Inserts (k, a) es (listed_in S added.after.session_tree)) c.same
            added.joined,
        ap (λ (x : Process P S). x.sessions) added.only_tree,
      )

  -- A session whose id is not known is added as it is, is found under its id, and is updated; every other
  -- id is found as before.
  pub session_received_new :
      (C : Crypto) (a : ℕ) (s : Session) (k : CStr) (later : ℕ) (d : Draws) (p : Process P S)
      → SessionsAreValid p
      → Arrives a s k later p
      → session_at p k.text ≡ none
      → Settles C a s k later d s p
  session_received_new C a s k later d p v r new =
      let (q, ran, placed, joined, heap) = session_received-Joins C a s k later d p v r new in
      (q, ran, placed)
