-- ===== src/Passive/Replace.antt =====
-- A received session that takes the place of the one under its id (src/net/passive.c).
use whisp.Prelude.{
  ℕ, ◌<◌, ◌≤◌, ◌≡◌, ◌≢◌, refl, ap, ◌∙◌, Option, none, some, true, arith, Bool-cases, inl, inr,
}
use whisp.CString.{CStr, strcmp_eq}
use whisp.Outcome.{done, set, ◌>>=◌}
use whisp.Btree.{BTree}
use whisp.Btree.Pointers.{Absent, All-map, first_text}
use whisp.Process.{Session, Process, peer_tree_compare, session_tree_compare, Ref, write}
use whisp.SessionControl.{session_check_exists_by_id, session_get_session}
use whisp.SessionControl.View.{
  HeldSession, listed_in, session_at, AreValidIn, SessionsAreValid, session_get_session_lem,
  listed_held,
}
use whisp.SessionControl.Changes.{SessionAdded, session_add_lem}
use whisp.SessionControl.Exists.{exists_kept}
use whisp.SessionControl.Destroy.{Destroyed, session_destroy_lem}
use whisp.Encryption.{Crypto}
use whisp.Authentication.{Draws, put_session, authentication_session_update}
use whisp.Passive.{with_keypair, replace_session, session_received}
use whisp.Passive.Place.{arrived, Arrives, Placed, later_valid, session_received_ran}
use whisp.Passive.Adopt.{
  Replaces, otherwise, adopted, adopted-id, adopted-state, gone_text, keep_session_ran,
  replace_session_ran, with_keypair_lem,
}

module _ {P : BTree peer_tree_compare} {S : BTree session_tree_compare} where
  -- The new session in the heap, beside the old one.
  abbrev both : ℕ → Session → Ref S.Tree → ℕ → Process P S → Process P S
  both a s there later p = record p {
    session_tree = there;
    sessions = write p.sessions a (some s);
    next = later;
  }

  -- What is found after the old session went and the new one was added.
  replaced-Placed :
      (o a : ℕ) (j k : CStr) (s : Session) (p q : Process P S) (dead : Destroyed o j q)
      (added : SessionAdded k a dead.after)
      → listed_in S q.session_tree ≡ listed_in S p.session_tree
      → q.peers ≡ p.peers
      → q.store ≡ p.store
      → p.next ≤ q.next
      → q.configuration ≡ p.configuration
      → q.sent ≡ p.sent
      → j.text ≡ k.text
      → dead.after.sessions a ≡ some s
      → Placed a k s p added.after
  replaced-Placed o a j k s p q dead added same peers store grows settings sent text at = record {
    valid = added.valid;
    map_after = λ id. added.map_after id ∙ elim (Bool-cases (strcmp_eq k.text id)) [
      | inl e ↦ rw e refl
      | inr e ↦ rw e (
          otherwise _ _ _ (ap (λ t. strcmp_eq t id) text ∙ e) (dead.map_other id)
          ∙ ap (first_text id) same)
    ];
    session_after = ap (λ (x : Process P S). x.sessions a) added.only_tree ∙ at;
    only_after = added.only_after;
    peers_after = ap (λ (x : Process P S). x.peers) added.only_tree ∙ dead.peers_after ∙ peers;
    store_after = ap (λ (x : Process P S). x.store) added.only_tree ∙ dead.store_after ∙ store;
    grows =
        let e = ap (λ (x : Process P S). x.next) added.only_tree in
        omega (arith, e, dead.next_after);
    configuration_after =
        ap (λ (x : Process P S). x.configuration) added.only_tree
        ∙ dead.configuration_after
        ∙ settings;
    sent_after = ap (λ (x : Process P S). x.sent) added.only_tree ∙ dead.sent_after ∙ sent;
  }

  -- The old session goes and the new one comes, on a tree `there` with the old entries.
  replaced :
      (o a : ℕ) (old s s' : Session) (j k : CStr) (later : ℕ) (there : Ref S.Tree)
      (heap : ℕ → Option Session) (p : Process P S)
      → SessionsAreValid p
      → Arrives a s' k later p
      → Replaces o old j k p
      → AreValidIn there
          (record p { session_tree = there; sessions = write heap a (some s'); next = later })
      → listed_in S there ≡ listed_in S p.session_tree
      → heap o ≡ some old
      → heap a ≡ some s
      → with_keypair old s ≡ done s'
      → (q : Process P S) × (replace_session o a
            (record p { session_tree = there; sessions = heap; next = later })
          ≡ done q)
        × Placed a k s' p q
        × (q.sessions o ≡ none)
  replaced o a old s s' j k later there heap p v r h w same at new with =
      let q : Process P S = record p { session_tree = there; sessions = heap; next = later } in
      let q' = put_session a s' q in
      let apart : o ≢ a = (let f = r.fresh in let g = h.below in λ e. omega (arith, e)) in
      let dead =
        session_destroy_lem o old j q' w (ground arith) h.named (rw same h.found) h.readable in
      let after = dead.after in
      let heap_after : after.sessions a ≡ some s' =
        ap (λ (x : ℕ → Option Session). x a) dead.sessions_after ∙ ground arith in
      let held : HeldSession after.sessions after.next (k, a) = record {
        session = s';
        state = r.state;
        at = heap_after;
        named = r.named;
        in_state = r.in_state;
        key_below = rw dead.next_after r.key_below;
        below = rw dead.next_after r.below;
      } in
      let absent : Absent k (listed_in S after.session_tree) =
        dead.kept (λ e. e.0.at ≢ k.at)
          (rw same (
            All-map (HeldSession p.sessions p.next) (listed_in S p.session_tree)
              (λ e x. let f = r.key_fresh in omega (arith, x.key_below))
              (listed_held p.session_tree p v))) in
      let none_left : session_at after k.text ≡ none =
        gone_text o k.text q'.sessions after.next (listed_in S after.session_tree)
          (dead.kept (λ e. strcmp_eq e.0.text k.text ≡ true → e.1 ≡ o) (rw same h.only))
          (rw (← dead.sessions_after) (listed_held after.session_tree after dead.valid)) in
      let added = session_add_lem a after k dead.valid held absent none_left in
      (
        added.after,
        replace_session_ran o a old s s' j h.origin q after added.after at new h.has_origin h.named
            with dead.ran added.ran,
        replaced-Placed o a j k s' p q' dead added same refl refl
            (let f = r.fresh in let b = r.below in omega arith) refl refl h.text heap_after,
        ap (λ (x : Process P S). x.sessions o) added.only_tree
            ∙ ap (λ (x : ℕ → Option Session). x o) dead.sessions_after
            ∙ (ground arith),
      )

  -- What the callback does with a session that arrives under the id of the one at `o`: the old one is
  -- freed, the new one is placed as `s'`, and then updated.
  abbrev pub Supersedes :
      Crypto → ℕ → ℕ → Session → CStr → ℕ → Draws → Session → Process P S → Type 0
  Supersedes C o a s k later d s' p =
      (q : Process P S) × (session_received C a d (arrived a s later p)
        ≡ (authentication_session_update C a d q >>= λ x. done x.1))
      × Placed a k s' p q
      × (q.sessions o ≡ none)

  -- A session whose id is known takes the place of the old one, which is freed: it takes over the
  -- keypair of the old one, if that has one, and nothing else of it, is found under the id, and is
  -- updated; every other id is found as before. The old one must be the only one with its id.
  pub session_received_known :
      (C : Crypto) (o a : ℕ) (old s : Session) (j k : CStr) (later : ℕ) (d : Draws)
      (p : Process P S)
      → SessionsAreValid p
      → Arrives a s k later p
      → Replaces o old j k p
      → Supersedes C o a s k later d (adopted old.local_keypair s) p
  unfolding session_check_exists_by_id
  session_received_known C o a old s j k later d p v r h =
      let p' = arrived a s later p in
      let s' = adopted old.local_keypair s in
      let grows : p.next ≤ later = (let f = r.fresh in let g = r.below in omega arith) in
      let agrees : (b : ℕ) → b < p.next → p'.sessions b ≡ p.sessions b =
        λ b l. let f = r.fresh in ground arith in
      let c =
        exists_kept p.session_tree k.text p' refl
          (later_valid p.session_tree p p' v agrees grows) in
      let q : Process P S = record p' { session_tree = c.there } in
      let q' = put_session a s' q in
      let heap : (b : ℕ) → b < p.next → q'.sessions b ≡ p.sessions b =
        λ b l. let f = r.fresh in ground arith in
      let valid_in =
        λ (x : Process P S) (n : (b : ℕ) → b < p.next → x.sessions b ≡ p.sessions b)
            (m : p.next ≤ x.next).
          c.valid x (later_valid p.session_tree p x v n m) in
      let arrives : Arrives a s' k later p = record {
        state = r.state;
        named = adopted-id old.local_keypair s ∙ r.named;
        in_state = adopted-state old.local_keypair s ∙ r.in_state;
        fresh = r.fresh;
        key_fresh = r.key_fresh;
        below = r.below;
        key_below = r.key_below;
      } in
      let (z, ran, placed, freed) =
        replaced o a old s s' j k later c.there p'.sessions p v arrives h (valid_in q' heap grows)
          c.same (let f = r.fresh in let g = h.below in ground (arith, h.at)) (ground arith)
          (with_keypair_lem old s old.local_keypair refl h.keypair) in
      let got : session_get_session k.text q ≡ done (1, set o) =
        session_get_session_lem k.text q (valid_in q agrees grows) ∙ rw (c.same, h.there) refl in
      (
        z,
        session_received_ran C a 1 s k d p' q z (ground arith) r.named (c.ran ∙ rw h.there refl)
            (keep_session_ran o a k.text q z got ran),
        placed,
        freed,
      )
