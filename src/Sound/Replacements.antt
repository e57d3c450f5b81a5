-- ===== src/Sound/Replacements.antt =====
-- A session of a message that takes the place of an old one (`passive_listener_callback` of
-- src/net/passive.c).
use whisp.Prelude.{
  ℕ, ◌<◌, ◌≤◌, ◌≡◌, ◌≢◌, refl, ap, ◌∙◌, sym, subst, Option, none, some, arith, All, Bool-cases, inl,
  inr,
}
use whisp.CString.{CStr}
use whisp.Outcome.{
  done, done_injective, jnx_check, set, deref, deref-eq-done, is_pointer, is_pointer-eq-done,
  >>=-eq-done, ◌>>=◌,
}
use whisp.Btree.{BTree, Entry}
use whisp.Btree.Pointers.{Absent, All-map}
use whisp.Process.{
  Session, State, Process, write, peer_tree_compare, session_tree_compare, object, object-eq-done,
}
use whisp.Peerstore.{existing}
use whisp.Peerstore.View.{StoreIsValid}
use whisp.SessionControl.{session_add, session_destroy}
use whisp.SessionControl.View.{SessionsAreValid, listed_in, session_at}
use whisp.SessionControl.Unique.{session_at-find}
use whisp.SessionControl.Destroy.{IsReadable, Destroyed, session_destroy_lem}
use whisp.Encryption.{Crypto}
use whisp.Authentication.{Draws, put_session, authentication_session_update}
use whisp.Passive.{with_keypair, replace_session}
use whisp.Sound.{Keeps, store-Agrees}
use whisp.Sound.Messages.{added_and_updated}

with_keypair-id :
    (old new new' : Session) → with_keypair old new ≡ done new' → new'.session_id ≡ new.session_id
unfolding with_keypair
with_keypair-id old new new' h =
    let (has, hh, h1) = >>=-eq-done (is_pointer old.local_keypair) _ h in
    elim (Bool-cases has) [ inl e ↦ ground (arith, h, hh, e) | inr e ↦ ground (arith, h, hh, e) ]

unwritten :
    (o a : ℕ) (v : Option Session) (heap : ℕ → Option Session) → o < a → write heap a v o ≡ heap o
unwritten o a v heap h = ground arith

unfreed : (o a : ℕ) (heap : ℕ → Option Session) → o < a → write heap o none a ≡ heap a
unfreed o a heap h = ground arith

pub written : (a : ℕ) (s : Session) (heap : ℕ → Option Session) → write heap a (some s) a ≡ some s
written a s heap = ground arith

apart_of : (i a k : ℕ) → i < a → a ≤ k → i ≢ k
apart_of i a k h le = omega arith

module _ {P : BTree peer_tree_compare} {S : BTree session_tree_compare} where
  -- A session that was destroyed was readable.
  destroyed_session :
      (o : ℕ) (old : Session) (p q : Process P S)
      → p.sessions o ≡ some old
      → session_destroy o p ≡ done q
      → IsReadable old × ((j : CStr) × (old.session_id ≡ set j))
  unfolding session_destroy
  destroyed_session o old p q at h =
      let (s, hs, h1) = >>=-eq-done (object (p.sessions o)) _ h in
      let (t, ht, h2) = >>=-eq-done (existing p.session_tree) _ h1 in
      let (j, hj, h3) = >>=-eq-done (deref s.session_id) _ h2 in
      let (x, hx, h4) = >>=-eq-done (is_pointer s.shared_secret) _ h3 in
      let (y, hy, h5) = >>=-eq-done (is_pointer s.foriegn_public_key) _ h4 in
      let (z, hz, h6) = >>=-eq-done (is_pointer s.local_public_key) _ h5 in
      let found = object-eq-done (p.sessions o) hs in
      let is : old ≡ s = cc in
      rw is (
        record {
          secret = is_pointer-eq-done s.shared_secret hx;
          foriegn_key = is_pointer-eq-done s.foriegn_public_key hy;
          local_key = is_pointer-eq-done s.local_public_key hz;
        },
        (j, deref-eq-done s.session_id hj),
      )

  -- What an arriving session finds: all is sound also where the session at `a` is another one, the keys
  -- of the tree lie below `a`, and `k` does not.
  pub record Room (a : ℕ) (k : CStr) (p : Process P S) : Type 0 where
    pub store : StoreIsValid p
    pub sessions : (s : Session) → SessionsAreValid (put_session a s p)
    pub old : All (λ (e : Entry). (e.0.at < a) × (e.1 < a)) (listed_in S p.session_tree)
    pub below : a < p.next
    pub key_above : a ≤ k.at
    pub key_below : k.at < p.next

  -- The new session, once the old one is gone.
  gone_Keeps :
      (C : Crypto) (o a : ℕ) (k j : CStr) (n : Session) (d : Draws) (state : State)
      (m t q : Process P S)
      → StoreIsValid m
      → All (λ (e : Entry). (e.0.at < a) × (e.1 < a)) (listed_in S m.session_tree)
      → a < m.next
      → a ≤ k.at
      → k.at < m.next
      → (gone : Destroyed o j m) → m.sessions a ≡ some n
      → n.session_id ≡ set k
      → o < a
      → session_add a gone.after ≡ done t
      → authentication_session_update C a d t ≡ done (state, q)
      → Keeps m q
  gone_Keeps C o a k j n d state m t q v old below above key_below gone at named low added run =
      let x = gone.after in
      let grown : x.next ≡ m.next = gone.next_after in
      let w : StoreIsValid x =
        store-Agrees m x v gone.store_after (λ b g. rw gone.peers_after refl) (omega arith) in
      let fresh : Absent k (listed_in S x.session_tree) =
        All-map (λ (e : Entry). (e.0.at < a) × (e.1 < a)) (listed_in S x.session_tree)
          (λ e g. apart_of e.0.at a k.at g.0 above)
          (gone.kept (λ (e : Entry). (e.0.at < a) × (e.1 < a)) old) in
      let there : x.sessions a ≡ some n =
        ap (λ (heap : ℕ → Option Session). heap a) gone.sessions_after
        ∙ unfreed o a m.sessions low
        ∙ at in
      let keeps =
        added_and_updated C a k n d state x t q (record { store = w; sessions = gone.valid }) there
          named fresh (rw grown below) (rw grown key_below) added run in
      record {
        sound = keeps.sound;
        configuration = keeps.configuration ∙ gone.configuration_after;
        grows = subst (λ (i : ℕ). i ≤ q.next) grown keeps.grows;
      }

  put_Keeps :
      (C : Crypto) (o a : ℕ) (k : CStr) (old new : Session) (d : Draws) (state : State)
      (p t q : Process P S)
      → Room a k p
      → new.session_id ≡ set k
      → session_at p k.text ≡ some o
      → o < a
      → (put_session a new p).sessions o ≡ some old
      → (session_destroy o (put_session a new p) >>= λ r. session_add a r) ≡ done t
      → authentication_session_update C a d t ≡ done (state, q)
      → Keeps p q
  put_Keeps C o a k old new d state p t q room named there low at h run =
      let m = put_session a new p in
      let (x, hx, added) = >>=-eq-done (session_destroy o m) (λ r. session_add a r) h in
      let (readable, (j, has)) = destroyed_session o old m x at hx in
      let v = room.sessions new in
      let gone =
        session_destroy_lem o old j m v at has (session_at-find m k.text o old j v at has there)
          readable in
      let same : x ≡ gone.after = done_injective (sym hx ∙ gone.ran) in
      let go : session_add a gone.after ≡ done t = rw (← same) added in
      let w : StoreIsValid m = store-Agrees p m room.store refl (λ b g. refl) (omega arith) in
      let keeps =
        gone_Keeps C o a k j new d state m t q w room.old room.below room.key_above room.key_below
          gone (written a new p.sessions) named low go run in
      record { sound = keeps.sound; configuration = keeps.configuration; grows = keeps.grows }

  -- The old session under the id goes, and the new one comes.
  pub replace_session-Keeps :
      (C : Crypto) (o a : ℕ) (k : CStr) (s : Session) (d : Draws) (state : State)
      (p t q : Process P S)
      → Room a k p
      → p.sessions a ≡ some s
      → s.session_id ≡ set k
      → session_at p k.text ≡ some o
      → o < a
      → replace_session o a p ≡ done t
      → authentication_session_update C a d t ≡ done (state, q)
      → Keeps p q
  unfolding replace_session
  replace_session-Keeps C o a k s d state p t q room at named there low h run =
      let (old, ho, h1) = >>=-eq-done (object (p.sessions o)) _ h in
      let (b1, g1, h2) = >>=-eq-done (is_pointer old.session_origin_guid) _ h1 in
      let (u1, c1, h3) = >>=-eq-done (jnx_check b1) _ h2 in
      let (b2, g2, h4) = >>=-eq-done (is_pointer old.session_id) _ h3 in
      let (u2, c2, h5) = >>=-eq-done (jnx_check b2) _ h4 in
      let (new, hn, h6) = >>=-eq-done (object (p.sessions a)) _ h5 in
      let (new', hw, h7) = >>=-eq-done (with_keypair old new) _ h6 in
      let is : new ≡ s = let e = object-eq-done (p.sessions a) hn in cc in
      let id : new'.session_id ≡ set k =
        with_keypair-id old new new' hw ∙ ap (λ (y : Session). y.session_id) is ∙ named in
      let at_o = unwritten o a (some new') p.sessions low ∙ object-eq-done (p.sessions o) ho in
      put_Keeps C o a k old new' d state p t q room id there low at_o h7 run
