-- ===== src/Sound/Starts.antt =====
-- What the user types (src/app/userinput.c) leaves a process well formed: a session that begins, a
-- message that is sent, and every other line.
use whisp.Prelude.{ℕ, ◌==◌, ◌≡◌, refl, ap, ◌∙◌, sym, List, arith, Bool-cases, inl, inr}
use whisp.CString.{Bytes, CStr, codes}
use whisp.Outcome.{done, done_injective, jnx_check, Slot, deref, >>=-eq-done, ◌>>=◌}
use whisp.Btree.{BTree}
use whisp.Process.{Process, tree, ensured, peer_tree_compare, session_tree_compare, object}
use whisp.Peerstore.{peerstore_check_peer}
use whisp.SessionControl.{
  same_pointer, find_peers, session_check_exists, session_create, session_get_session,
}
use whisp.SessionControl.Changes.{ensured-listed}
use whisp.Encryption.{Crypto}
use whisp.Authentication.{Draws, authentication_session_update}
use whisp.UserInput.{begin_session, session_between, session_with, user_start_session}
use whisp.Sound.{IsSound, Keeps, Keeps-trans, store-Agrees}
use whisp.Sound.Updates.{authentication_session_update-Keeps}
use whisp.Sound.Additions.{session_create-Keeps}
use whisp.Sound.Lookups.{peerstore_check_peer-OnlyReads, OnlyReads-Keeps}

module _ {P : BTree peer_tree_compare} {S : BTree session_tree_compare} where
  session_check_exists-Keeps :
      (local foriegn n : ℕ) (p q : Process P S)
      → IsSound p
      → session_check_exists local foriegn p ≡ done (n, q)
      → Keeps p q
  unfolding session_check_exists
  session_check_exists-Keeps local foriegn n p q v h =
      let (t, ht, h1) = >>=-eq-done (ensured S.create p.session_tree) _ h in
      let (r, hr, h2) = >>=-eq-done (find_peers S t p.sessions local foriegn (S.keys t)) _ h1 in
      let z : Process P S = record p { session_tree = tree t } in
      let same : z ≡ q = ap (λ (x : ℕ × Process P S). x.1) (done_injective h2) in
      let (t', e, listed, w) = ensured-listed p.session_tree p v.sessions in
      let is : t' ≡ t = done_injective (sym e ∙ ht) in
      let sound : IsSound z = record {
        store = store-Agrees p z v.store refl (λ b l. refl) (omega arith);
        sessions = rw (← is) w;
      } in
      rw (← same) (record { sound = sound; configuration = refl; grows = omega arith })

  begin_session-Keeps :
      (C : Crypto) (local foriegn : ℕ) (d : Draws) (id : CStr) (p q : Process P S)
      → IsSound p
      → begin_session C local foriegn d id p ≡ done q
      → Keeps p q
  unfolding begin_session
  begin_session-Keeps C local foriegn d id p q v h =
      let ((ret, handle), h0, h1) = >>=-eq-done (session_get_session id.text p) _ h in
      let (u, hu, h2) = >>=-eq-done (jnx_check (ret == 1)) _ h1 in
      let (a, ha, h3) = >>=-eq-done (deref handle) _ h2 in
      let (s, hs, h4) = >>=-eq-done (object (p.sessions a)) _ h3 in
      let (l, hl, h5) = >>=-eq-done (same_pointer local s.local_peer) _ h4 in
      let (u', hu', h6) = >>=-eq-done (jnx_check l) _ h5 in
      let (f, hf, h7) = >>=-eq-done (same_pointer foriegn s.foriegn_peer) _ h6 in
      let (u'', hu'', h8) = >>=-eq-done (jnx_check f) _ h7 in
      let ((state, z), hz, h9) = >>=-eq-done (authentication_session_update C a d p) _ h8 in
      rw (← done_injective h9) (authentication_session_update-Keeps C a d state p z v hz)

  session_between-Keeps :
      (C : Crypto) (local foriegn : ℕ) (uuid : List ℕ) (d : Draws) (p q : Process P S)
      → IsSound p
      → session_between C local foriegn uuid d p ≡ done q
      → Keeps p q
  unfolding session_between
  session_between-Keeps C local foriegn uuid d p q v h =
      let ((exists, x), hx, h1) = >>=-eq-done (session_check_exists local foriegn p) _ h in
      let first = session_check_exists-Keeps local foriegn exists p x v hx in
      elim (Bool-cases (exists == 0)) [
        | inl e ↦
            let go : (session_create local foriegn uuid x >>= λ y.
            begin_session C local foriegn d y.0 y.1)
                ≡ done q =
              ground (arith, h1, e) in
            let ((id, y), hy, h2) =
              >>=-eq-done (session_create local foriegn uuid x)
                (λ y. begin_session C local foriegn d y.0 y.1) go in
            let made = session_create-Keeps local foriegn uuid id x y first.sound hy in
            Keeps-trans p x q first
              (Keeps-trans x y q made (begin_session-Keeps C local foriegn d id y q made.sound h2))
        | inr e ↦ let same : q ≡ x = ground (arith, h1, e) in rw same first
      ]

  peerstore_check_peer-Keeps :
      (guid : Bytes) (r : ℕ × Slot ℕ) (p q : Process P S)
      → IsSound p
      → peerstore_check_peer guid p ≡ done (r, q)
      → Keeps p q
  peerstore_check_peer-Keeps guid r p q v h =
      OnlyReads-Keeps p q v (peerstore_check_peer-OnlyReads guid r p q v.store h)

  session_with-Keeps :
      (C : Crypto) (local : ℕ) (guid : Bytes) (uuid : List ℕ) (d : Draws) (p q : Process P S)
      → IsSound p
      → session_with C local guid uuid d p ≡ done q
      → Keeps p q
  unfolding session_with
  session_with-Keeps C local guid uuid d p q v h =
      let (((known, foriegn), x), hx, h1) = >>=-eq-done (peerstore_check_peer guid p) _ h in
      let first = peerstore_check_peer-Keeps guid (known, foriegn) p x v hx in
      elim (Bool-cases (known == 0)) [
        | inl e ↦ let same : q ≡ x = ground (arith, h1, e) in rw same first
        | inr e ↦
            let go : (deref foriegn >>= λ f. session_between C local f uuid d x) ≡ done q =
              ground (arith, h1, e) in
            let (f, hf, h2) =
              >>=-eq-done (deref foriegn) (λ f. session_between C local f uuid d x) go in
            Keeps-trans p x q first (session_between-Keeps C local f uuid d x q first.sound h2)
      ]

  pub user_start_session-Keeps :
      (C : Crypto) (guid : Bytes) (uuid : List ℕ) (d : Draws) (p q : Process P S)
      → IsSound p
      → user_start_session C guid uuid d p ≡ done q
      → Keeps p q
  unfolding user_start_session
  user_start_session-Keeps C guid uuid d p q v h =
      let (own, ho, h0) = >>=-eq-done (object (p.configuration (codes "GUID"))) _ h in
      let (((known, local), x), hx, h1) = >>=-eq-done (peerstore_check_peer own p) _ h0 in
      let first = peerstore_check_peer-Keeps own (known, local) p x v hx in
      elim (Bool-cases (known == 0)) [
        | inl e ↦ let same : q ≡ x = ground (arith, h1, e) in rw same first
        | inr e ↦
            let go : (deref local >>= λ l. session_with C l guid uuid d x) ≡ done q =
              ground (arith, h1, e) in
            let (l, hl, h2) = >>=-eq-done (deref local) (λ l. session_with C l guid uuid d x) go in
            Keeps-trans p x q first (session_with-Keeps C l guid uuid d x q first.sound h2)
      ]
