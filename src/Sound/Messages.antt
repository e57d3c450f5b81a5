-- ===== src/Sound/Messages.antt =====
-- A session of a message that is added and updated (`passive_listener_callback` of src/net/passive.c).
use whisp.Prelude.{ℕ, ◌+◌, ◌==◌, ◌<◌, ◌≡◌, refl, ap, ◌∙◌, sym, Option, some, arith}
use whisp.CString.{CStr}
use whisp.Outcome.{done, jnx_check, set, deref, >>=-eq-done}
use whisp.Btree.{BTree}
use whisp.Btree.Pointers.{Absent}
use whisp.Process.{
  Session, State, Process, peer_tree_compare, session_tree_compare, tree, ensured, object,
}
use whisp.SessionControl.{session_add, session_count}
use whisp.SessionControl.View.{HeldSession, listed_in}
use whisp.Encryption.{Crypto}
use whisp.Authentication.{Draws, authentication_session_update}
use whisp.Sound.{IsSound, Keeps, Keeps-trans}
use whisp.Sound.Updates.{updated_session, authentication_session_update-Keeps}
use whisp.Sound.Additions.{session_add-Joined, added_Keeps}

module _ {P : BTree peer_tree_compare} {S : BTree session_tree_compare} where
  -- The heap is not changed by an addition.
  session_add-sessions :
      (a : ℕ) (p q : Process P S) → session_add a p ≡ done q → q.sessions ≡ p.sessions
  unfolding session_add
  session_add-sessions a p q h =
      let (t, ht, h1) = >>=-eq-done (ensured S.create p.session_tree) _ h in
      let (n, hn, h2) = >>=-eq-done (session_count (record p { session_tree = tree t })) _ h1 in
      let (s, hs, h3) = >>=-eq-done (object (p.sessions a)) _ h2 in
      let (id, hi, h4) = >>=-eq-done (deref s.session_id) _ h3 in
      let r : Process P S = record p { session_tree = tree (S.add t id a) } in
      let (m, hm, h5) = >>=-eq-done (session_count r) _ h4 in
      let (u, hu, h6) = >>=-eq-done (jnx_check (m == n + 1)) _ h5 in
      let same : q ≡ r = cc in ap (λ (x : Process P S). x.sessions) same

  -- The session at `a`, whose id is a new pointer, is added and then updated.
  pub added_and_updated :
      (C : Crypto) (a : ℕ) (k : CStr) (s : Session) (d : Draws) (state : State)
      (p t q : Process P S)
      → IsSound p
      → p.sessions a ≡ some s
      → s.session_id ≡ set k
      → Absent k (listed_in S p.session_tree)
      → a < p.next
      → k.at < p.next
      → session_add a p ≡ done t
      → authentication_session_update C a d t ≡ done (state, q)
      → Keeps p q
  added_and_updated C a k s d state p t q v at named fresh below key_below added run =
      let (s', before, at', in_state) = updated_session C a d state t q run in
      let there : p.sessions a ≡ some s' =
        sym (ap (λ (heap : ℕ → Option Session). heap a) (session_add-sessions a p t added)) ∙ at' in
      let is : s ≡ s' = cc in
      let held : HeldSession p.sessions p.next (k, a) = record {
        session = s;
        state = before;
        at = at;
        named = named;
        in_state = ap (λ (x : Session). x.current_state) is ∙ in_state;
        key_below = key_below;
        below = below;
      } in
      let j = session_add-Joined a k p t v.sessions held fresh added in
      let keeps = added_Keeps p p t v.store j refl refl refl (omega arith) in
      Keeps-trans p t q keeps (authentication_session_update-Keeps C a d state t q keeps.sound run)
