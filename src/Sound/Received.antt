-- ===== src/Sound/Received.antt =====
-- What the passive listener of src/net/passive.c keeps, whatever it is sent.
use whisp.Prelude.{ℕ, ◌<◌, ◌≤◌, ◌≡◌, refl, ap, ◌∙◌, sym, subst, Option, none, some, arith}
use whisp.CString.{Bytes, CStr}
use whisp.Outcome.{done, done_injective, set, deref, deref-eq-done, >>=-eq-done, ◌>>=◌}
use whisp.Btree.{BTree}
use whisp.Process.{
  Session, Process, Ref, peer_tree_compare, session_tree_compare, object, object-eq-done,
}
use whisp.Serialization.{okay, general_error, unknown, malformed, STypes}
use whisp.Serialization.Sessions.{deserialize_session_data}
use whisp.SessionControl.{session_check_exists_by_id}
use whisp.SessionControl.View.{AreValidIn, SessionsAreValid, listed_in}
use whisp.Encryption.{Crypto}
use whisp.Authentication.{Draws, put_session}
use whisp.Passive.{keep_session, updated, session_received, session_read, passive_listener_callback}
use whisp.SessionControl.Exists.{exists_kept}
use whisp.Sound.{IsSound, Keeps, sessions-Agree}
use whisp.Sound.Datagrams.{CopiedIn}
use whisp.Sound.Lookups.{OnlyReads, OnlyReads-Keeps}
use whisp.Sound.Fields.{deserialize_session_data-ReadSession}
use whisp.Sound.Replacements.{Room, written}
use whisp.Sound.Checks.{unread, keep_session-Keeps, Room-arrived}

module _ {P : BTree peer_tree_compare} {S : BTree session_tree_compare} where
  -- From the check on.
  checked_Keeps :
      (C : Crypto) (a : ℕ) (k : CStr) (s : Session) (d : Draws) (n : ℕ) (p m y q : Process P S)
      → IsSound p
      → OnlyReads p m
      → SessionsAreValid (put_session a s m)
      → a ≡ p.next
      → a < m.next
      → a ≤ k.at
      → k.at < m.next
      → s.session_id ≡ set k
      → session_check_exists_by_id k.text (put_session a s m) ≡ done (n, y)
      → (keep_session n a k.text y >>= λ r. updated C a d r y) ≡ done q
      → Keeps p q
  unfolding session_check_exists_by_id
  checked_Keeps C a k s d n p m y q v reads w here below above key_below named hy h =
      let x = put_session a s m in
      let c = exists_kept m.session_tree k.text x refl w in
      let same : y ≡ record x { session_tree = c.there } =
        ap (λ (z : ℕ × Process P S). z.1) (done_injective (sym hy ∙ c.ran)) in
      let room : Room a k y = rw same (
        Room-arrived a k s p m v reads here below above key_below c.there
          (λ z g. c.valid z (
            subst (λ (r : Ref S.Tree). AreValidIn {P = P} {S = S} r z)
              (sym reads.session_tree_after) g))
          (c.same ∙ ap (listed_in S) reads.session_tree_after)) in
      let at : y.sessions a ≡ some s =
        ap (λ (z : Process P S). z.sessions a) same ∙ written a s m.sessions in
      let (r, hr, h1) = >>=-eq-done (keep_session n a k.text y) (λ r. updated C a d r y) h in
      let keeps = keep_session-Keeps C n a k s d y r q room at named hr h1 in
      let settings = ap (λ (z : Process P S). z.configuration) same in
      let next = ap (λ (z : Process P S). z.next) same in
      record {
        sound = keeps.sound;
        configuration = keeps.configuration ∙ settings ∙ reads.configuration_after;
        grows = omega (arith, keeps.grows, reads.grows);
      }

  received_Keeps :
      (C : Crypto) (a : ℕ) (s : Session) (d : Draws) (p m q : Process P S)
      → IsSound p
      → OnlyReads p m
      → a ≡ p.next
      → a < m.next
      → CopiedIn p.next m.next s.session_id
      → session_received C a d (put_session a s m) ≡ done q
      → Keeps p q
  unfolding session_received
  received_Keeps C a s d p m q v reads here below copied h =
      let x = put_session a s m in
      let (s', hs, h1) = >>=-eq-done (object (x.sessions a)) _ h in
      let (k, hk, h2) = >>=-eq-done (deref s'.session_id) _ h1 in
      let is : s' ≡ s =
        let e = object-eq-done (x.sessions a) hs in let f = written a s m.sessions in cc in
      let named : s.session_id ≡ set k =
        ap (λ (y : Session). y.session_id) (sym is) ∙ deref-eq-done s'.session_id hk in
      let (low, key_below) = copied k named in
      let above : a ≤ k.at = omega arith in
      let w : SessionsAreValid x =
        sessions-Agree p x v.sessions reads.session_tree_after
          (λ b g.
            unread a b (some s) m.sessions p.sessions (omega arith) (rw reads.sessions_after refl))
          reads.grows in
      let ((n, y), hy, h3) = >>=-eq-done (session_check_exists_by_id k.text x) _ h2 in
      checked_Keeps C a k s d n p m y q v reads w here below above key_below named hy h3

  session_read-Keeps :
      (C : Crypto) (r : STypes × Option (ℕ × Session) × Process P S) (d : Draws) (p q : Process P S)
      → IsSound p
      → OnlyReads p r.2
      → ((b : ℕ) (s : Session)
          → r.1 ≡ some (b, s)
          → (b ≡ p.next) × (b < r.2.next) × CopiedIn p.next r.2.next s.session_id)
      → session_read C r d ≡ done q
      → Keeps p q
  unfolding session_read
  session_read-Keeps C (okay, some (a, s), m) d p q v reads held h =
      let (here, below, copied) = held a s refl in
      received_Keeps C a s d p m q v reads here below copied h
  session_read-Keeps C (okay, none, m) d p q v reads held h = cc
  session_read-Keeps C (general_error, s, m) d p q v reads held h =
      rw (← done_injective h) (OnlyReads-Keeps p m v reads)
  session_read-Keeps C (unknown, s, m) d p q v reads held h =
      rw (← done_injective h) (OnlyReads-Keeps p m v reads)
  session_read-Keeps C (malformed, s, m) d p q v reads held h =
      rw (← done_injective h) (OnlyReads-Keeps p m v reads)

  -- Whatever a message holds: if the callback ends without undefined behaviour or a check that fails, the
  -- store of peers and the sessions are well formed as before, no address is given back, and the settings
  -- stay.
  pub passive_listener_callback-Keeps :
      (C : Crypto) (msg : Bytes) (len : ℕ) (d : Draws) (p q : Process P S)
      → IsSound p
      → passive_listener_callback C msg len d p ≡ done q
      → Keeps p q
  unfolding passive_listener_callback
  passive_listener_callback-Keeps C msg len d p q v h =
      let (r, hr, h1) =
        >>=-eq-done (deserialize_session_data msg len p) (λ r. session_read C r d) h in
      let (reads, held) = deserialize_session_data-ReadSession msg len p r v.store hr in
      session_read-Keeps C r d p q v reads held h1
