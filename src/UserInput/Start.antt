-- ===== src/UserInput/Start.antt =====
-- `user_start_session` of src/app/userinput.c: a session with a peer begins.
pub mod Offer
pub mod Refused
pub mod Unplaced
use whisp.Prelude.{ℕ, ◌+◌, ◌==◌, ◌≡◌, refl, ap, ◌∙◌, true, false, none, some, List, ◌∷◌, arith, All}
use whisp.CString.{Bytes, CStr, codes, strcmp_eq}
use whisp.CString.Tokens.{strcmp_eq_iff}
use whisp.Outcome.{Outcome, done, Slot, set, ◌>>=◌}
use whisp.Btree.{BTree}
use whisp.Btree.Pointers.{first_text}
use whisp.Process.{
  RawPeer, Session, public_key_exchange, Process, peer_tree_compare, session_tree_compare, Ref,
  tree, no_tree, dangling, write,
}
use whisp.Peerstore.{peerstore_check_peer}
use whisp.Peerstore.View.{StoreIsValid, stored_in, peer_at, checked_in, peerstore_check_peer_lem}
use whisp.SessionControl.{
  session_get_session, session_check_exists, session_create, session_generate_id,
}
use whisp.SessionControl.View.{
  AreSessions, AreValidIn, SessionsAreValid, listed_in, session_at, session_get_session_lem,
}
use whisp.SessionControl.Unique.{OnlyAt, Stands, Stands-write}
use whisp.SessionControl.Between.{HasPeers, has_between, session_check_exists_lem}
use whisp.SessionControl.Create.{new_session, Created, session_create_lem}
use whisp.Serialization.Sessions.RoundTrip.{SamePeers}
use whisp.Encryption.{Crypto, public, key_to_string}
use whisp.Authentication.{Draws, authentication_session_update}
use whisp.Authentication.Outgoing.{Named, IsShown, packet, Fits, outgoing}
use whisp.Authentication.Steps.{offered, kept, pre_handshake_lem, write_same}
use whisp.UserInput.{begin_session, session_between, session_with, user_start_session}

same_text : (a : Bytes) → strcmp_eq a a ≡ true
same_text a = (strcmp_eq_iff a a).1 refl

module _ {P : BTree peer_tree_compare} {S : BTree session_tree_compare} where
  checked_in-known :
      (r : Ref P.Tree) (guid : Bytes) (a : ℕ) (p : Process P S)
      → first_text guid (stored_in P r) ≡ some a
      → checked_in r guid p ≡ ((1, set a), p)
  unfolding first_text
  checked_in-known no_tree guid a p h = cc
  checked_in-known (tree t) guid a p h = rw h refl
  checked_in-known dangling guid a p h = cc

  pub known_peer :
      (guid : Bytes) (a : ℕ) (p : Process P S)
      → StoreIsValid p
      → peer_at p guid ≡ some a
      → peerstore_check_peer guid p ≡ done ((1, set a), p)
  known_peer guid a p v h =
      peerstore_check_peer_lem guid p v ∙ ap done (checked_in-known p.store guid a p h)

  begin_session_ran :
      (C : Crypto) (local foriegn a : ℕ) (d : Draws) (id : CStr) (s : Session) (p : Process P S)
      → session_get_session id.text p ≡ done (1, set a)
      → p.sessions a ≡ some s
      → s.local_peer ≡ set local
      → s.foriegn_peer ≡ set foriegn
      → begin_session C local foriegn d id p
        ≡ (authentication_session_update C a d p >>= λ x. done x.1)
  unfolding begin_session
  begin_session_ran C local foriegn a d id s p found at l f = ground (arith, found, at, l, f)

  -- The new session is at `p.next`, where it was allocated.
  abbrev pub fresh_id : Bytes → Process P S → CStr
  fresh_id text p = record { at = p.next + 1; text = text }

  -- The process that has it, with the tree that it was added to.
  abbrev pub with_session : Ref S.Tree → Session → Process P S → Process P S
  with_session t s p = record p {
    session_tree = t;
    sessions = write p.sessions p.next (some s);
    next = p.next + 2;
  }

  listed_valid :
      (r : Ref S.Tree) (p : Process P S)
      → AreValidIn r p
      → AreSessions p.sessions p.next (listed_in S r)
  listed_valid no_tree p v = record { held = tt; distinct = tt }
  listed_valid (tree t) p v = v
  listed_valid dangling p v = absurd v

  found_after :
      (text : Bytes) (a : ℕ) (q : Process P S)
      → SessionsAreValid q
      → session_at q text ≡ some a
      → session_get_session text q ≡ done (1, set a)
  found_after text a q v h = session_get_session_lem text q v ∙ rw h refl

  session_between_ran :
      (C : Crypto) (local foriegn : ℕ) (uuid : List ℕ) (d : Draws) (id : CStr) (p q r : Process P S)
      → session_check_exists local foriegn p ≡ done (0, q)
      → session_create local foriegn uuid q ≡ done (id, r)
      → session_between C local foriegn uuid d p ≡ begin_session C local foriegn d id r
  unfolding session_between
  session_between_ran C local foriegn uuid d id p q r check ran = rw check (rw ran refl)

  -- The session between the two is there, and its first update is what is left to do.
  pub record Begins (C : Crypto) (text : Bytes) (d : Draws) (s : Session)
      (run : Outcome (Process P S)) (p : Process P S) : Type 0 where
    pub in_tree : Ref S.Tree
    pub ran :
        run
        ≡ (authentication_session_update C p.next d (with_session in_tree s p) >>= λ x. done x.1)
    pub valid : SessionsAreValid (with_session in_tree s p)
    pub found : session_at (with_session in_tree s p) text ≡ some p.next
    pub only : OnlyAt text p.next (listed_in S in_tree)

  begun :
      (C : Crypto) (local foriegn : ℕ) (uuid : List ℕ) (text : Bytes) (l : RawPeer) (d : Draws)
      (t : S.Tree) (p : Process P S)
      → session_check_exists local foriegn p ≡ done (0, record p { session_tree = tree t })
      → Created local foriegn uuid text l (record p { session_tree = tree t })
      → Begins C text d
          (new_session local foriegn (fresh_id text p) l.guid)
          (session_between C local foriegn uuid d p)
          p
  begun C local foriegn uuid text l d t p check made =
      let s = new_session local foriegn (fresh_id text p) l.guid in
      let e : made.after ≡ with_session made.after.session_tree s p =
        made.only_sessions ∙ rw made.id_at refl in
      let found : session_at made.after text ≡ some p.next =
        made.map_after text ∙ rw (same_text text) refl in
      record {
        in_tree = made.after.session_tree;
        ran =
            session_between_ran C local foriegn uuid d made.id p
              (record p { session_tree = tree t }) made.after check made.ran
            ∙ begin_session_ran C local foriegn p.next d made.id
                (new_session local foriegn made.id l.guid) made.after
                (rw made.id_text (found_after text p.next made.after made.valid found))
                (ap (λ heap. heap p.next) made.sessions_after
                  ∙ write_same p.sessions p.next (some (new_session local foriegn made.id l.guid)))
                refl refl
            ∙ ap (λ x. authentication_session_update C p.next d x >>= λ y. done y.1) e;
        valid = rw (← e) made.valid;
        found = found;
        only = made.only_after;
      }

  session_between-begin :
      (C : Crypto) (local foriegn : ℕ) (uuid : List ℕ) (text : Bytes) (l : RawPeer) (d : Draws)
      (p : Process P S)
      → SessionsAreValid p
      → All (HasPeers p.sessions) (listed_in S p.session_tree)
      → has_between local foriegn p.sessions (listed_in S p.session_tree) ≡ false
      → p.peers local ≡ some l
      → session_generate_id uuid ≡ done text
      → session_at p text ≡ none
      → Begins C text d
          (new_session local foriegn (fresh_id text p) l.guid)
          (session_between C local foriegn uuid d p)
          p
  session_between-begin C local foriegn uuid text l d p v peers apart at made new =
      let (t, checked, same) = session_check_exists_lem local foriegn p v peers in
      begun C local foriegn uuid text l d t p (checked ∙ rw apart refl) (
        session_create_lem local foriegn uuid text l (record p { session_tree = tree t })
          (rw same (listed_valid p.session_tree p v)) at made (rw same new))

  -- `user_start_session` between two known peers with no session between them yet.
  user_start_session-begin :
      (C : Crypto) (own guid : Bytes) (local foriegn : ℕ) (uuid : List ℕ) (text : Bytes)
      (l : RawPeer) (d : Draws) (p : Process P S)
      → StoreIsValid p
      → SessionsAreValid p
      → All (HasPeers p.sessions) (listed_in S p.session_tree)
      → p.configuration (codes "GUID") ≡ some own
      → peer_at p own ≡ some local
      → peer_at p guid ≡ some foriegn
      → has_between local foriegn p.sessions (listed_in S p.session_tree) ≡ false
      → p.peers local ≡ some l
      → session_generate_id uuid ≡ done text
      → session_at p text ≡ none
      → Begins C text d
          (new_session local foriegn (fresh_id text p) l.guid)
          (user_start_session C guid uuid d p)
          p
  unfolding user_start_session session_with
  user_start_session-begin C own guid local foriegn uuid text l d p store v peers is_own a b apart
        at made new =
      let h = session_between-begin C local foriegn uuid text l d p v peers apart at made new in
      record {
        in_tree = h.in_tree;
        ran =
            rw is_own
              (rw (known_peer own local p store a) (rw (known_peer guid foriegn p store b) h.ran));
        valid = h.valid;
        found = h.found;
        only = h.only;
      }
