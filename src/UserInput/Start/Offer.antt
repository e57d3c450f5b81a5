-- ===== src/UserInput/Start/Offer.antt =====
-- The session that `user_start_session` of src/app/userinput.c sends.
use whisp.Prelude.{ℕ, ◌+◌, ◌==◌, ◌≡◌, refl, ◌∙◌, true, false, none, some, List, ◌∷◌, arith, All}
use whisp.CString.{Bytes, CStr, codes, strcmp_eq}
use whisp.Outcome.{done, Slot, set}
use whisp.Btree.{BTree}
use whisp.Process.{
  RawPeer, Session, public_key_exchange, Process, peer_tree_compare, session_tree_compare, write,
}
use whisp.Peerstore.View.{StoreIsValid, peer_at}
use whisp.SessionControl.{session_generate_id}
use whisp.SessionControl.View.{SessionsAreValid, listed_in, session_at}
use whisp.SessionControl.Unique.{Stands, Stands-write}
use whisp.SessionControl.Between.{HasPeers, has_between}
use whisp.SessionControl.Create.{new_session}
use whisp.Serialization.Sessions.RoundTrip.{SamePeers}
use whisp.Encryption.{Crypto, public, key_to_string}
use whisp.Authentication.{Draws}
use whisp.Authentication.Outgoing.{Named, IsShown, packet, Fits, outgoing}
use whisp.Authentication.Steps.{offered, kept, pre_handshake_lem, write_same}
use whisp.UserInput.{user_start_session}
use whisp.UserInput.Start.{fresh_id, with_session, user_start_session-begin}

module _ {P : BTree peer_tree_compare} {S : BTree session_tree_compare} where
  -- The session as it is sent first, with the public key of the new keypair.
  abbrev pub first_offer : Crypto → ℕ → ℕ → Bytes → Slot CStr → Draws → Process P S → Session
  first_offer C local foriegn text origin d p =
      offered C d (new_session local foriegn (fresh_id text p) origin)
        (record p { next = p.next + 2 })

  abbrev pub first_offer-IsShown :
      (C : Crypto) (local foriegn : ℕ) (text : Bytes) (origin : Slot CStr) (d : Draws)
      (p : Process P S)
      → IsShown (first_offer C local foriegn text origin d p)
  first_offer-IsShown C local foriegn text origin d p = record {
    secret_text = codes "(null)";
    local_text = key_to_string C d.keypair public d.slack;
    foriegn_text = codes "(null)";
    is_state = public_key_exchange;
    is_len = 0;
    shows_secret = refl;
    shows_local = refl;
    shows_foriegn = refl;
    in_state = refl;
    has_len = refl;
  }

  -- A process that may start a session with the peer of a GUID: it knows itself and the other, has no
  -- session between the two, and the id that is drawn for one fits and is not in use.
  pub record CanStart (guid : Bytes) (uuid : List ℕ) (p : Process P S) : Type 0 where
    pub local : ℕ
    pub foriegn : ℕ
    pub text : Bytes
    pub l : RawPeer
    pub names :
        Named (set local) (set foriegn) (set (fresh_id text p)) l.guid p.peers p.configuration
    pub store : StoreIsValid p
    pub sessions : SessionsAreValid p
    pub peers : All (HasPeers p.sessions) (listed_in S p.session_tree)
    pub knows_own : peer_at p names.own ≡ some local
    pub knows_other : peer_at p guid ≡ some foriegn
    pub apart : has_between local foriegn p.sessions (listed_in S p.session_tree) ≡ false
    pub at : p.peers local ≡ some l
    pub made : session_generate_id uuid ≡ done text
    pub new : session_at p text ≡ none
    pub mine : strcmp_eq names.own names.origin_guid.text ≡ true

  abbrev pub offer :
      (C : Crypto) (d : Draws) (guid : Bytes) (uuid : List ℕ) (p : Process P S)
      → CanStart guid uuid p
      → Session
  offer C d guid uuid p h = first_offer C h.local h.foriegn h.text h.l.guid d p

  abbrev pub offer-IsShown :
      (C : Crypto) (d : Draws) (guid : Bytes) (uuid : List ℕ) (p : Process P S)
      (h : CanStart guid uuid p)
      → IsShown (offer C d guid uuid p h)
  offer-IsShown C d guid uuid p h = first_offer-IsShown C h.local h.foriegn h.text h.l.guid d p

  -- The process after `user_start_session`.
  pub record Started (C : Crypto) (d : Draws) (guid : Bytes) (uuid : List ℕ) (p : Process P S)
      (h : CanStart guid uuid p) : Type 0 where
    pub after : Process P S
    pub ran : user_start_session C guid uuid d p ≡ done after
    pub session_after : after.sessions p.next ≡ some (offer C d guid uuid p h)
    pub stands : Stands p.next h.text (offer C d guid uuid p h) after
    pub sent_after :
        after.sent
        ≡ packet (offer C d guid uuid p h) p h.names (offer-IsShown C d guid uuid p h) ∷ p.sent
    pub same_peers : SamePeers p after
    pub others_after : (a : ℕ) → (p.next == a) ≡ false → after.sessions a ≡ p.sessions a

  -- A well-formed process that knows itself and the peer, with no session between the two and an id that
  -- is new: where the message fits its buffer, `user_start_session` makes a session that is found under
  -- that id, sends it once to the foriegn peer with the public key of the keypair that it drew, and
  -- leaves every other session as it was. No check stops the program.
  -- The process must have both peers written in all of its sessions, and the decimals of the UUID must
  -- have at most 23 digits, which is so of few random UUIDs: the buffer of the id overflows otherwise.
  pub user_start_session-Started :
      (C : Crypto) (d : Draws) (guid : Bytes) (uuid : List ℕ) (p : Process P S)
      (h : CanStart guid uuid p)
      → Fits (offer C d guid uuid p h) p h.names (offer-IsShown C d guid uuid p h)
      → Started C d guid uuid p h
  user_start_session-Started C d guid uuid p h fits =
      let s = new_session h.local h.foriegn (fresh_id h.text p) h.l.guid in
      let b =
        user_start_session-begin C h.names.own guid h.local h.foriegn uuid h.text h.l d p h.store
          h.sessions h.peers h.names.has_guid h.knows_own h.knows_other h.apart h.at h.made h.new in
      let q = with_session b.in_tree s p in
      let update =
        pre_handshake_lem C p.next s d q h.names (offer-IsShown C d guid uuid p h)
          (write_same p.sessions p.next (some s)) refl fits in
      let shown = offer-IsShown C d guid uuid p h in
      let s' = offer C d guid uuid p h in
      record {
        after = outgoing (packet s' p h.names shown) (kept p.next s' (p.next + 2 + 1) q);
        ran = b.ran ∙ rw update (rw h.mine refl);
        session_after = write_same (write p.sessions p.next (some s)) p.next (some s');
        stands =
            Stands-write p.next (p.next + 2 + 1) h.text s s' public_key_exchange q.last_session
              (packet s' p h.names shown ∷ p.sent) q
              (record {
                valid = b.valid;
                at = write_same p.sessions p.next (some s);
                found = b.found;
                only = b.only;
                below = omega arith;
              })
              refl refl (omega arith);
        sent_after = refl;
        same_peers = record {
          peers = refl;
          store = refl;
          configuration = refl;
          grows = omega arith;
        };
        others_after = λ a e. ground (arith, e);
      }
