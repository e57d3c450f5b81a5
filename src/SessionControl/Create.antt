-- ===== src/SessionControl/Create.antt =====
-- `session_create` and `session_destroy` of src/data/sessioncontrol.c: a session comes into the map of
-- the ids, and goes from it.
use whisp.Prelude.{ℕ, ◌+◌, ◌≡◌, refl, ap, ◌∙◌, none, some, List, arith, length, if◌then◌else◌}
use whisp.CString.{Bytes, CStr, strcmp_eq}
use whisp.Outcome.{done, Slot, null, set}
use whisp.Btree.{BTree}
use whisp.Btree.Pointers.{Absent, All-map}
use whisp.Process.{
  pre_handshake, Session, RawPeer, Process, peer_tree_compare, session_tree_compare, tree, write,
  ensured,
}
use whisp.SessionControl.{session_add, session_count, session_generate_id, session_create}
use whisp.SessionControl.View.{HeldSession, AreSessions, listed_in, session_at, SessionsAreValid}
use whisp.SessionControl.Unique.{OnlyAt}
use whisp.SessionControl.Changes.{
  AreSessions-Agrees, ensured-listed, sessions_in_tree, session_add_lem,
}

-- The session that is made between two peers.
abbrev pub new_session : ℕ → ℕ → CStr → Slot CStr → Session
new_session local foriegn id origin = record {
  local_peer = set local;
  foriegn_peer = set foriegn;
  local_keypair = null;
  local_public_key = null;
  foriegn_public_key = null;
  shared_secret = null;
  shared_secret_len = set 0;
  current_state = set pre_handshake;
  session_id = set id;
  session_origin_guid = origin;
}

module _ {P : BTree peer_tree_compare} {S : BTree session_tree_compare} where
  -- The state before the new session is added.
  abbrev pub allocated : S.Tree → Session → Process P S → Process P S
  allocated t s p = record p {
    session_tree = tree t;
    sessions = write p.sessions p.next (some s);
    next = p.next + 2;
  }

  session_create_ran :
      (local foriegn : ℕ) (g : List ℕ) (text : Bytes) (l : RawPeer) (p r : Process P S) (t : S.Tree)
      (c : ℕ)
      → ensured S.create p.session_tree ≡ done t
      → session_generate_id g ≡ done text
      → p.peers local ≡ some l
      → let id : CStr = record { at = p.next + 1; text = text } in
        let q = allocated t (new_session local foriegn id l.guid) p in
        session_count q ≡ done c
        → session_add p.next q ≡ done r
        → session_count r ≡ done (c + 1)
        → session_create local foriegn g p ≡ done (id, r)
  unfolding session_create
  session_create_ran local foriegn g text l p r t c e made at before ran count =
      rw (e, made, at) (rw (before, ran, count) (ground arith))

  -- What `session_create` promises.
  pub record Created (local foriegn : ℕ) (g : List ℕ) (text : Bytes) (l : RawPeer) (p : Process P S)
      : Type 0 where
    pub id : CStr
    pub after : Process P S
    pub id_text : id.text ≡ text
    pub ran : session_create local foriegn g p ≡ done (id, after)
    pub valid : SessionsAreValid after
    pub map_after :
        (i : Bytes)
        → session_at after i ≡ (if strcmp_eq text i then some p.next else session_at p i)
    pub sessions_after :
        after.sessions ≡ write p.sessions p.next (some (new_session local foriegn id l.guid))
    pub peers_after : after.peers ≡ p.peers
    pub only_sessions : after ≡ record p {
      session_tree = after.session_tree;
      sessions = write p.sessions p.next (some (new_session local foriegn id l.guid));
      next = p.next + 2;
    }
    pub only_after : OnlyAt text p.next (listed_in S after.session_tree)
    pub id_at : id ≡ record { at = p.next + 1; text = text }
    pub count_after : session_count after ≡ done (length (listed_in S p.session_tree) + 1)

  -- Where the id fits its buffer and is not in use, a session between two peers is made: no check
  -- stops the program, it is found under the id that is returned, in SESSION_PRE_HANDSHAKE with the
  -- local peer's GUID as its origin, every other id is found as before, and there is one more.
  pub session_create_lem :
      (local foriegn : ℕ) (g : List ℕ) (text : Bytes) (l : RawPeer) (p : Process P S)
      → SessionsAreValid p
      → p.peers local ≡ some l
      → session_generate_id g ≡ done text
      → session_at p text ≡ none
      → Created local foriegn g text l p
  unfolding session_count
  session_create_lem local foriegn g text l p v at made new =
      let id : CStr = record { at = p.next + 1; text = text } in
      let s = new_session local foriegn id l.guid in
      let (t, e, same, w) = ensured-listed p.session_tree p v in
      let q = allocated t s p in
      let valid : AreSessions q.sessions q.next (S.entries t) =
        AreSessions-Agrees q.sessions p.sessions p.next q.next (S.entries t) (λ b h. ground arith)
          (omega arith) w in
      let held : HeldSession q.sessions q.next (id, p.next) = record {
        session = s;
        state = pre_handshake;
        at = ground arith;
        named = refl;
        in_state = refl;
        key_below = omega arith;
        below = omega arith;
      } in
      let fresh : Absent id (S.entries t) =
        All-map (HeldSession p.sessions p.next) (S.entries t) (λ f h. omega (arith, h.key_below))
          w.held in
      let added = session_add_lem p.next q id valid held fresh (rw same new) in
      record {
        id = id;
        after = added.after;
        id_text = refl;
        ran =
            session_create_ran local foriegn g text l p added.after t (length (S.entries t)) e made
              at (sessions_in_tree S t) added.ran added.count_after;
        valid = added.valid;
        map_after = λ i. added.map_after i ∙ rw same refl;
        sessions_after = ap (λ (x : Process P S). x.sessions) added.only_tree;
        peers_after = ap (λ (x : Process P S). x.peers) added.only_tree;
        only_sessions = added.only_tree;
        only_after = added.only_after;
        id_at = refl;
        count_after = added.count_after ∙ rw same refl;
      }
