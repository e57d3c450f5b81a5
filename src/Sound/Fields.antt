-- ===== src/Sound/Fields.antt =====
-- Any message of a session that is read (`deserialize_session_data` of src/data/serialization.c).
use whisp.Prelude.{
  ℕ, zero, suc, ◌==◌, ◌<◌, ◌≤◌, ◌≡◌, refl, ap, ◌∙◌, Bool, true, false, Option, none, some, List, [],
  ◌∷◌, arith, Option-cases, Bool-cases, inl, inr,
}
use whisp.CString.{Bytes, codes, strcmp_eq, tokens, atoi}
use whisp.Outcome.{Outcome, done, Slot, set, >>=-eq-done, ◌>>=◌, ◌>>◌}
use whisp.Btree.{BTree}
use whisp.Process.{
  Session, Process, peer_tree_compare, session_tree_compare, object, state_of_int, size_of_int,
}
use whisp.Peerstore.{peerstore_check_peer}
use whisp.Peerstore.View.{StoreIsValid}
use whisp.Serialization.{STypes, okay, malformed}
use whisp.Serialization.Sessions.{
  SessionKey, local_peer_key, foriegn_peer_key, shared_secret_key, current_state_key,
  session_id_key, session_origin_guid_key, local_public_key_key, foriegn_public_key_key,
  shared_secret_len_key, session_key, free_session_fields, fresh_session, place_peer, copied,
  bumped, set_peer, set_session_field, session_loop, deserialize_session_data,
}
use whisp.Sound.Datagrams.{CopiedIn, CopiedIn-mono}
use whisp.Sound.Lookups.{
  OnlyReads, OnlyReads-trans, OnlyReads-refl, bumped-OnlyReads, peerstore_check_peer-OnlyReads,
}

place_peer-id :
    (own : Bool) (r : ℕ × Slot ℕ) (s : Session) → (place_peer own r s).session_id ≡ s.session_id
place_peer-id own (zero, peer) s = refl
place_peer-id true (suc found, peer) s = refl
place_peer-id false (suc found, peer) s = refl

module _ {P : BTree peer_tree_compare} {S : BTree session_tree_compare} where
  set_peer-OnlyReads :
      (lo : ℕ) (value : Bytes) (s s' : Session) (p q : Process P S)
      → StoreIsValid p
      → CopiedIn lo p.next s.session_id
      → set_peer value s p ≡ done (s', q)
      → OnlyReads p q × CopiedIn lo q.next s'.session_id
  unfolding set_peer
  set_peer-OnlyReads lo value s s' p q v c h =
      let (own, ho, h1) = >>=-eq-done (object (p.configuration (codes "GUID"))) _ h in
      let ((r, q'), hr, h2) = >>=-eq-done (peerstore_check_peer value p) _ h1 in
      let same : q ≡ q' = cc in
      let is : s' ≡ place_peer (strcmp_eq value own) r s = cc in
      let reads = peerstore_check_peer-OnlyReads value r p q' v hr in
      let id : s'.session_id ≡ s.session_id =
        ap (λ (x : Session). x.session_id) is ∙ place_peer-id (strcmp_eq value own) r s in
      let later : OnlyReads p q = rw same reads in
      (later, rw id (CopiedIn-mono lo p.next q.next s.session_id later.grows c))

  -- A field that is not the id.
  kept_id :
      (lo : ℕ) (s s' : Session) (p q r : Process P S)
      → StoreIsValid p
      → CopiedIn lo p.next s.session_id
      → OnlyReads p r
      → q ≡ r
      → s'.session_id ≡ s.session_id
      → OnlyReads p q × CopiedIn lo q.next s'.session_id
  kept_id lo s s' p q r v c reads same id =
      let later : OnlyReads p q = rw same reads in
      (later, rw id (CopiedIn-mono lo p.next q.next s.session_id later.grows c))

  -- One field: its text is copied, or the store is searched.
  set_session_field-OnlyReads :
      (key : SessionKey) (value : Bytes) (lo : ℕ) (s s' : Session) (p q : Process P S)
      → StoreIsValid p
      → lo ≤ p.next
      → CopiedIn lo p.next s.session_id
      → set_session_field key value s p ≡ done (s', q)
      → OnlyReads p q × CopiedIn lo q.next s'.session_id
  unfolding set_session_field
  set_session_field-OnlyReads local_peer_key value lo s s' p q v le c h =
      set_peer-OnlyReads lo value s s' p q v c h
  set_session_field-OnlyReads foriegn_peer_key value lo s s' p q v le c h =
      set_peer-OnlyReads lo value s s' p q v c h
  set_session_field-OnlyReads shared_secret_key value lo s s' p q v le c h =
      kept_id lo s s' p q (bumped p) v c (bumped-OnlyReads p v) (let e : q ≡ bumped p = cc in e) (
        let e : s' ≡ record s { shared_secret = set (copied value p) } = cc in
        ap (λ (x : Session). x.session_id) e)
  set_session_field-OnlyReads current_state_key value lo s s' p q v le c h =
      kept_id lo s s' p q p v c (OnlyReads-refl p v) (let e : q ≡ p = cc in e) (
        let e : s' ≡ record s { current_state = set (state_of_int (atoi value)) } = cc in
        ap (λ (x : Session). x.session_id) e)
  set_session_field-OnlyReads session_id_key value lo s s' p q v le c h =
      let same : q ≡ bumped p = cc in
      let is : s' ≡ record s { session_id = set (copied value p) } = cc in
      (
        rw same (bumped-OnlyReads p v),
        rw (same, is)
            (λ k e. let here : k ≡ copied value p = cc in rw here (omega arith, omega arith)),
      )
  set_session_field-OnlyReads session_origin_guid_key value lo s s' p q v le c h =
      kept_id lo s s' p q (bumped p) v c (bumped-OnlyReads p v) (let e : q ≡ bumped p = cc in e) (
        let e : s' ≡ record s { session_origin_guid = set (copied value p) } = cc in
        ap (λ (x : Session). x.session_id) e)
  set_session_field-OnlyReads local_public_key_key value lo s s' p q v le c h =
      kept_id lo s s' p q (bumped p) v c (bumped-OnlyReads p v) (let e : q ≡ bumped p = cc in e) (
        let e : s' ≡ record s { local_public_key = set (copied value p) } = cc in
        ap (λ (x : Session). x.session_id) e)
  set_session_field-OnlyReads foriegn_public_key_key value lo s s' p q v le c h =
      kept_id lo s s' p q (bumped p) v c (bumped-OnlyReads p v) (let e : q ≡ bumped p = cc in e) (
        let e : s' ≡ record s { foriegn_public_key = set (copied value p) } = cc in
        ap (λ (x : Session). x.session_id) e)
  set_session_field-OnlyReads shared_secret_len_key value lo s s' p q v le c h =
      kept_id lo s s' p q p v c (OnlyReads-refl p v) (let e : q ≡ p = cc in e) (
        let e : s' ≡ record s { shared_secret_len = set (size_of_int (atoi value)) } = cc in
        ap (λ (x : Session). x.session_id) e)

  -- What a run of the reader leaves: the session is the one at `at`, and its id a new copy.
  pub record ReadSession (lo at : ℕ) (p : Process P S)
      (r : STypes × Option (ℕ × Session) × Process P S) : Type 0 where
    pub reads : OnlyReads p r.2
    pub held :
        (b : ℕ) (s : Session) → r.1 ≡ some (b, s) → (b ≡ at) × CopiedIn lo r.2.next s.session_id

  read_okay :
      (lo at : ℕ) (s : Session) (p : Process P S)
      → StoreIsValid p
      → CopiedIn lo p.next s.session_id
      → ReadSession lo at p (okay, some (at, s), p)
  read_okay lo at s p v c = record {
    reads = OnlyReads-refl p v;
    held = λ b s' e. let here : b ≡ at = cc in let is : s' ≡ s = cc in (here, rw is c);
  }

  read_nothing :
      (lo at : ℕ) (p : Process P S) → StoreIsValid p → ReadSession lo at p (malformed, none, p)
  read_nothing lo at p v = record { reads = OnlyReads-refl p v; held = λ b s e. cc }

  session_loop-ReadSession :
      (ts : List Bytes) (lo at : ℕ) (s : Session) (p : Process P S)
      (r : STypes × Option (ℕ × Session) × Process P S)
      → StoreIsValid p
      → lo ≤ p.next
      → CopiedIn lo p.next s.session_id
      → session_loop ts at s p ≡ done r
      → ReadSession lo at p r
  unfolding session_loop
  session_loop-ReadSession [] lo at s p r v le c run =
      let same : r ≡ (okay, some (at, s), p) = cc in rw same (read_okay lo at s p v c)
  session_loop-ReadSession (t ∷ []) lo at s p r v le c run = elim (Option-cases (session_key t)) [
    | inl e ↦
        let same : r ≡ (okay, some (at, s), p) = ground (arith, run, e) in
        rw same (read_okay lo at s p v c)
    | inr (k, e) ↦
        let end : Outcome (STypes × Option (ℕ × Session) × Process P S) =
          done (malformed, none, p) in
        let go : (free_session_fields k s >> end) ≡ done r = ground (arith, run, e) in
        let (u, hu, last) = >>=-eq-done (free_session_fields k s) (λ _. end) go in
        let same : r ≡ (malformed, none, p) = cc in rw same (read_nothing lo at p v)
  ]
  session_loop-ReadSession (t ∷ value ∷ ts) lo at s p r v le c run =
      elim (Option-cases (session_key t)) [
        | inl e ↦ session_loop-ReadSession (value ∷ ts) lo at s p r v le c (ground (arith, run, e))
        | inr (k, e) ↦
            let go : (set_session_field k value s p >>= λ x. session_loop ts at x.0 x.1) ≡ done r =
              ground (arith, run, e) in
            let ((s', q), hf, h1) =
              >>=-eq-done (set_session_field k value s p) (λ x. session_loop ts at x.0 x.1) go in
            let (reads, copied) = set_session_field-OnlyReads k value lo s s' p q v le c hf in
            let rest =
              session_loop-ReadSession ts lo at s' q r reads.store (omega (arith, reads.grows))
                copied h1 in
            record { reads = OnlyReads-trans p q r.2 reads rest.reads; held = rest.held }
      ]

  -- A session that is read is a new one, with the address of its id behind its own.
  pub deserialize_session_data-ReadSession :
      (msg : Bytes) (len : ℕ) (p : Process P S) (r : STypes × Option (ℕ × Session) × Process P S)
      → StoreIsValid p
      → deserialize_session_data msg len p ≡ done r
      → OnlyReads p r.2
        × ((b : ℕ) (s : Session)
            → r.1 ≡ some (b, s)
            → (b ≡ p.next) × (b < r.2.next) × CopiedIn p.next r.2.next s.session_id)
  unfolding deserialize_session_data
  deserialize_session_data-ReadSession msg len p r v h = elim (Bool-cases (len == 0)) [
    | inl e ↦
        let same : r ≡ (malformed, none, p) = ground (arith, h, e) in
        rw same (OnlyReads-refl p v, λ b s e. cc)
    | inr e ↦
        let first = bumped-OnlyReads p v in
        let rest =
          session_loop-ReadSession (tokens msg) p.next p.next fresh_session (bumped p) r first.store
            (omega arith) (λ k e. cc) (ground (arith, h, e)) in
        let reads = OnlyReads-trans p (bumped p) r.2 first rest.reads in
        (
          reads,
          λ b s e.
              let (here, copied) = rest.held b s e in
              (here, omega (arith, rest.reads.grows), copied),
        )
  ]
