-- ===== src/Authentication/Frame.antt =====
-- What the steps of `authentication_session_update` (src/net/authentication.c) leave as it was.
use whisp.Prelude.{ℕ, ◌≡◌, ◌≢◌, ◌≤◌, refl, ◌∙◌, Option, some, List, ◌∷◌, arith}
use whisp.Outcome.{done, Slot, set, Outcome-done, deref}
use whisp.Btree.{BTree}
use whisp.Process.{
  Session, State, Process, Packet, peer_tree_compare, session_tree_compare, write, object,
}
use whisp.Serialization.Sessions.{serialize_session_data}
use whisp.SecureChannel.{host_of}
use whisp.Authentication.{put_session, authentication_update_foriegn_session}
use whisp.Authentication.Outgoing.{outgoing}

module _ {P : BTree peer_tree_compare} {S : BTree session_tree_compare} where
  -- All that a step leaves: what is configured, the peers, both trees and the other sessions. No address
  -- is given back.
  pub record Leaves (a : ℕ) (p q : Process P S) : Type 0 where
    pub configuration : q.configuration ≡ p.configuration
    pub peers : q.peers ≡ p.peers
    pub store : q.store ≡ p.store
    pub session_tree : q.session_tree ≡ p.session_tree
    pub others : (b : ℕ) → b ≢ a → q.sessions b ≡ p.sessions b
    pub grows : p.next ≤ q.next

  -- The session at `a` is in a state.
  pub record InState (a : ℕ) (s : Session) (state : State) (q : Process P S) : Type 0 where
    pub session : Session
    pub at : q.sessions a ≡ some session
    pub in_state : session.current_state ≡ set state
    pub local_peer : session.local_peer ≡ s.local_peer
    pub foriegn_peer : session.foriegn_peer ≡ s.foriegn_peer
    pub session_id : session.session_id ≡ s.session_id
    pub session_origin_guid : session.session_origin_guid ≡ s.session_origin_guid

  pub sent_one :
      (a : ℕ) (p q : Process P S)
      → authentication_update_foriegn_session a p ≡ done q
      → (k : Packet) × (q ≡ outgoing k p)
  unfolding authentication_update_foriegn_session
  sent_one a p q h =
      let (b, hb) = Outcome-done (serialize_session_data a p) (λ e f. ground (arith, h, f)) in
      let (s, hs) = Outcome-done (object (p.sessions a)) (λ e f. ground (arith, h, hb, f)) in
      let (fa, hf) = Outcome-done (deref s.foriegn_peer) (λ e f. ground (arith, h, hb, hs, f)) in
      let (f, ho) = Outcome-done (object (p.peers fa)) (λ e f. ground (arith, h, hb, hs, hf, f)) in
      let (host, hh) = Outcome-done (host_of f p) (λ e f. ground (arith, h, hb, hs, hf, ho, f)) in
      let (port, hp) =
        Outcome-done (deref f.port) (λ e f. ground (arith, h, hb, hs, hf, ho, hh, f)) in
      (
        record { host = host; port = port.text; payload = b.0 },
        ground (arith, h, hb, hs, hf, ho, hh, hp),
      )

  abbrev pub Advances : ℕ → Session → State → Process P S → Process P S → Type 0
  Advances a s state p q = Leaves a p q × InState a s state q

  -- Two writes to one address.
  pub rewritten :
      (a : ℕ) (s s' : Session) (state : State) (last : Slot ℕ) (next : ℕ) (sent : List Packet)
      (heap : ℕ → Option Session) (p : Process P S)
      → heap a ≡ some s'
      → ((b : ℕ) → b ≢ a → heap b ≡ p.sessions b)
      → s'.current_state ≡ set state
      → s'.local_peer ≡ s.local_peer
      → s'.foriegn_peer ≡ s.foriegn_peer
      → s'.session_id ≡ s.session_id
      → s'.session_origin_guid ≡ s.session_origin_guid
      → p.next ≤ next
      → Advances a s state p
          (record p { sessions = heap; last_session = last; next = next; sent = sent })
  rewritten a s s' state last next sent heap p at others e1 e2 e3 e4 e5 le = (
    record {
      configuration = refl;
      peers = refl;
      store = refl;
      session_tree = refl;
      others = others;
      grows = le;
    },
    record {
      session = s';
      at = at;
      in_state = e1;
      local_peer = e2;
      foriegn_peer = e3;
      session_id = e4;
      session_origin_guid = e5;
    },
  )

  pub step_sent :
      (a : ℕ) (s s' : Session) (state : State) (next : ℕ) (p q : Process P S)
      → authentication_update_foriegn_session a (put_session a s' (record p { next = next }))
        ≡ done q
      → s'.current_state ≡ set state
      → s'.local_peer ≡ s.local_peer
      → s'.foriegn_peer ≡ s.foriegn_peer
      → s'.session_id ≡ s.session_id
      → s'.session_origin_guid ≡ s.session_origin_guid
      → p.next ≤ next
      → Advances a s state p q
  step_sent a s s' state next p q h e1 e2 e3 e4 e5 le =
      let (k, e) = sent_one a (put_session a s' (record p { next = next })) q h in
      rw e (
        rewritten a s s' state p.last_session next (k ∷ p.sent) (write p.sessions a (some s')) p
          (ground arith) (λ b apart. ground arith) e1 e2 e3 e4 e5 le)

  -- A step from where the session was replaced and a packet was sent.
  pub step_onwards :
      (a : ℕ) (s s' s'' : Session) (state : State) (next : ℕ) (k : Packet) (p q : Process P S)
      → s''.local_peer ≡ s.local_peer
      → s''.foriegn_peer ≡ s.foriegn_peer
      → s''.session_id ≡ s.session_id
      → s''.session_origin_guid ≡ s.session_origin_guid
      → p.next ≤ next
      → Advances a s'' state
          (put_session a s'' (outgoing k (put_session a s' (record p { next = next }))))
          q
      → Advances a s state p q
  step_onwards a s s' s'' state next k p q e1 e2 e3 e4 le (l, i) = (
    record {
      configuration = l.configuration;
      peers = l.peers;
      store = l.store;
      session_tree = l.session_tree;
      others = λ b apart. l.others b apart ∙ ground arith;
      grows = omega (arith, l.grows);
    },
    record {
      session = i.session;
      at = i.at;
      in_state = i.in_state;
      local_peer = i.local_peer ∙ e1;
      foriegn_peer = i.foriegn_peer ∙ e2;
      session_id = i.session_id ∙ e3;
      session_origin_guid = i.session_origin_guid ∙ e4;
    },
  )
