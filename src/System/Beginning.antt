-- ===== src/System/Beginning.antt =====
-- Two processes come up (`main` of src/main/main.c), their pulses (src/net/discovery.c) make them known to
-- each other, and the user of one starts a session with the other (src/app/userinput.c).
use whisp.Prelude.{
  ℕ, ◌+◌, ◌<◌, ◌≡◌, ◌≢◌, refl, ap, ◌∙◌, sym, false, Bool, Option, none, some, List, ◌∷◌, length,
  Bool-cases, inl, inr,
}
use whisp.CString.{Bytes, CStr, codes, strcmp_eq}
use whisp.CString.Tokens.{strcmp_eq_iff, strcmp_eq_refl}
use whisp.Outcome.{Outcome, done, ◌>>=◌}
use whisp.Btree.{BTree}
use whisp.Process.{Process, no_tree, peer_tree_compare, session_tree_compare}
use whisp.SessionControl.Names.{digits_of}
use whisp.Serialization.Peers.{sent_peer}
use whisp.App.{Settings}
use whisp.Discovery.{multicast_pulse}
use whisp.Discovery.Pulse.{delivered}
use whisp.Discovery.Known.{known, Upserted}
use whisp.Main.{Node}
use whisp.Main.StartUp.{IsComplete, Ready, settings_of, guid_lem}
use whisp.Main.Announce.{pulse_heard}
use whisp.System.Answers.{start_up-Empty, start_up-IsSound}
use whisp.System.Acquainted.{Acquainted, first_text-empty}

pub strcmp_eq-apart : (a b : Bytes) → a ≢ b → strcmp_eq a b ≡ false
strcmp_eq-apart a b h = elim (Bool-cases (strcmp_eq a b)) [
  | inl e ↦ absurd (h ((strcmp_eq_iff a b).0 e))
  | inr e ↦ e
]

debug_of :
    (ip tport secureport guid debug : Bytes) (file : Settings)
    → file (codes "DEBUG") ≡ some debug
    → settings_of ip tport secureport guid file (codes "DEBUG") ≡ some debug
unfolding strcmp_eq
debug_of ip tport secureport guid debug file h = h

module _ {P : BTree peer_tree_compare} {S : BTree session_tree_compare} where
  empty-known : (guid : Bytes) (p : Process P S) → p.store ≡ no_tree → known p guid ≡ none
  empty-known guid p e = rw (e, first_text-empty guid) refl

  -- The pulse of `sender`, when it gets to `p`.
  abbrev hears : Node P S → CStr → Process P S → Outcome (Process P S)
  hears sender ip p =
      multicast_pulse sender.beacon.bgroup sender.beacon.port sender.process >>= λ after.
      delivered after.sent ip p

  -- A process without sessions that got two pulses, its own and another one.
  two_pulses :
      (own guid debug t s t' s' : Bytes) (ip ip' : CStr) (p q r : Process P S)
      → p.store ≡ no_tree
      → p.session_tree ≡ no_tree
      → p.configuration (codes "GUID") ≡ some own
      → p.configuration (codes "DEBUG") ≡ some debug
      → own ≢ guid
      → Upserted
          (record { at = p.next + 1; text = own })
          (sent_peer own (codes "PULSE") t s (codes "PEER-NULL") ip p.next)
          p
          q
      → Upserted
          (record { at = q.next + 1; text = guid })
          (sent_peer guid (codes "PULSE") t' s' (codes "PEER-NULL") ip' q.next)
          q
          r
      → Acquainted own guid debug r
  two_pulses own guid debug t s t' s' ip ip' p q r empty no_session has_guid has_debug differ u v =
      let settings = v.configuration_after ∙ u.configuration_after in
      let apart : strcmp_eq own guid ≡ false = strcmp_eq-apart own guid differ in
      let apart' : strcmp_eq guid own ≡ false = strcmp_eq-apart guid own (λ e. differ (sym e)) in
      let mine : known q own
          ≡ some (sent_peer own (codes "PULSE") t s (codes "PEER-NULL") ip p.next) =
        u.known_after own ∙ rw (strcmp_eq_refl own) (rw (empty-known own p empty) refl) in
      let nobody : known q guid ≡ none = u.known_after guid ∙ rw apart (empty-known guid p empty) in
      record {
        store = v.valid;
        no_sessions = v.session_tree_after ∙ u.session_tree_after ∙ no_session;
        has_guid = ap (λ (x : Settings). x (codes "GUID")) settings ∙ has_guid;
        has_debug = ap (λ (x : Settings). x (codes "DEBUG")) settings ∙ has_debug;
        itself = sent_peer own (codes "PULSE") t s (codes "PEER-NULL") ip p.next;
        own_guid = record { at = p.next + 1; text = own };
        knows_itself = v.known_after own ∙ rw apart' mine;
        own_named = refl;
        is_own = refl;
        other = sent_peer guid (codes "PULSE") t' s' (codes "PEER-NULL") ip' q.next;
        other_guid = record { at = q.next + 1; text = guid };
        ip = ip';
        port = record { at = q.next + 1 + 1 + 1; text = t' };
        knows_other = v.known_after guid ∙ rw (strcmp_eq_refl guid) (rw nobody refl);
        other_named = refl;
        is_other = refl;
        other_ip = refl;
        other_port = refl;
      }

  -- A process that just came up, then its own pulse, then the one of another that just came up.
  pub record Meets (mine other : Node P S) (ip ip' : CStr) (own guid debug : Bytes) : Type 0 where
    pub itself : Process P S
    pub met : Process P S
    pub hears_itself : hears mine ip mine.process ≡ done itself
    pub hears_other : hears other ip' itself ≡ done met
    pub acquainted : Acquainted own guid debug met

  pub start_up-Meets :
      (interface_ip interface_ip' : Bytes → Bool → Option Bytes) (file file' : Settings)
      (c : IsComplete interface_ip file) (c' : IsComplete interface_ip' file')
      (i j i' j' byte byte' : ℕ) (bytes bytes' : List ℕ)
      (up : Ready P S interface_ip file c i j (byte ∷ bytes))
      (up' : Ready P S interface_ip' file' c' i' j' (byte' ∷ bytes')) (ip ip' : CStr)
      (debug : Bytes)
      → length (digits_of (byte ∷ bytes)) < 24
      → length (digits_of (byte' ∷ bytes')) < 24
      → digits_of (byte ∷ bytes) ≢ digits_of (byte' ∷ bytes')
      → file (codes "DEBUG") ≡ some debug
      → Meets up.node up'.node ip ip' (digits_of (byte ∷ bytes)) (digits_of (byte' ∷ bytes')) debug
  start_up-Meets interface_ip interface_ip' file file' c c' i j i' j' byte byte' bytes bytes' up up'
        ip ip' debug fits fits' differ has_debug =
      let own = digits_of (byte ∷ bytes) in
      let guid = digits_of (byte' ∷ bytes') in
      let p = up.node.process in
      let (store, sessions) =
        start_up-Empty interface_ip (some file) i j (byte ∷ bytes) up.node up.ran in
      let sound = start_up-IsSound interface_ip (some file) i j (byte ∷ bytes) up.node up.ran in
      let (q, ran, u) =
        pulse_heard c.ip up.tport up.secureport up.node.beacon.bgroup up.node.beacon.port file byte
          bytes ip p p up.configuration up.in_range.0 up.in_range.1 fits sound.store
          (λ old e. let n = empty-known own p store in cc) in
      let apart = strcmp_eq-apart own guid differ in
      let nobody : known q guid ≡ none = u.known_after guid ∙ rw apart (empty-known guid p store) in
      let (r, ran', v) =
        pulse_heard c'.ip up'.tport up'.secureport up'.node.beacon.bgroup up'.node.beacon.port file'
          byte' bytes' ip' up'.node.process q up'.configuration up'.in_range.0 up'.in_range.1 fits'
          u.valid (λ old e. cc) in
      let has_guid = (guid_lem c.ip up.tport up.secureport own file).0 in
      record {
        itself = q;
        met = r;
        hears_itself = ran;
        hears_other = ran';
        acquainted =
            two_pulses own guid debug up.tport up.secureport up'.tport up'.secureport ip ip' p q r
              store sessions (ap (λ (x : Settings). x (codes "GUID")) up.configuration ∙ has_guid)
              (ap (λ (x : Settings). x (codes "DEBUG")) up.configuration
                ∙ debug_of c.ip up.tport up.secureport own debug file has_debug)
              differ u v;
      }
