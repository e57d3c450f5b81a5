-- ===== src/Main/Announce.antt =====
-- From the start of one process to the store of another: `main` (src/main/main.c), the first round of
-- `discovery_start` and what a received pulse does (src/net/discovery.c).
use whisp.Prelude.{
  ℕ, ◌+◌, ◌<◌, ◌≤◌, ◌≡◌, ◌≢◌, refl, ap, ◌∙◌, false, Option, some, List, [], ◌∷◌, ◌++◌, All, length,
  arith, Bool,
}
use whisp.CString.{Bytes, CStr, codes, decimal, pos}
use whisp.CString.Tokens.{NoDelimiter, IsWord}
use whisp.CString.Decimal.{decimal-IsWord, show_int-IsWord, length-show_int}
use whisp.Outcome.{Outcome, done, fault, ◌>>=◌}
use whisp.Btree.{BTree}
use whisp.Process.{RawPeer, Process, peer_tree_compare, session_tree_compare}
use whisp.Peerstore.View.{StoreIsValid}
use whisp.Peerstore.Operations.{CanUpdate}
use whisp.Serialization.Peers.{sent_peer}
use whisp.SessionControl.Names.{digits_of}
use whisp.App.{Settings}
use whisp.App.Ports.{IsPortIn}
use whisp.Discovery.{multicast_pulse}
use whisp.Discovery.Known.{known, Upserted}
use whisp.Discovery.Pulse.{delivered, delivered-multicast_pulse}
use whisp.Discovery.Beacon.{Beacon, Round, pulse_at, beat, discovery_start}
use whisp.Main.{start_up}
use whisp.Main.StartUp.{IsComplete, settings_of, guid_lem, start_up-Ready}

NoDelimiter-append : (a b : Bytes) → NoDelimiter a → NoDelimiter b → NoDelimiter (a ++ b)
NoDelimiter-append [] b h g = g
NoDelimiter-append (c ∷ a) b h g = (h.0, NoDelimiter-append a b h.1 g)

NoDelimiter-digits_of : (g : List ℕ) → NoDelimiter (digits_of g)
unfolding digits_of
NoDelimiter-digits_of [] = tt
NoDelimiter-digits_of (b ∷ g) =
    NoDelimiter-append (decimal b) (digits_of g) (decimal-IsWord b).1 (NoDelimiter-digits_of g)

append-ne-nil : (a b : Bytes) → a ≢ [] → a ++ b ≢ []
append-ne-nil [] b h = absurd (h refl)
append-ne-nil (c ∷ a) b h = cc

pub digits_of-IsWord : (b : ℕ) (g : List ℕ) → IsWord (digits_of (b ∷ g))
digits_of-IsWord b g = (
  unfold digits_of in append-ne-nil (decimal b) (digits_of g) (decimal-IsWord b).0,
  NoDelimiter-digits_of (b ∷ g),
)

-- A port is a short word.
IsPortIn-IsWord :
    (min max : ℕ) (text : Bytes)
    → max < 100000
    → IsPortIn min max text
    → IsWord text × (length text ≤ 5)
IsPortIn-IsWord min max text lt (n, e, parsed, above, below) =
    (rw e (show_int-IsWord (pos n)), rw e (length-show_int n (omega arith)))

>>=_assoc {ℓ κ} :
    {A B : Type ℓ} {C : Type κ} (m : Outcome A) (f : A → Outcome B) (h : B → Outcome C)
    → ((m >>= f) >>= h) ≡ (m >>= λ x. f x >>= h)
>>=_assoc (done x) f h = refl
>>=_assoc (fault e) f h = refl

module _ {P : BTree peer_tree_compare} {S : BTree session_tree_compare} where
  beat_first :
      (r : Round) (b : Beacon) (p : Process P S)
      → b.start_t ≡ 0
      → beat r b p
        ≡ (multicast_pulse b.bgroup b.port p >>= λ q. done (record b { start_t = r.later }, q))
  unfolding beat pulse_at
  beat_first r b p never = ground (arith, never)

  alone :
      (r : Round) (b : Beacon) (p : Process P S)
      → b.is_exiting ≡ false
      → r.exiting ≡ false
      → discovery_start (r ∷ []) b p ≡ (beat r b p >>= λ x. discovery_start [] x.0 x.1)
  unfolding discovery_start
  alone r b p runs on = ground (arith, runs, on)

  -- The first round sends the pulse.
  first_beat :
      (r : Round) (b : Beacon) (p : Process P S)
      → b.is_exiting ≡ false
      → r.exiting ≡ false
      → b.start_t ≡ 0
      → discovery_start (r ∷ []) b p
        ≡ (multicast_pulse b.bgroup b.port p >>= λ q. done (record b { start_t = r.later }, q))
  unfolding discovery_start
  first_beat r b p runs on never =
      alone r b p runs on
      ∙ rw (beat_first r b p never) (
          >>=_assoc (multicast_pulse b.bgroup b.port p)
            (λ q. done (record b { start_t = r.later }, q)) (λ x. discovery_start [] x.0 x.1))

  -- The first pulse of a process, up to where the datagram is dealt with at `p`.
  abbrev pub announced :
      (Bytes → Bool → Option Bytes)
      → Option Settings
      → ℕ
      → ℕ
      → List ℕ
      → Round
      → CStr
      → Process P S
      → Outcome (Process P S)
  announced interface_ip file a b g r ip p =
      start_up {P = P} {S = S} interface_ip file a b g >>= λ n.
      discovery_start (r ∷ []) n.beacon n.process >>= λ x. delivered x.1.sent ip p

  pub record Heard (interface_ip : Bytes → Bool → Option Bytes) (file : Settings) (a b : ℕ)
      (guid : Bytes) (g : List ℕ) (r : Round) (ip : CStr) (p : Process P S) : Type 0 where
    pub tport : Bytes
    pub secureport : Bytes
    pub in_range : IsPortIn 49152 65535 tport × IsPortIn 41390 51952 secureport
    pub after : Process P S
    pub ran : announced interface_ip (some file) a b g r ip p ≡ done after
    pub upserted :
        Upserted
          (record { at = p.next + 1; text = guid })
          (sent_peer guid (codes "PULSE") tport secureport (codes "PEER-NULL") ip p.next)
          p
          after

  -- A pulse that any process with such settings sends, received at `p`.
  abbrev pub HeardFrom :
      (bgroup port guid t s : Bytes) (ip : CStr) (sender p : Process P S) → Type 0
  HeardFrom bgroup port guid t s ip sender p =
      (q : Process P S) × ((multicast_pulse bgroup port sender >>= λ after.
      delivered after.sent ip p)
        ≡ done q)
      × Upserted (record { at = p.next + 1; text = guid })
          (sent_peer guid (codes "PULSE") t s (codes "PEER-NULL") ip p.next) p q

  pub pulse_heard :
      (file_ip t s bgroup port : Bytes) (file : Settings) (byte : ℕ) (bytes : List ℕ) (ip : CStr)
      (sender p : Process P S)
      → sender.configuration ≡ settings_of file_ip t s (digits_of (byte ∷ bytes)) file
      → IsPortIn 49152 65535 t
      → IsPortIn 41390 51952 s
      → length (digits_of (byte ∷ bytes)) < 24
      → StoreIsValid p
      → ((old : RawPeer) → known p (digits_of (byte ∷ bytes)) ≡ some old → CanUpdate old)
      → HeardFrom bgroup port (digits_of (byte ∷ bytes)) t s ip sender p
  pulse_heard file_ip t s bgroup port file byte bytes ip sender p e high low fits v can =
      let g = byte ∷ bytes in
      let keys = guid_lem file_ip t s (digits_of g) file in
      let (tw, tl) = IsPortIn-IsWord 49152 65535 t (omega arith) high in
      let (sw, sl) = IsPortIn-IsWord 41390 51952 s (omega arith) low in
      delivered-multicast_pulse (digits_of g) t s bgroup port ip sender p
        (ap (λ (x : Settings). x (codes "GUID")) e ∙ keys.0)
        (ap (λ (x : Settings). x (codes "TPORT")) e ∙ keys.1)
        (ap (λ (x : Settings). x (codes "SECUREPORT")) e ∙ keys.2)
        (digits_of-IsWord byte bytes, (tw, (sw, tt))) (omega (arith, fits, tl, sl)) v can

  -- With complete settings a process comes up, and its first pulse makes it known to any process with a
  -- well-formed store that gets the datagram: under the digits of its UUID, with the ports that it
  -- listens on, which are of their ranges.
  pub start_up-Heard :
      (interface_ip : Bytes → Bool → Option Bytes) (file : Settings)
      (c : IsComplete interface_ip file) (a b byte : ℕ) (bytes : List ℕ) (r : Round) (ip : CStr)
      (p : Process P S)
      → All (λ x. x < 256) (byte ∷ bytes)
      → length (digits_of (byte ∷ bytes)) < 24
      → r.exiting ≡ false
      → StoreIsValid p
      → ((old : RawPeer) → known p (digits_of (byte ∷ bytes)) ≡ some old → CanUpdate old)
      → Heard interface_ip file a b (digits_of (byte ∷ bytes)) (byte ∷ bytes) r ip p
  start_up-Heard interface_ip file c a b byte bytes r ip p h fits on v can =
      let g = byte ∷ bytes in
      let ready = start_up-Ready P S interface_ip file c a b g h fits in
      let n = ready.node in
      let t = ready.tport in
      let s = ready.secureport in
      let (q, ran, up) =
        pulse_heard c.ip t s n.beacon.bgroup n.beacon.port file byte bytes ip n.process p
          ready.configuration ready.in_range.0 ready.in_range.1 fits v can in
      record {
        tport = t;
        secureport = s;
        in_range = ready.in_range;
        after = q;
        ran = rw ready.ran (
            rw (first_beat r n.beacon n.process ready.runs on ready.never_sent) (
              >>=_assoc (multicast_pulse n.beacon.bgroup n.beacon.port n.process)
                (λ x. done (record n.beacon { start_t = r.later }, x))
                (λ x. delivered x.1.sent ip p)
              ∙ ran));
        upserted = up;
      }
