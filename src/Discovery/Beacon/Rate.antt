-- ===== src/Discovery/Beacon/Rate.antt =====
-- When a round of the loop of src/net/discovery.c sends the pulse.
pub mod Pace
pub mod Live
use whisp.Prelude.{
  some, ltb-true, ltb-false, ℕ, zero, suc, ◌+◌, ◌-◌, ◌*◌, ◌/◌, ◌==◌, ◌≡◌, ◌<◌, ◌≤◌, refl, ap, ◌∙◌,
  true, false, ◌||◌, List, [], ◌∷◌, ltb, leb, arith, All, Bool-cases, inl, inr,
}
use whisp.CString.{ℤ, pos, codes}
use whisp.Outcome.{done}
use whisp.Btree.{BTree}
use whisp.Process.{Process, Packet, peer_tree_compare, session_tree_compare}
use whisp.Serialization.{serialize_data}
use whisp.Discovery.{multicast_pulse}
use whisp.Discovery.Beacon.{
  Beacon, Round, clocks_per_sec, gtb, elapsed, pulse_at, beat, discovery_start, discovery_teardown,
}

-- The clock does not go back, from `t` on.
abbrev pub Advances : ℕ → List Round → Type 0
Advances t [] = Unit
Advances t (r ∷ rs) = (t ≤ r.now) × (r.now ≤ r.later) × Advances r.later rs

leb-true : (a b : ℕ) → a ≤ b → leb a b ≡ true
leb-true a b h = ground arith

elapsed-quiet :
    (n now start : ℕ)
    → start ≤ now
    → now < start + (n + 1) * clocks_per_sec
    → gtb (elapsed now start) (pos n) ≡ false
elapsed-quiet n now start le lt =
    rw (leb-true start now le) (ltb-false n ((now - start) / clocks_per_sec) (omega arith))

elapsed-due :
    (n now start : ℕ)
    → start + (n + 1) * clocks_per_sec ≤ now
    → gtb (elapsed now start) (pos n) ≡ true
elapsed-due n now start le =
    rw (leb-true start now (omega arith))
      (ltb-true n ((now - start) / clocks_per_sec) (omega arith))

nonzero : (a : ℕ) → 0 < a → (a == 0) ≡ false
nonzero a h = ground arith

Advances-weaken : (s t : ℕ) (rs : List Round) → s ≤ t → Advances t rs → Advances s rs
Advances-weaken s t [] le h = tt
Advances-weaken s t (r ∷ rs) le h = (omega (arith, h.0), h.1, h.2)

-- The branches of a round.
beat_not {ℓ} :
    {A : Type ℓ} (start now : ℕ) (interval : ℤ) (x y z : A)
    → (start == 0) ≡ false
    → gtb (elapsed now start) interval ≡ false
    → (elim (start == 0) [
      | true ↦ x
      | false ↦ elim (gtb (elapsed now start) interval) [ true ↦ y | false ↦ z ]
    ])
      ≡ z
beat_not start now interval x y z s e = rw s (rw e refl)

beat_now {ℓ} :
    {A : Type ℓ} (start now : ℕ) (interval : ℤ) (x y z : A)
    → (start == 0) ≡ false
    → gtb (elapsed now start) interval ≡ true
    → (elim (start == 0) [
      | true ↦ x
      | false ↦ elim (gtb (elapsed now start) interval) [ true ↦ y | false ↦ z ]
    ])
      ≡ y
beat_now start now interval x y z s e = rw s (rw e refl)

-- The last reading of the clock, `t` at first.
abbrev pub last_now : ℕ → List Round → ℕ
last_now t [] = t
last_now t (r ∷ rs) = last_now r.now rs

-- The same packet, so many times.
unfoldable pub repeated : ℕ → Packet → List Packet → List Packet
repeated zero m ms = ms
repeated (suc k) m ms = m ∷ repeated k m ms

repeated_later :
    (k : ℕ) (m : Packet) (ms : List Packet) → repeated k m (m ∷ ms) ≡ repeated (suc k) m ms
unfolding repeated
repeated_later zero m ms = refl
repeated_later (suc k) m ms = ap (λ x. m ∷ x) (repeated_later k m ms)

module _ {P : BTree peer_tree_compare} {S : BTree session_tree_compare} where
  -- The announcement that this process can make: its text fits.
  pub record Announces (m : Packet) (b : Beacon) (p : Process P S) : Type 0 where
    pub len : ℕ
    pub serialized :
        serialize_data
          (p.configuration (codes "GUID"))
          (some (codes "PULSE"))
          (p.configuration (codes "TPORT"))
          (p.configuration (codes "SECUREPORT"))
          (some (codes "PEER-NULL"))
        ≡ done (m.payload, len)
    pub host : m.host ≡ b.bgroup
    pub port : m.port ≡ b.port

  pulse_at_lem :
      (later : ℕ) (m : Packet) (b : Beacon) (p : Process P S)
      → Announces m b p
      → pulse_at later b p ≡ done (record b { start_t = later }, record p { sent = m ∷ p.sent })
  unfolding pulse_at multicast_pulse
  pulse_at_lem later m b p h = ground (arith, h.serialized, h.host, h.port)

  -- Before the interval is over nothing is sent.
  beat-quiet :
      (n : ℕ) (r : Round) (b : Beacon) (p : Process P S)
      → b.interval ≡ pos n
      → 0 < b.start_t
      → b.start_t ≤ r.now
      → r.now < b.start_t + (n + 1) * clocks_per_sec
      → beat r b p ≡ done (record b { end_t = r.now }, p)
  unfolding beat
  beat-quiet n r b p i pos_t le lt =
      let quiet = elapsed-quiet n r.now b.start_t le lt in
      let started = nonzero b.start_t pos_t in
      beat_not b.start_t r.now b.interval _ _ _ started (rw i quiet)

  -- Once it is over the pulse is sent.
  beat-due :
      (n : ℕ) (r : Round) (m : Packet) (b : Beacon) (p : Process P S)
      → Announces m b p
      → b.interval ≡ pos n
      → 0 < b.start_t
      → b.start_t + (n + 1) * clocks_per_sec ≤ r.now
      → beat r b p
        ≡ done (record b { start_t = r.later; end_t = r.now }, record p { sent = m ∷ p.sent })
  unfolding beat
  beat-due n r m b p h i pos_t le =
      let due = elapsed-due n r.now b.start_t le in
      let started = nonzero b.start_t pos_t in
      beat_now b.start_t r.now b.interval _ _ _ started (rw i due)
      ∙ pulse_at_lem r.later m (record b { end_t = r.now }) p
          (record { len = h.len; serialized = h.serialized; host = h.host; port = h.port })

  discovery_start-next :
      (r : Round) (rs : List Round) (b b' : Beacon) (p q : Process P S)
      → (b.is_exiting || r.exiting) ≡ false
      → beat r b p ≡ done (b', q)
      → discovery_start (r ∷ rs) b p ≡ discovery_start rs b' q
  unfolding discovery_start
  discovery_start-next r rs b b' p q e h = ground (arith, e, h)

  discovery_start-stop :
      (r : Round) (rs : List Round) (b : Beacon) (p : Process P S)
      → (b.is_exiting || r.exiting) ≡ true
      → discovery_start (r ∷ rs) b p ≡ done (discovery_teardown b, p)
  unfolding discovery_start
  discovery_start-stop r rs b p e = ground (arith, e)
