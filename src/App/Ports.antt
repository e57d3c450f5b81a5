-- ===== src/App/Ports.antt =====
-- The ports that src/app/app.c draws.
use whisp.Prelude.{ℕ, ◌+◌, ◌-◌, ◌%◌, ◌^◌, ◌≤◌, ◌<◌, ◌≡◌, refl, ◌==◌, if◌then◌else◌, arith}
use whisp.CString.{Bytes, pos, codes, atoi, show_int, int32}
use whisp.CString.Decimal.{atoi-show_int}
use whisp.Outcome.{done, fault, undefined}
use whisp.App.{Settings, put, random_in_range, generate_ports}

-- A number from `min` to `max` as %d prints it, which `atoi` reads back.
abbrev pub IsPortIn : ℕ → ℕ → Bytes → Type 0
IsPortIn min max text =
    (n : ℕ) × (text ≡ show_int (pos n)) × (atoi text ≡ pos n) × (min ≤ n) × (n ≤ max)

pub int32-small : (n : ℕ) → n < 2 ^ 31 → int32 n ≡ pos n
unfolding int32
int32-small n h = ground arith

width-lem :
    (min max : ℕ) → min ≤ max → max < 2 ^ 31 → (max + 2 ^ 32 - min + 1) % 2 ^ 32 ≡ max - min + 1
width-lem min max le lt = omega arith

below : (n w : ℕ) → 0 < w → n % w < w
below n w h = omega arith

-- The branches of `random_in_range` on its width.
drawn :
    (base min w v : ℕ)
    → v ≡ w
    → 0 < w
    → min + base % w < 2 ^ 31
    → (if v == 0 then fault undefined else done (int32 (min + base % v)))
      ≡ done (pos (min + base % w))
drawn base min w v e h lt = ground (arith, e, int32-small (min + base % w) lt)

-- A number of the range is drawn.
random_in_range_lem :
    (base min max : ℕ)
    → min ≤ max
    → max < 2 ^ 31
    → (n : ℕ) × (random_in_range base min max ≡ done (pos n)) × (min ≤ n) × (n ≤ max)
unfolding random_in_range
random_in_range_lem base min max le lt =
    let w = max - min + 1 in
    let h = below base w (omega arith) in
    (
      min + base % w,
      drawn base min w _ (width-lem min max le lt) (omega arith) (omega (arith, h)),
      omega arith,
      omega (arith, h),
    )

-- Whatever is drawn, two ports are put in the settings, as texts that `atoi` reads as numbers of the
-- two ranges, and nothing else changes.
pub generate_ports_lem :
    (a b : ℕ) (config : Settings)
    → (tport : Bytes) × (secureport : Bytes) × (generate_ports a b config
        ≡ done (put (codes "SECUREPORT") secureport (put (codes "TPORT") tport config)))
      × IsPortIn 49152 65535 tport
      × IsPortIn 41390 51952 secureport
unfolding generate_ports
generate_ports_lem a b config =
    let r = random_in_range_lem a 49152 65535 (omega arith) (omega arith) in
    let s = random_in_range_lem b 41390 51952 (omega arith) (omega arith) in
    (
      show_int (pos r.0),
      show_int (pos s.0),
      rw r.1 (rw s.1 refl),
      (r.0, refl, atoi-show_int (pos r.0), r.2, r.3),
      (s.0, refl, atoi-show_int (pos s.0), s.2, s.3),
    )
