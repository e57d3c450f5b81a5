-- ===== src/Discovery/Beacon.antt =====
-- src/net/discovery.c: the set-up of the pulse, the loop that sends it, and its end.
--
-- Sockets are left out. A run of the loop is a list of rounds: what a round reads of
-- `is_not_exiting`, which another thread sets, and of `clock`, are arguments.
pub mod Rate
use whisp.Prelude.{
  ℕ, ◌+◌, ◌-◌, ◌*◌, ◌/◌, ◌==◌, Bool, true, false, ◌||◌, Option, none, some, List, [], ◌∷◌, ltb, leb,
  if◌then◌else◌,
}
use whisp.CString.{Bytes, ℤ, pos, negsuc, codes, strcmp_eq, atoi, negate}
use whisp.Outcome.{Outcome, done, jnx_check, ◌>>=◌, ◌>>◌}
use whisp.Btree.{BTree}
use whisp.Process.{Process, peer_tree_compare, session_tree_compare, object}
use whisp.Discovery.{multicast_pulse}
use whisp.App.{Settings, required}

-- The static variables of the pulse: the interval in seconds, when the last pulse was sent (0 is
-- never), whether the process is exiting, and the group and port that the pulse goes to.
pub record Beacon : Type 0 where
  pub interval : ℤ
  pub start_t : ℕ
  pub end_t : ℕ
  pub is_exiting : Bool
  pub bgroup : Bytes
  pub port : Bytes

abbrev pub clocks_per_sec : ℕ
clocks_per_sec = 1_000_000

abbrev pub is_nonzero : ℤ → Bool
is_nonzero (pos n) = if n == 0 then false else true
is_nonzero (negsuc n) = true

unfoldable pub discovery_setup : Settings → Outcome Beacon
discovery_setup config = do
  af ← object (config (codes "ADDFAMILY"))
  bgroup ← required (config (codes "BGROUP"))
  bport ← required (config (codes "BPORT"))
  tport ← required (config (codes "TPORT"))
  ip ← required (config (codes "IP"))
  text ← object (config (codes "INTERVAL"))
  jnx_check (is_nonzero (atoi text))
  done (record {
    interval = atoi text;
    start_t = 0;
    end_t = 0;
    is_exiting = false;
    bgroup = bgroup;
    port = bport;
  })

unfoldable pub discovery_teardown : Beacon → Beacon
discovery_teardown b = record b { is_exiting = true }

-- `a > b`
abbrev pub gtb : ℤ → ℤ → Bool
gtb (pos a) (pos b) = ltb b a
gtb (pos a) (negsuc b) = true
gtb (negsuc a) (pos b) = false
gtb (negsuc a) (negsuc b) = ltb a b

-- `(end_t - start_t) / CLOCKS_PER_SEC`, which rounds towards 0
abbrev pub elapsed : ℕ → ℕ → ℤ
elapsed end start =
    if leb start end
    then pos ((end - start) / clocks_per_sec)
    else negate ((start - end) / clocks_per_sec)

-- One round of the loop: whether another thread tears discovery down before it, the clock at its first
-- reading, and the clock after the pulse.
pub record Round : Type 0 where
  pub exiting : Bool
  pub now : ℕ
  pub later : ℕ

module _ {P : BTree peer_tree_compare} {S : BTree session_tree_compare} where
  -- A pulse, after which `start_t` is read.
  unfoldable pub pulse_at : ℕ → Beacon → Process P S → Outcome (Beacon × Process P S)
  pulse_at later b p = do
    q ← multicast_pulse b.bgroup b.port p
    done (record b { start_t = later }, q)

  -- The body of the loop.
  unfoldable pub beat : Round → Beacon → Process P S → Outcome (Beacon × Process P S)
  unfolding pulse_at
  beat r b p = elim (b.start_t == 0) [
    | true ↦ pulse_at r.later b p
    | false ↦ elim (gtb (elapsed r.now b.start_t) b.interval) [
      | true ↦ pulse_at r.later (record b { end_t = r.now }) p
      | false ↦ done (record b { end_t = r.now }, p)
    ]
  ]

  -- The loop over the rounds that are given; it ends at the first one that finds the process exiting.
  unfoldable pub discovery_start :
      List Round → Beacon → Process P S → Outcome (Beacon × Process P S)
  unfolding beat discovery_teardown
  discovery_start [] b p = done (b, p)
  discovery_start (r ∷ rs) b p = elim (b.is_exiting || r.exiting) [
    | true ↦ done (discovery_teardown b, p)
    | false ↦ do (b', q) ← beat r b p; discovery_start rs b' q
  ]
