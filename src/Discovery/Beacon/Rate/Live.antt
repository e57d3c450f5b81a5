-- ===== src/Discovery/Beacon/Rate/Live.antt =====
-- The pulse of src/net/discovery.c goes on.
use whisp.Prelude.{ℕ, ◌+◌, ◌*◌, ◌≡◌, ◌<◌, false, List}
use whisp.Outcome.{done}
use whisp.Btree.{BTree}
use whisp.Process.{Process, peer_tree_compare, session_tree_compare}
use whisp.Discovery.Beacon.{Beacon, Round, clocks_per_sec, discovery_start}
use whisp.Discovery.Beacon.Rate.{last_now}

module _ {P : BTree peer_tree_compare} {S : BTree session_tree_compare} where
  -- What is promised while nobody tears discovery down: the loop is still at it, and the last reading
  -- of the clock is less than the interval and one second after the last pulse.
  pub record Beating (n t : ℕ) (rs : List Round) (b : Beacon) (p : Process P S) : Type 0 where
    pub after : Beacon
    pub at_end : Process P S
    pub ran : discovery_start rs b p ≡ done (after, at_end)
    pub goes_on : after.is_exiting ≡ false
    pub recent : last_now t rs < after.start_t + (n + 1) * clocks_per_sec
