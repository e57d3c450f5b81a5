-- ===== src/Discovery/Beacon/Rate/Pace.antt =====
-- The pulse of src/net/discovery.c is not sent too often.
use whisp.Prelude.{
  ℕ, suc, ◌+◌, ◌*◌, ◌≡◌, ◌<◌, ◌≤◌, refl, ap, ◌∙◌, ◌||◌, List, [], ◌∷◌, ltb, arith, Bool-cases, inl,
  inr,
}
use whisp.CString.{pos}
use whisp.Outcome.{done}
use whisp.Btree.{BTree}
use whisp.Process.{Process, Packet, peer_tree_compare, session_tree_compare}
use whisp.Discovery.Beacon.{Beacon, Round, clocks_per_sec, discovery_start, discovery_teardown}
use whisp.Discovery.Beacon.Rate.{
  Advances, Advances-weaken, repeated, repeated_later, Announces, beat-quiet, beat-due,
  discovery_start-next, discovery_start-stop,
}

module _ {P : BTree peer_tree_compare} {S : BTree session_tree_compare} where
  -- What a run of the loop comes to: how many pulses it sends, when the last one was, and that there
  -- is an interval between any two of them.
  pub record Paced (n : ℕ) (m : Packet) (rs : List Round) (b : Beacon) (p : Process P S)
      : Type 0 where
    pub pulses : ℕ
    pub after : Beacon
    pub ran : discovery_start rs b p ≡ done (after, record p { sent = repeated pulses m p.sent })
    pub apart : b.start_t + pulses * ((n + 1) * clocks_per_sec) ≤ after.start_t

  -- The loop, from a pulse on, with a clock that does not go back: it sends nothing but the
  -- announcement, and no two announcements closer than the interval, so that their number is
  -- bounded by the time that passes.
  pub discovery_start-Paced :
      (n : ℕ) (m : Packet) (rs : List Round) (b : Beacon) (p : Process P S)
      → Announces m b p
      → b.interval ≡ pos n
      → 0 < b.start_t
      → Advances b.start_t rs
      → Paced n m rs b p
  unfolding discovery_start
  discovery_start-Paced n m [] b p h i pos_t adv = record {
    pulses = 0;
    after = b;
    ran = unfold repeated in refl;
    apart = omega arith;
  }
  discovery_start-Paced n m (r ∷ rs) b p h i pos_t adv =
      elim (Bool-cases (b.is_exiting || r.exiting)) [
        | inl e ↦ record {
          pulses = 0;
          after = discovery_teardown b;
          ran = discovery_start-stop r rs b p e ∙ (unfold repeated in refl);
          apart = unfold discovery_teardown in omega arith;
        }
        | inr e ↦ elim (Bool-cases (ltb r.now (b.start_t + (n + 1) * clocks_per_sec))) [
          | inl l ↦
              let more =
                discovery_start-Paced n m rs (record b { end_t = r.now }) p
                  (record { len = h.len; serialized = h.serialized; host = h.host; port = h.port })
                  i pos_t
                  (Advances-weaken b.start_t r.later rs (omega (arith, adv.0, adv.1)) adv.2) in
              record {
                pulses = more.pulses;
                after = more.after;
                ran =
                    discovery_start-next r rs b _ p p e
                      (beat-quiet n r b p i pos_t adv.0 (ground arith))
                    ∙ more.ran;
                apart = more.apart;
              }
          | inr g ↦
              let q : Process P S = record p { sent = m ∷ p.sent } in
              let late : b.start_t + (n + 1) * clocks_per_sec ≤ r.now = ground arith in
              let more =
                discovery_start-Paced n m rs (record b { start_t = r.later; end_t = r.now }) q
                  (record { len = h.len; serialized = h.serialized; host = h.host; port = h.port })
                  i (omega (arith, adv.1)) adv.2 in
              record {
                pulses = suc more.pulses;
                after = more.after;
                ran =
                    discovery_start-next r rs b _ p q e (beat-due n r m b p h i pos_t late)
                    ∙ more.ran
                    ∙ ap (λ (x : List Packet). done (more.after, record p { sent = x }))
                        (repeated_later more.pulses m p.sent);
                apart = omega (arith, more.apart, late, adv.1);
              }
        ]
      ]
