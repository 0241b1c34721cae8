-- ===== src/Thermal/Rapl/Wrap.antt =====
-- The energy counter wraps at its range: what is charged is the difference modulo the range.
use boostlock.Prelude.{ℕ, ◌+◌, ◌-◌, ◌%◌, ◌<◌, ◌≤◌, ◌≡◌, some, arith}
use native.Mathlib.Decide.{dec_le}
use boostlock.Prelude.Int.{pos, ◌+ℤ◌, sub-pos, sub-negsuc}
use boostlock.Thermal.Rapl.{energy_delta}

no_wrap :
    (current prev range : ℕ)
    → prev ≤ current
    → current < range
    → (current + range - prev) % range ≡ current - prev
no_wrap current prev range h k = grind arith

wrapped :
    (current prev range : ℕ)
    → current < prev
    → prev < range
    → (current + range - prev) % range ≡ current + range - prev
wrapped current prev range h k = grind arith

-- For two readings of a counter that stays below its range, the energy charged is the later minus
-- the earlier modulo the range, whether or not the counter wrapped once in between.
pub energy_delta-mod :
    (current prev range : ℕ)
    → current < range
    → prev < range
    → energy_delta (pos current) (pos prev) (some (pos range))
      ≡ pos ((current + range - prev) % range)
unfolding energy_delta ◌+ℤ◌
energy_delta-mod current prev range h k = elim (dec_le prev current) [
  | yes p ↦ rw (sub-pos current prev p, no_wrap current prev range p h) (ground arith)
  | no p ↦
      rw (sub-negsuc current prev (omega arith), wrapped current prev range (omega arith) k)
        (ground arith)
]
