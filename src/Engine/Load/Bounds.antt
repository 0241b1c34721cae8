-- ===== src/Engine/Load/Bounds.antt =====
-- The range of the load.
use boostlock.Prelude.{ℕ, ◌≡◌, true, arith, Option, none, some, List, sum}
use boostlock.Prelude.Float
use boostlock.Prelude.Float.{Float}
use boostlock.Prelude.Int.{ℤ}
use boostlock.Engine.Load.{
  ExternalLoadMonitor, idle_ticks, busy_pct, since, sampled, get_external_load_pct,
}

module _ (F : Float) where
  open F use {Num, le, lit}

  abbrev pub InRange : Num → Type 0
  InRange x = (le (lit 0) x ≡ true) × (le x (lit 1000000) ≡ true)

  zero-InRange : InRange (lit 0)
  zero-InRange = (F.le_refl (lit 0), F.lit_mono 0 1000000 (omega arith))

  busy_pct-InRange : (idle total : ℤ) → InRange (busy_pct F idle total)
  unfolding busy_pct
  busy_pct-InRange idle total =
      let idle_share = F.div (F.of_ℤ idle) (F.of_ℤ total) in
      let busy = F.mul (lit 1000000) (F.sub (lit 10000) idle_share) in
      ground (arith, zero-InRange, Float.clamp_bounds F (lit 0) (lit 1000000) busy zero-InRange.1)

  since-InRange : (a b : Option ℕ) (idle total : ℕ) → InRange (since F a b idle total)
  since-InRange (some a) (some b) idle total = busy_pct-InRange _ _
  since-InRange none b idle total = zero-InRange
  since-InRange (some a) none idle total = zero-InRange

  sampled-InRange :
      (m : ExternalLoadMonitor) (total : ℕ) (idle : Option ℕ) → InRange (sampled F m total idle).1
  sampled-InRange m total none = zero-InRange
  sampled-InRange m total (some idle) = since-InRange m.prev_idle m.prev_total idle total

  -- Whatever /proc/stat shows, counters that go backwards included, the load is between 0.0 and
  -- 100.0.
  pub get_external_load_pct-InRange :
      (stat : Option (List ℕ)) (m : ExternalLoadMonitor)
      → InRange (get_external_load_pct F stat m).1
  unfolding get_external_load_pct
  get_external_load_pct-InRange none m = zero-InRange
  get_external_load_pct-InRange (some fields) m = sampled-InRange m (sum fields) (idle_ticks fields)
