-- ===== src/Engine/Waveform.antt =====
-- `WaveformGenerator` of boostlock/engine.py. The sine, the remainder of floats and the random
-- jitter are the standard library's, and stand as parameters.
use boostlock.Prelude.{◌≡◌, true, if◌then◌else◌}
use boostlock.Prelude.Float
use boostlock.Prelude.Float.{Float}

pub data WaveformType : Type 0 where
  square triangular jittered stochastic sine : WaveformType

pub record WaveformGenerator (F : Float) : Type 0 where
  pub waveform_type : WaveformType
  pub min_duty_pct : F.Num
  pub max_duty_pct : F.Num
  pub period_s : F.Num
  pub jitter_pct : F.Num

-- What the standard library computes at one call.
pub record Signals (F : Float) : Type 0 where
  -- math.sin(2 * pi * t)
  pub sine_turn : F.Num → F.Num
  -- a % b
  pub rem : F.Num → F.Num → F.Num
  -- random.uniform(-j, j)
  pub uniform : F.Num → F.Num

module _ (F : Float) where
  open F use {Num, le, lit, add, sub, mul, div}

  abbrev raw_duty : Signals F → WaveformGenerator F → Num → Num → Num
  raw_duty s w base t = elim w.waveform_type [
    | square ↦ base
    | triangular ↦
        let phase = div (s.rem t w.period_s) w.period_s in
        let ramp =
          if Float.lt F phase (lit 5000)
          then mul phase (lit 20000)
          else mul (sub (lit 10000) phase) (lit 20000) in
        add base (mul (Float.max F (lit 0) (sub w.max_duty_pct base)) ramp)
    | jittered ↦ add base (s.uniform w.jitter_pct)
    | stochastic ↦ add base (s.uniform w.jitter_pct)
    | sine ↦
        let span = div (sub w.max_duty_pct w.min_duty_pct) (lit 20000) in
        let mid = div (add w.max_duty_pct w.min_duty_pct) (lit 20000) in
        add mid (mul span (s.sine_turn (div t w.period_s)))
  ]

  unfoldable pub compute_duty : Signals F → WaveformGenerator F → Num → Num → Num
  compute_duty s w base t =
      Float.max F w.min_duty_pct (Float.min F w.max_duty_pct (raw_duty s w base t))

  -- For every waveform, time, base duty and random jitter, the duty lies between the generator's
  -- least and greatest duty, where these are in order.
  pub compute_duty_bounds :
      (s : Signals F) (w : WaveformGenerator F) (base t : Num)
      → le w.min_duty_pct w.max_duty_pct ≡ true
      → (le w.min_duty_pct (compute_duty s w base t) ≡ true)
        × (le (compute_duty s w base t) w.max_duty_pct ≡ true)
  unfolding compute_duty
  compute_duty_bounds s w base t h = Float.clamp_bounds F w.min_duty_pct w.max_duty_pct _ h
