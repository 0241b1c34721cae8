-- ===== src/Config/Validity.antt =====
-- What `validate` accepts, and what the duty alias leaves.
use boostlock.Prelude.{◌≡◌, true, false, arith, ok, ◌↔◌, if◌then◌else◌}
use boostlock.Prelude.Int.{pos, ◌≤ℤ◌}
use boostlock.Prelude.Float.{Float}
use boostlock.Config.{
  Target, auto, other, khz, BoostLockConfig, accepts_target, validate, set_pulse_duty_cycle,
}

abbrev pub IsTarget : Target → Type 0
IsTarget auto = Unit
IsTarget other = ⊥
IsTarget (khz n) = (pos 1 ≤ℤ n) × (n ≤ℤ pos 10000000)

module _ (F : Float) where
  open F use {Num, le, lit}

  abbrev ◌≼◌ : Num → Num → Type 0
  ◌≼◌ a b = le a b ≡ true

  abbrev ◌≺◌ : Num → Num → Type 0
  ◌≺◌ a b = le b a ≡ false

  infix 50 ◌≼◌ ◌≺◌
  -- The settings under which the other components run.
  pub record IsValid (c : BoostLockConfig F) : Type 0 where
    pub target : IsTarget c.target_frequency_khz
    pub limit_low : lit 500000 ≼ c.thermal_limit_c
    pub limit_high : c.thermal_limit_c ≼ lit 1150000
    pub warn_low : lit 300000 ≼ c.thermal_warn_c
    pub warn_below_limit : c.thermal_warn_c ≺ c.thermal_limit_c
    pub recover_low : lit 200000 ≼ c.thermal_recover_c
    pub recover_below_warn : c.thermal_recover_c ≺ c.thermal_warn_c
    pub min_low : lit 0 ≼ c.min_pulse_duty_pct
    pub min_high : c.min_pulse_duty_pct ≼ lit 1000000
    pub max_low : lit 0 ≼ c.max_pulse_duty_pct
    pub max_high : c.max_pulse_duty_pct ≼ lit 1000000
    pub duties : c.min_pulse_duty_pct ≼ c.max_pulse_duty_pct
    pub step_low : lit 1000 ≼ c.duty_step_pct
    pub step_high : c.duty_step_pct ≼ lit 500000
    pub poll : pos 10 ≤ℤ c.poll_interval_ms
    pub latency : pos 0 ≤ℤ c.dma_latency_us

  accepts_target_sound : (t : Target) → accepts_target t ≡ true → IsTarget t
  unfolding accepts_target
  accepts_target_sound auto h = tt
  accepts_target_sound other h = cc
  accepts_target_sound (khz n) h = ground arith

  accepts_target_complete : (t : Target) → IsTarget t → accepts_target t ≡ true
  unfolding accepts_target
  accepts_target_complete auto h = ground arith
  accepts_target_complete other h = absurd h
  accepts_target_complete (khz n) h = ground arith

  validate_sound : (c : BoostLockConfig F) → validate F c ≡ ok tt → IsValid c
  unfolding validate
  validate_sound c h = ground (arith, accepts_target_sound c.target_frequency_khz)

  validate_complete : (c : BoostLockConfig F) → IsValid c → validate F c ≡ ok tt
  unfolding validate
  validate_complete c v = ground (arith, accepts_target_complete c.target_frequency_khz)

  -- `validate` returns without raising exactly on the configurations in which every setting is in
  -- its range, recover < warn < limit, and the least duty is at most the greatest.
  pub validate-iff-IsValid : (c : BoostLockConfig F) → (validate F c ≡ ok tt) ↔ IsValid c
  validate-iff-IsValid c = (validate_sound c, validate_complete c)

  -- Setting the duty alias of a valid configuration, as a fraction up to 1.0 or as a percentage up
  -- to 100, leaves a valid configuration: the greatest duty is raised with the least where needed.
  pub set_pulse_duty_cycle-IsValid :
      (c : BoostLockConfig F) (v : Num)
      → IsValid c
      → lit 0 ≼ v
      → v ≼ lit 1000000
      → IsValid (set_pulse_duty_cycle F v c)
  unfolding set_pulse_duty_cycle
  set_pulse_duty_cycle-IsValid c v h low high = ground (
    arith,
    F.mul_nonneg v (lit 1000000),
    F.mul_comm v (lit 1000000),
    F.mul-le (lit 1000000) v,
    F.lit_mono 0 1000000 (omega arith),
    F.le_refl (if le v (lit 10000) then F.mul v (lit 1000000) else v),
  )
