-- ===== src/Engine/Duty/Bounds.antt =====
-- The duty stays between its limits, and is 0.0 under load or a full clamp.
use boostlock.Prelude.{◌≤◌, ◌≡◌, true, arith, List, [], ◌∷◌, length}
use boostlock.Prelude.Int.{ℤ}
use boostlock.Prelude.Float
use boostlock.Prelude.Float.{Float}
use boostlock.Prelude.Dict.{String_eq}
use boostlock.Engine.Duty.{
  PolicyDutyState, AdaptiveDutyController, compliant, record_samples, error_khz, next_duty,
  update_policy,
}

compliant-le : (target : ℤ) (xs : List ℤ) → compliant target xs ≤ length xs
unfolding compliant
compliant-le target [] = omega arith
compliant-le target (x ∷ xs) = ground (arith, compliant-le target xs)

module _ (F : Float) where
  open F use {Num, le, lit}

  -- The limits under which the controller runs.
  pub record HasLimits (c : AdaptiveDutyController F) : Type 0 where
    pub min_low : le (lit 0) c.min_duty_pct ≡ true
    pub duties : le c.min_duty_pct c.max_duty_pct ≡ true
    pub step_low : le (lit 0) c.duty_step_pct ≡ true

  pub record IsBounded (c : AdaptiveDutyController F) (s : PolicyDutyState F) : Type 0 where
    pub low : le c.min_duty_pct s.current_duty_pct ≡ true
    pub high : le s.current_duty_pct c.max_duty_pct ≡ true
    pub counted : s.compliant_sample_count ≤ s.sample_count

  next_duty_bounds :
      (c : AdaptiveDutyController F) (error duty : Num)
      → HasLimits c
      → le c.min_duty_pct duty ≡ true
      → le duty c.max_duty_pct ≡ true
      → (le c.min_duty_pct (next_duty F c error duty) ≡ true)
        × (le (next_duty F c error duty) c.max_duty_pct ≡ true)
  unfolding next_duty
  next_duty_bounds c error duty h low high =
      let up = F.add duty c.duty_step_pct in
      let decay = F.mul c.duty_step_pct (lit 5000) in
      let down = F.sub duty decay in
      ground (
        arith,
        Float.min_le_left F c.max_duty_pct up,
        Float.le-min F c.max_duty_pct up c.min_duty_pct h.duties,
        F.le_trans c.min_duty_pct duty up low (F.le-add duty c.duty_step_pct h.step_low),
        Float.le_max_left F c.min_duty_pct down,
        Float.max-le F c.min_duty_pct down c.max_duty_pct h.duties,
        F.le_trans down duty c.max_duty_pct,
        F.sub-le duty decay,
        F.mul_nonneg c.duty_step_pct (lit 5000) h.step_low (F.lit_mono 0 5000 (omega arith)),
      )

  record_samples_lem :
      (target : ℤ) (xs : List ℤ) (s : PolicyDutyState F)
      → s.compliant_sample_count ≤ s.sample_count
      → ((record_samples F target xs s).compliant_sample_count
          ≤ (record_samples F target xs s).sample_count)
        × ((record_samples F target xs s).current_duty_pct ≡ s.current_duty_pct)
  unfolding record_samples
  record_samples_lem target [] s h = ground arith
  record_samples_lem target (x ∷ xs) s h = ground (arith, compliant-le target (x ∷ xs))

  -- For any samples, clamp and load, the state of a policy keeps its duty between the limits and
  -- counts no more compliant samples than samples.
  pub update_policy-IsBounded :
      (c : AdaptiveDutyController F) (target : ℤ) (xs : List ℤ) (clamp load : Num)
      (s : PolicyDutyState F)
      → HasLimits c
      → IsBounded c s
      → IsBounded c (update_policy F c target xs clamp load s).0
  unfolding update_policy
  update_policy-IsBounded c target xs clamp load s h b = ground (
    arith,
    record_samples_lem target xs s b.counted,
    next_duty_bounds c (error_khz F target xs) s.current_duty_pct h b.low b.high,
  )

  -- The duty returned lies between 0.0 and the greatest duty, whatever the state before.
  pub update_policy_duty :
      (c : AdaptiveDutyController F) (target : ℤ) (xs : List ℤ) (clamp load : Num)
      (s : PolicyDutyState F)
      → HasLimits c
      → (le (lit 0) (update_policy F c target xs clamp load s).1 ≡ true)
        × (le (update_policy F c target xs clamp load s).1 c.max_duty_pct ≡ true)
  unfolding update_policy
  update_policy_duty c target xs clamp load s h =
      let zero_max = F.le_trans (lit 0) c.min_duty_pct c.max_duty_pct h.min_low h.duties in
      let factor = Float.max F (lit 0) (Float.min F (lit 10000) clamp) in
      let duty =
        next_duty F c (error_khz F target xs) (record_samples F target xs s).current_duty_pct in
      ground (
        arith,
        zero_max,
        F.le_refl (lit 0),
        Float.clamp_bounds F (lit 0) c.max_duty_pct (F.mul duty factor) zero_max,
      )
