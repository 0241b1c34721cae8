-- ===== src/Engine/Duty.antt =====
-- `AdaptiveDutyController` of boostlock/engine.py: one feedback state for each policy.
pub mod Bounds
pub mod Isolation
use boostlock.Prelude.{
  ℕ, ◌+◌, ◌≤◌, String, Bool, true, false, ◌&&◌, Option, none, some, List, [], ◌∷◌, ltb, ◌==◌,
  length, Result, ok, err, if◌then◌else◌,
}
use boostlock.Prelude.Int.{ℤ, pos, ◌+ℤ◌, leb_ℤ}
use boostlock.Prelude.Float
use boostlock.Prelude.Float.{Float}
use boostlock.Prelude.Dict.{Dict, String_eq, get, set, get_or, contains}

pub record PolicyDutyState (F : Float) : Type 0 where
  pub current_duty_pct : F.Num
  pub sample_count : ℕ
  pub compliant_sample_count : ℕ
  pub sample_average_khz : Option F.Num
  pub thermal_clamp_factor : F.Num
  pub external_load_pct : F.Num

pub record AdaptiveDutyController (F : Float) : Type 0 where
  pub target_freq_khz : ℤ
  pub min_duty_pct : F.Num
  pub max_duty_pct : F.Num
  pub duty_step_pct : F.Num
  pub load_yield_threshold_pct : F.Num
  pub initial_duty_pct : F.Num
  pub policy_targets : Dict String ℤ
  pub legacy_policy_id : String
  pub policy_states : Dict String (PolicyDutyState F)

abbrev sum_ℤ : List ℤ → ℤ
sum_ℤ [] = pos 0
sum_ℤ (x ∷ xs) = x +ℤ sum_ℤ xs

-- sum(sample >= target for sample in samples)
unfoldable pub compliant : ℤ → List ℤ → ℕ
compliant target [] = 0
compliant target (x ∷ xs) = (if leb_ℤ target x then 1 else 0) + compliant target xs

pub data ValueError : Type 0 where
  empty_targets nonpositive_target : ValueError

abbrev pub any_nonpositive : Dict String ℤ → Bool
any_nonpositive [] = false
any_nonpositive ((_, t) ∷ rest) = if leb_ℤ t (pos 0) then true else any_nonpositive rest

module _ (F : Float) where
  open F use {Num, le, lit}

  -- _PolicyDutyState(duty)
  unfoldable pub fresh : Num → PolicyDutyState F
  fresh duty = record {
    current_duty_pct = duty;
    sample_count = 0;
    compliant_sample_count = 0;
    sample_average_khz = none;
    thermal_clamp_factor = lit 10000;
    external_load_pct = lit 0;
  }

  abbrev average : List ℤ → Num
  average samples = F.div (F.of_ℤ (sum_ℤ samples)) (F.of_ℤ (pos (length samples)))

  -- the samples' part of `_update_locked`
  unfoldable pub record_samples : ℤ → List ℤ → PolicyDutyState F → PolicyDutyState F
  unfolding compliant
  record_samples target [] state = state
  record_samples target (x ∷ xs) state =
      let samples = x ∷ xs in
      record state {
        sample_average_khz = some (average samples);
        sample_count = state.sample_count + length samples;
        compliant_sample_count = state.compliant_sample_count + compliant target samples;
      }

  -- target - average, which is 0 where there is no sample
  unfoldable pub error_khz : ℤ → List ℤ → Num
  error_khz target [] = lit 0
  error_khz target (x ∷ xs) = F.sub (F.of_ℤ target) (average (x ∷ xs))

  -- the feedback: a step up where the frequency falls short by more than 20 MHz, else a decay
  unfoldable pub next_duty : AdaptiveDutyController F → Num → Num → Num
  next_duty c error duty =
      if Float.lt F (lit 200000000) error
      then Float.min F c.max_duty_pct (F.add duty c.duty_step_pct)
      else Float.max F c.min_duty_pct (F.sub duty (F.mul c.duty_step_pct (lit 5000)))

  -- `_update_locked` on the state of one policy
  unfoldable pub update_policy :
      AdaptiveDutyController F
      → ℤ
      → List ℤ
      → Num
      → Num
      → PolicyDutyState F
      → PolicyDutyState F × Num
  unfolding next_duty
  update_policy c target samples clamp load state0 =
      let state = record (record_samples target samples state0) {
        thermal_clamp_factor = Float.max F (lit 0) (Float.min F (lit 10000) clamp);
        external_load_pct = Float.max F (lit 0) (Float.min F (lit 1000000) load);
      } in
      if le c.load_yield_threshold_pct load
      then (state, lit 0)
      else if le clamp (lit 0)
      then (state, lit 0)
      else (let duty = next_duty c (error_khz target samples) state.current_duty_pct in
          (
            record state { current_duty_pct = duty },
            Float.max F (lit 0)
                (Float.min F c.max_duty_pct (F.mul duty state.thermal_clamp_factor)),
          ))

  -- `_state_for_policy_locked`: an unknown policy gets the default target and a fresh state
  unfoldable pub state_for_policy :
      String → AdaptiveDutyController F → AdaptiveDutyController F × PolicyDutyState F
  state_for_policy policy_id c =
      let c' =
        if contains policy_id c.policy_targets
        then c
        else record c { policy_targets = set policy_id c.target_freq_khz c.policy_targets } in
      let state = get_or policy_id (fresh c.initial_duty_pct) c'.policy_states in
      (record c' { policy_states = set policy_id state c'.policy_states }, state)

  unfoldable pub update_samples :
      String → List ℤ → Num → Num → AdaptiveDutyController F → AdaptiveDutyController F × Num
  unfolding state_for_policy update_policy
  update_samples policy_id samples clamp load c0 =
      let (c, state) = state_for_policy policy_id c0 in
      let target = get_or policy_id c.target_freq_khz c.policy_targets in
      let (state', duty) = update_policy c target samples clamp load state in
      (record c { policy_states = set policy_id state' c.policy_states }, duty)

  -- fresh states, or the previous ones, for the policies of a dict of targets
  unfoldable pub carry_states :
      Num → Dict String (PolicyDutyState F) → Dict String ℤ → Dict String (PolicyDutyState F)
  carry_states initial previous [] = []
  carry_states initial previous ((k, _) ∷ targets) =
      (k, get_or k (fresh initial) previous) ∷ carry_states initial previous targets

  abbrev or_minimum : Num → Option Num → Num
  or_minimum low none = low
  or_minimum low (some duty) = duty

  abbrev pub default_targets : ℤ → Dict String ℤ → Dict String ℤ
  default_targets target [] = ("default", target) ∷ []
  default_targets target (t ∷ ts) = t ∷ ts

  abbrev first_key : Dict String ℤ → String
  first_key [] = "default"
  first_key ((k, _) ∷ rest) = k

  -- `__init__`
  unfoldable pub new_controller :
      ℤ → Num → Num → Num → Num → Option Num → Dict String ℤ → AdaptiveDutyController F
  unfolding carry_states
  new_controller target low high step threshold initial policy_targets =
      let duty = Float.max F low (Float.min F high (or_minimum low initial)) in
      let targets = default_targets target policy_targets in
      record {
        target_freq_khz = target;
        min_duty_pct = low;
        max_duty_pct = high;
        duty_step_pct = step;
        load_yield_threshold_pct = threshold;
        initial_duty_pct = duty;
        policy_targets = targets;
        legacy_policy_id = if contains "default" targets then "default" else first_key targets;
        policy_states = carry_states duty [] targets;
      }

  abbrev pub replace_targets :
      Dict String ℤ → String → ℤ → AdaptiveDutyController F → AdaptiveDutyController F
  replace_targets targets first first_target c =
      let legacy = if contains c.legacy_policy_id targets then c.legacy_policy_id else first in
      record c {
        policy_targets = targets;
        policy_states = carry_states c.initial_duty_pct c.policy_states targets;
        legacy_policy_id = legacy;
        target_freq_khz = get_or legacy first_target targets;
      }

  unfoldable pub set_policy_targets :
      Dict String ℤ → AdaptiveDutyController F → Result ValueError (AdaptiveDutyController F)
  unfolding carry_states
  set_policy_targets [] c = err empty_targets
  set_policy_targets ((k, t) ∷ rest) c =
      let targets = (k, t) ∷ rest in
      if any_nonpositive targets then err nonpositive_target else ok (replace_targets targets k t c)

  unfoldable pub reset : AdaptiveDutyController F → AdaptiveDutyController F
  unfolding carry_states
  reset c = record c { policy_states = carry_states c.initial_duty_pct [] c.policy_targets }
