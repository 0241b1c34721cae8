-- ===== src/Examples/Plans.antt =====
-- Runs of `build_policy_apply_plan` of boostlock/sysfs.py on one policy.
use boostlock.Prelude.{◌≡◌, refl, true, [], ◌∷◌, Option, none, some, String, ok, Result, All}
use boostlock.Prelude.Int.{pos}
use boostlock.Prelude.Dict.{String_eq}
use boostlock.Prelude.Decimal.{str_ℤ}
use boostlock.Sysfs.Policy.{
  unavailable, governor, active_min_frequency, Control, CpufreqPolicy, PolicyApplyAction,
  PolicyApplyPlan, PlanError,
}
use boostlock.Sysfs.Target.{
  effective_policy_target, lower_bounds, upper_bounds, interval, maximum, minimum,
}
use boostlock.Sysfs.Target.Clamp.{IsWithin, effective_policy_target-IsWithin}
use boostlock.Sysfs.Plan.{
  PlanRequest, elem, optional_requests, planned_policy_action, plan_action, plan_governor, plan_at,
  plan_control, plan_controls, plan_policy, plan_policies, unique_from, unique_paths,
  build_policy_apply_plan,
}
use boostlock.Config.{khz}
use boostlock.Engine.Target.{requested_khz}
use boostlock.Sysfs.Plan.Actions.{IsPlanned}
use boostlock.Sysfs.Plan.Origin.{build_policy_apply_plan-IsPlanned}

abbrev policy : CpufreqPolicy
policy = record {
  identifier = "policy0";
  path = "/sys/devices/system/cpu/cpufreq/policy0";
  cpus = pos 0 ∷ [];
  driver = none;
  governor = some "powersave";
  available_governors = "performance" ∷ "powersave" ∷ [];
  current_freq_khz = none;
  active_min_khz = some (pos 4);
  active_max_khz = some (pos 30);
  hardware_min_khz = some (pos 5);
  hardware_max_khz = none;
  controls = λ control. none;
  capabilities = λ control. unavailable;
  writable_paths = λ control. some "node";
  skipped_controls = [];
  usable = true;
}

clamped : effective_policy_target policy (some (pos 40)) ≡ some (pos 30)
unfolding effective_policy_target lower_bounds upper_bounds interval maximum minimum
clamped = refl

effective_policy_target-IsWithin_example : IsWithin policy (pos 30)
effective_policy_target-IsWithin_example =
    effective_policy_target-IsWithin policy (some (pos 40)) clamped

abbrev request : PlanRequest
request = record {
  target_khz = some (pos 40);
  governor = some "performance";
  boost = none;
  cpb = none;
  energy_performance_preference = none;
}

abbrev resolve : String → String
resolve path = path

abbrev read : String → Result PlanError (Option String)
read path = ok (some "old")

abbrev planned_at : Control → String → PolicyApplyAction
planned_at control value = record {
  policy_id = "policy0";
  control = control;
  path = "node";
  value = value;
  original_value = "old";
}

abbrev plan : PolicyApplyPlan
plan = record {
  actions = planned_at governor "performance" ∷ planned_at active_min_frequency "30" ∷ [];
  skipped_controls = [];
  preflight_paths = "node" ∷ "cpu_dma_latency" ∷ [];
}

built :
    build_policy_apply_plan resolve read request (some "cpu_dma_latency") [] (policy ∷ []) ≡ ok plan
unfolding build_policy_apply_plan plan_policies plan_policy plan_governor plan_action
    planned_policy_action plan_controls plan_control plan_at optional_requests
    effective_policy_target lower_bounds upper_bounds interval maximum minimum unique_paths
    unique_from elem str_ℤ
built = refl

build_policy_apply_plan-IsPlanned_example :
    All (IsPlanned resolve read request (policy ∷ [])) plan.actions
build_policy_apply_plan-IsPlanned_example =
    build_policy_apply_plan-IsPlanned resolve read request (some "cpu_dma_latency") [] (policy ∷ [])
      plan built

clamped_request : effective_policy_target policy (requested_khz (khz (pos 40))) ≡ some (pos 30)
unfolding requested_khz effective_policy_target lower_bounds upper_bounds interval maximum minimum
clamped_request = refl

lowers : lower_bounds policy ≡ pos 5 ∷ pos 4 ∷ []
unfolding lower_bounds
lowers = refl

uppers : upper_bounds policy ≡ pos 30 ∷ []
unfolding upper_bounds
uppers = refl
