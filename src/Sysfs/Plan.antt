-- ===== src/Sysfs/Plan.antt =====
-- `build_policy_apply_plan` of boostlock/sysfs.py, from the policies that discovery returned.
pub mod Actions
pub mod Origin
pub mod Paths
use boostlock.Prelude.{
  String, Bool, true, false, not, ◌||◌, Option, none, some, List, [], ◌∷◌, ◌++◌, map, Result, ok,
  err, raise_if, ◌>>=◌, ◌>>◌, str_eq, if◌then◌else◌,
}
use boostlock.Prelude.Int.{ℤ}
use boostlock.Prelude.Dict.{Dict, String_eq, set}
use boostlock.Prelude.Decimal.{str_ℤ}
use boostlock.Sysfs.Policy.{
  CapabilityState, available, unavailable, unusable, Control, governor, active_min_frequency, boost,
  cpb, energy_performance_preference, energy_perf_bias, control_name, CpufreqPolicy,
  PolicyApplyAction, PolicyApplyPlan, PlanError, no_usable_policy, no_writable, cannot_snapshot,
  key_error,
}
use boostlock.Sysfs.Target.{effective_policy_target}

-- `x in xs`
unfoldable pub elem : String → List String → Bool
elem x [] = false
elem x (y ∷ ys) = if str_eq x y then true else elem x ys

abbrev pub is_available : CapabilityState → Bool
is_available available = true
is_available _ = false

-- What the daemon asks for: the arguments of `build_policy_apply_plan`.
pub record PlanRequest : Type 0 where
  pub target_khz : Option ℤ
  pub governor : Option String
  pub boost : Option Bool
  pub cpb : Option Bool
  pub energy_performance_preference : Option String

abbrev switch : Option Bool → Option String
switch none = none
switch (some true) = some "1"
switch (some false) = some "0"

unfoldable pub optional_requests : PlanRequest → List (Control × Option String)
optional_requests r =
    (boost, switch r.boost)
    ∷ (cpb, switch r.cpb)
    ∷ (energy_performance_preference, r.energy_performance_preference)
    ∷ (energy_perf_bias, none)
    ∷ []

abbrev pub device_path : Option String → List String
device_path none = []
device_path (some p) = p ∷ []

-- `not any(policy.usable for policy in policies)`
abbrev pub none_usable : List CpufreqPolicy → Bool
none_usable [] = true
none_usable (p ∷ rest) = if p.usable then false else none_usable rest

-- the plan so far, with the skips of the policy at hand
pub record Draft : Type 0 where
  pub actions : List PolicyApplyAction
  pub skips : Dict String String
  pub boost_paths : List String

abbrev pub skip : String → String → Draft → Draft
skip name why d = record d { skips = set name why d.skips }

-- `resolve` is `Path.resolve`, and `read` is `_read_path` on the files as they are.
module _ (resolve : String → String) (read : String → Result PlanError (Option String)) where
  abbrev snapshot_action :
      CpufreqPolicy → Control → String → String → Option String → Result PlanError PolicyApplyAction
  snapshot_action p control path value none = err (cannot_snapshot path)
  snapshot_action p control path value (some original) = ok (record {
    policy_id = p.identifier;
    control = control;
    path = path;
    value = value;
    original_value = original;
  })

  abbrev action_at :
      CpufreqPolicy → Control → String → Option String → Result PlanError PolicyApplyAction
  action_at p control value none = err (no_writable p.identifier control)
  action_at p control value (some path) =
      read path >>= λ original. snapshot_action p control path value original

  unfoldable pub planned_policy_action :
      CpufreqPolicy → Control → String → Result PlanError PolicyApplyAction
  planned_policy_action p control value = action_at p control value (p.writable_paths control)

  abbrev append : PolicyApplyAction → Draft → Draft
  append a d = record d { actions = d.actions ++ a ∷ [] }

  -- append an action and go on
  unfoldable pub plan_action : CpufreqPolicy → Control → String → Draft → Result PlanError Draft
  plan_action p control value d = planned_policy_action p control value >>= λ a. ok (append a d)

  -- the governor, where one is asked for
  unfoldable pub plan_governor : CpufreqPolicy → Option String → Draft → Result PlanError Draft
  plan_governor p none d = ok d
  plan_governor p (some g) d =
      if elem g p.available_governors
      then plan_action p governor g d
      else ok (skip "governor" "governor unavailable" d)

  abbrev plan_target : CpufreqPolicy → Option String → Option ℤ → Draft → Result PlanError Draft
  plan_target p wanted none d = ok (skip "active_min_frequency" "frequency limits unavailable" d)
  plan_target p wanted (some target) d =
      plan_governor p wanted d >>= λ d'. plan_action p active_min_frequency (str_ℤ target) d'

  abbrev is_boost : Control → Bool
  is_boost boost = true
  is_boost _ = false

  abbrev remember_boost : Control → String → Draft → Draft
  remember_boost boost path d = record d { boost_paths = path ∷ d.boost_paths }
  remember_boost _ path d = d

  -- a boost path that another policy has planned is shared, and is skipped
  unfoldable pub plan_at :
      CpufreqPolicy → Control → String → String → Draft → Result PlanError Draft
  plan_at p control value path d =
      if is_boost control
      then (if elem path d.boost_paths
          then ok (skip (control_name control) "shared control already planned" d)
          else plan_action p control value d >>= λ d'. ok (remember_boost control path d'))
      else plan_action p control value d

  abbrev plan_value :
      CpufreqPolicy → Control → Option String → Option String → Draft → Result PlanError Draft
  plan_value p control none path d = ok (skip (control_name control) "no configured value" d)
  plan_value p control (some value) none d = err (key_error control)
  plan_value p control (some value) (some path) d = plan_at p control value (resolve path) d

  unfoldable pub plan_control :
      CpufreqPolicy → Control → Option String → Draft → Result PlanError Draft
  plan_control p control value d =
      if is_available (p.capabilities control)
      then plan_value p control value (p.writable_paths control) d
      else ok d

  unfoldable pub plan_controls :
      CpufreqPolicy → List (Control × Option String) → Draft → Result PlanError Draft
  plan_controls p [] d = ok d
  plan_controls p ((control, value) ∷ rest) d =
      plan_control p control value d >>= λ d'. plan_controls p rest d'

  -- an unusable policy: every control that it has is skipped
  unfoldable pub skip_all : CpufreqPolicy → List (Control × Option String) → Draft → Draft
  skip_all p [] d = d
  skip_all p ((control, _) ∷ rest) d = skip_all p rest (
      if is_available (p.capabilities control)
      then skip (control_name control) "policy unusable" d
      else d)

  unfoldable pub plan_policy : PlanRequest → CpufreqPolicy → Draft → Result PlanError Draft
  plan_policy r p d0 =
      let d = record d0 { skips = p.skipped_controls } in
      if p.usable
      then (plan_target p r.governor (effective_policy_target p r.target_khz) d >>= λ d'.
          plan_controls p (optional_requests r) d')
      else ok (skip_all p (optional_requests r) (skip "policy" "policy unusable" d))

  abbrev note_skips :
      String
      → Dict String String
      → Dict String (Dict String String)
      → Dict String (Dict String String)
  note_skips id [] all = all
  note_skips id (s ∷ skips) all = set id (s ∷ skips) all

  -- the loop over the policies
  unfoldable pub plan_policies :
      PlanRequest
      → List CpufreqPolicy
      → Draft
      → Dict String (Dict String String)
      → Result PlanError (Draft × Dict String (Dict String String))
  plan_policies r [] d all = ok (d, all)
  plan_policies r (p ∷ rest) d all =
      plan_policy r p d >>= λ d'. plan_policies r rest d' (note_skips p.identifier d'.skips all)

  -- `_unique_paths`, with the paths seen so far
  unfoldable pub unique_from : List String → List String → List String
  unique_from seen [] = []
  unique_from seen (p ∷ ps) =
      let again = unique_from seen ps in
      let new = resolve p ∷ unique_from (resolve p ∷ seen) ps in
      if elem (resolve p) seen then again else new

  unfoldable pub unique_paths : List String → List String
  unfolding unique_from
  unique_paths = unique_from []

  unfoldable pub build_policy_apply_plan :
      PlanRequest
      → Option String
      → List String
      → List CpufreqPolicy
      → Result PlanError PolicyApplyPlan
  build_policy_apply_plan r pm_qos_device cpuidle_paths policies = do
    raise_if (none_usable policies) no_usable_policy
    (d, skipped) ←
        plan_policies r policies (record { actions = []; skips = []; boost_paths = [] }) []
    ok (record {
      actions = d.actions;
      skipped_controls = skipped;
      preflight_paths =
          unique_paths
            (map (λ a. a.path) d.actions ++ (device_path pm_qos_device ++ cpuidle_paths));
    })
