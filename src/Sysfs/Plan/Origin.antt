-- ===== src/Sysfs/Plan/Origin.antt =====
-- Where each planned action comes from.
use mathlib.Core.List.{Memᴰ}
use boostlock.Prelude.{
  String, true, ◌≡◌, refl, Option, none, some, List, [], ◌∷◌, All, Result, ok, arith, if◌then◌else◌,
  ◌∙◌, Bool-cases, Result-cases, inl, inr,
}
use boostlock.Prelude.Dict.{Dict, String_eq, set}
use boostlock.Sysfs.Policy.{Control, control_name, CpufreqPolicy, PolicyApplyPlan, PlanError}
use boostlock.Sysfs.Target.{effective_policy_target}
use boostlock.Sysfs.Plan.{
  PlanRequest, Draft, is_available, plan_value, skip, skip_all, plan_target, plan_control,
  plan_controls, plan_policy, plan_policies, optional_requests, build_policy_apply_plan,
}
use boostlock.Sysfs.Plan.Actions.{Asked, IsPlanned, carry, plan_target-IsPlanned, plan_at-IsPlanned}

module _ (resolve : String → String) (read : String → Result PlanError (Option String))
    (r : PlanRequest) (policies : List CpufreqPolicy) where
  module _ (p : CpufreqPolicy) (found : Memᴰ p policies) (usable : p.usable ≡ true) where
    plan_value-IsPlanned :
        (control : Control) (wanted path : Option String) (d d' : Draft)
        → ((v : String) → wanted ≡ some v → Asked r p control v)
        → plan_value resolve read p control wanted path d ≡ ok d'
        → All (IsPlanned resolve read r policies) d.actions
        → All (IsPlanned resolve read r policies) d'.actions
    plan_value-IsPlanned control none path d d' asked h all =
        carry resolve read r policies p found usable d d' (ground arith) all
    plan_value-IsPlanned control (some v) none d d' asked h all = cc
    plan_value-IsPlanned control (some v) (some path) d d' asked h all =
        plan_at-IsPlanned resolve read r policies p found usable control v (resolve path) d d'
          (asked v refl) h all

    plan_control-IsPlanned :
        (control : Control) (wanted : Option String) (d d' : Draft)
        → ((v : String) → wanted ≡ some v → Asked r p control v)
        → plan_control resolve read p control wanted d ≡ ok d'
        → All (IsPlanned resolve read r policies) d.actions
        → All (IsPlanned resolve read r policies) d'.actions
    unfolding plan_control
    plan_control-IsPlanned control wanted d d' asked h all =
        elim (Bool-cases (is_available (p.capabilities control))) [
          | inl has ↦
              plan_value-IsPlanned control wanted (p.writable_paths control) d d' asked
                (rw has at h) all
          | inr lacks ↦ carry resolve read r policies p found usable d d' (ground arith) all
        ]

    -- every value of the requests is one that is asked for
    abbrev AllAsked : List (Control × Option String) → Type 0
    AllAsked [] = Unit
    AllAsked ((control, wanted) ∷ rest) =
        ((v : String) → wanted ≡ some v → Asked r p control v) × AllAsked rest

    plan_controls-IsPlanned :
        (requests : List (Control × Option String)) (d d' : Draft)
        → AllAsked requests
        → plan_controls resolve read p requests d ≡ ok d'
        → All (IsPlanned resolve read r policies) d.actions
        → All (IsPlanned resolve read r policies) d'.actions
    unfolding plan_controls
    plan_controls-IsPlanned [] d d' asked h all =
        carry resolve read r policies p found usable d d' (ground arith) all
    plan_controls-IsPlanned ((control, wanted) ∷ rest) d d' asked h all =
        elim (Result-cases (plan_control resolve read p control wanted d)) [
          | inl (d1, e) ↦
              plan_controls-IsPlanned rest d1 d' asked.1 (rw e at h)
                (plan_control-IsPlanned control wanted d d1 asked.0 e all)
          | inr (x, e) ↦ absurd (ground (arith, e))
        ]

    optional-AllAsked : AllAsked (optional_requests r)
    unfolding optional_requests
    optional-AllAsked = ((λ v e. e), ((λ v e. e), ((λ v e. e), ((λ v e. cc), tt))))

  skip_all_actions :
      (p : CpufreqPolicy) (requests : List (Control × Option String)) (d : Draft)
      → (skip_all resolve read p requests d).actions ≡ d.actions
  unfolding skip_all
  skip_all_actions p [] d = refl
  skip_all_actions p ((control, _) ∷ rest) d =
      let skipped = skip (control_name control) "policy unusable" d in
      let d1 = if is_available (p.capabilities control) then skipped else d in
      let same : d1.actions ≡ d.actions = ground arith in skip_all_actions p rest d1 ∙ same

  plan_policy-IsPlanned :
      (p : CpufreqPolicy) (d d' : Draft)
      → Memᴰ p policies
      → plan_policy resolve read r p d ≡ ok d'
      → All (IsPlanned resolve read r policies) d.actions
      → All (IsPlanned resolve read r policies) d'.actions
  unfolding plan_policy
  plan_policy-IsPlanned p d d' found h all =
      let d0 = record d { skips = p.skipped_controls } in
      let target = effective_policy_target p r.target_khz in
      elim (Bool-cases p.usable) [
        | inl usable ↦ elim (Result-cases (plan_target resolve read p r.governor target d0)) [
          | inl (d1, e) ↦
              plan_controls-IsPlanned p found usable (optional_requests r) d1 d'
                (optional-AllAsked p found usable) (rw e at (simp usable at h))
                (plan_target-IsPlanned resolve read r policies p found usable target d0 d1 refl e
                  all)
          | inr (x, e) ↦ absurd (ground (arith, e))
        ]
        | inr unusable ↦
            let skipped = record d0 { skips = set "policy" "policy unusable" d0.skips } in
            let same : d'.actions ≡ d.actions =
              ground (arith, skip_all_actions p (optional_requests r) skipped) in
            rw same all
      ]

  plan_policies-IsPlanned :
      (rest : List CpufreqPolicy) (d d' : Draft) (skips skips' : Dict String (Dict String String))
      → ((p : CpufreqPolicy) → Memᴰ p rest → Memᴰ p policies)
      → plan_policies resolve read r rest d skips ≡ ok (d', skips')
      → All (IsPlanned resolve read r policies) d.actions
      → All (IsPlanned resolve read r policies) d'.actions
  unfolding plan_policies
  plan_policies-IsPlanned [] d d' skips skips' within h all =
      let same : d'.actions ≡ d.actions = ground arith in rw same all
  plan_policies-IsPlanned (p ∷ rest) d d' skips skips' within h all =
      elim (Result-cases (plan_policy resolve read r p d)) [
        | inl (d1, e) ↦
            plan_policies-IsPlanned rest d1 d' _ skips' (λ q m. within q (Memᴰ.tail m)) (rw e at h)
              (plan_policy-IsPlanned p d d1 (within p (Memᴰ.head refl)) e all)
        | inr (x, e) ↦ absurd (ground (arith, e))
      ]

-- Every action of a plan is of a usable policy that was discovered, at the path where that policy
-- writes the control, with the value asked for (for the frequency, the policy's own clamped
-- target), and holds the value that the path held before.
pub build_policy_apply_plan-IsPlanned :
    (resolve : String → String) (read : String → Result PlanError (Option String)) (r : PlanRequest)
    (pm_qos_device : Option String) (cpuidle_paths : List String) (policies : List CpufreqPolicy)
    (plan : PolicyApplyPlan)
    → build_policy_apply_plan resolve read r pm_qos_device cpuidle_paths policies ≡ ok plan
    → All (IsPlanned resolve read r policies) plan.actions
unfolding build_policy_apply_plan
build_policy_apply_plan-IsPlanned resolve read r device idle policies plan h =
    let start : Draft = record { actions = []; skips = []; boost_paths = [] } in
    elim (Result-cases (plan_policies resolve read r policies start [])) [
      | inl ((d, skipped), e) ↦
          let same : plan.actions ≡ d.actions = ground (arith, e) in
          rw same (
            plan_policies-IsPlanned resolve read r policies policies start d [] skipped (λ p m. m) e
              tt)
      | inr (x, e) ↦ absurd (ground (arith, e))
    ]
