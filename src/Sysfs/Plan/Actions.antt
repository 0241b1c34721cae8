-- ===== src/Sysfs/Plan/Actions.antt =====
-- Where an action that the plan of one policy appends comes from.
use mathlib.Core.List.{Memᴰ}
use boostlock.Prelude.{
  String, true, ◌&&◌, ◌⊎◌, ◌≡◌, refl, Option, none, some, List, [], ◌∷◌, ◌++◌, All, All-append,
  Result, ok, arith, Bool-cases, Result-cases, inl, inr,
}
use boostlock.Prelude.Int.{ℤ}
use boostlock.Prelude.Dict.{String_eq}
use boostlock.Prelude.Decimal.{str_ℤ}
use boostlock.Sysfs.Policy.{
  Control, governor, active_min_frequency, boost, cpb, energy_performance_preference, CpufreqPolicy,
  PolicyApplyAction, PlanError,
}
use boostlock.Sysfs.Target.{effective_policy_target}
use boostlock.Sysfs.Plan.{
  PlanRequest, Draft, elem, switch, is_boost, remember_boost, plan_at, planned_policy_action,
  plan_action, plan_governor, plan_target,
}

-- The value that the request asks of a control of this policy.
abbrev pub Asked : PlanRequest → CpufreqPolicy → Control → String → Type 0
Asked r p governor value = (r.governor ≡ some value) × (elem value p.available_governors ≡ true)
Asked r p active_min_frequency value =
    (t : ℤ) × (effective_policy_target p r.target_khz ≡ some t) × (value ≡ str_ℤ t)
Asked r p boost value = switch r.boost ≡ some value
Asked r p cpb value = switch r.cpb ≡ some value
Asked r p energy_performance_preference value = r.energy_performance_preference ≡ some value
Asked _ _ _ _ = ⊥

module _ (resolve : String → String) (read : String → Result PlanError (Option String))
    (r : PlanRequest) (policies : List CpufreqPolicy) where
  -- The action is of a usable policy, at the path where the policy writes that control, with the
  -- value asked for, and with the value that the path now holds.
  pub record IsPlanned (a : PolicyApplyAction) : Type 0 where
    pub policy : CpufreqPolicy
    pub found : Memᴰ policy policies
    pub usable : policy.usable ≡ true
    pub owner : a.policy_id ≡ policy.identifier
    pub place : policy.writable_paths a.control ≡ some a.path
    pub asked : Asked r policy a.control a.value
    pub snapshot : read a.path ≡ ok (some a.original_value)

  module _ (p : CpufreqPolicy) (found : Memᴰ p policies) (usable : p.usable ≡ true) where
    planned_inv :
        (control : Control) (value : String) (a : PolicyApplyAction)
        → planned_policy_action resolve read p control value ≡ ok a
        → (a.policy_id ≡ p.identifier)
          × (a.control ≡ control)
          × (a.value ≡ value)
          × (p.writable_paths control ≡ some a.path)
          × (read a.path ≡ ok (some a.original_value))
    unfolding planned_policy_action
    planned_inv control value a h = ground arith

    pub plan_action-IsPlanned :
        (control : Control) (value : String) (d d' : Draft)
        → Asked r p control value
        → plan_action resolve read p control value d ≡ ok d'
        → All IsPlanned d.actions
        → All IsPlanned d'.actions
    unfolding plan_action
    plan_action-IsPlanned control value d d' asked h all =
        elim (Result-cases (planned_policy_action resolve read p control value)) [
          | inl (a, e) ↦
              let (owner, same, wanted, place, snapshot) = planned_inv control value a e in
              let planned : IsPlanned a = record {
                policy = p;
                found = found;
                usable = usable;
                owner = owner;
                place = rw same place;
                asked = rw (same, wanted) asked;
                snapshot = snapshot;
              } in
              let result : d'.actions ≡ d.actions ++ a ∷ [] = ground (arith, e) in
              rw result (All-append IsPlanned d.actions (a ∷ []) all (planned, tt))
          | inr (x, e) ↦ absurd (ground (arith, e))
        ]

    pub carry :
        (d d' : Draft) → d'.actions ≡ d.actions → All IsPlanned d.actions → All IsPlanned d'.actions
    carry d d' e all = rw e all

    pub plan_governor-IsPlanned :
        (wanted : Option String) (d d' : Draft)
        → r.governor ≡ wanted
        → plan_governor resolve read p wanted d ≡ ok d'
        → All IsPlanned d.actions
        → All IsPlanned d'.actions
    unfolding plan_governor
    plan_governor-IsPlanned none d d' w h all = carry d d' (ground arith) all
    plan_governor-IsPlanned (some g) d d' w h all =
        elim (Bool-cases (elem g p.available_governors)) [
          | inl known ↦ plan_action-IsPlanned governor g d d' (w, known) (rw known at h) all
          | inr unknown ↦ carry d d' (ground arith) all
        ]

    pub plan_target-IsPlanned :
        (target : Option ℤ) (d d' : Draft)
        → effective_policy_target p r.target_khz ≡ target
        → plan_target resolve read p r.governor target d ≡ ok d'
        → All IsPlanned d.actions
        → All IsPlanned d'.actions
    plan_target-IsPlanned none d d' e h all = carry d d' (ground arith) all
    plan_target-IsPlanned (some t) d d' e h all =
        elim (Result-cases (plan_governor resolve read p r.governor d)) [
          | inl (d1, g) ↦
              plan_action-IsPlanned active_min_frequency (str_ℤ t) d1 d' (t, e, refl) (rw g at h)
                (plan_governor-IsPlanned r.governor d d1 refl g all)
          | inr (x, g) ↦ absurd (ground (arith, g))
        ]

    remember_actions :
        (control : Control) (path : String) (d : Draft)
        → (remember_boost resolve read control path d).actions ≡ d.actions
    remember_actions control path d = ground arith

    -- either nothing is appended, or what `plan_action` appends
    plan_at-cases :
        (control : Control) (value path : String) (d d' : Draft)
        → plan_at resolve read p control value path d ≡ ok d'
        → (d'.actions ≡ d.actions)
          ⊎ ((d1 : Draft) × (plan_action resolve read p control value d ≡ ok d1)
              × (d'.actions ≡ d1.actions))
    unfolding plan_at
    plan_at-cases control value path d d' h =
        elim (Bool-cases (is_boost resolve read control && elem path d.boost_paths)) [
          | inl shared ↦ inl (ground arith)
          | inr own ↦ elim (Result-cases (plan_action resolve read p control value d)) [
            | inl (d1, e) ↦ inr (d1, e, ground (arith, e, remember_actions control path d1))
            | inr (x, e) ↦ absurd (ground (arith, e))
          ]
        ]

    pub plan_at-IsPlanned :
        (control : Control) (value path : String) (d d' : Draft)
        → Asked r p control value
        → plan_at resolve read p control value path d ≡ ok d'
        → All IsPlanned d.actions
        → All IsPlanned d'.actions
    plan_at-IsPlanned control value path d d' asked h all =
        elim (plan_at-cases control value path d d' h) [
          | inl e ↦ carry d d' e all
          | inr (d1, e, same) ↦
              carry d1 d' same (plan_action-IsPlanned control value d d1 asked e all)
        ]
