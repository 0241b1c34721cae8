-- ===== src/Sysfs/Plan/Paths.antt =====
-- The preflight list: each resolved path once, and every action's path among them.
use boostlock.Prelude.{
  String, true, false, ◌≡◌, refl, List, [], ◌∷◌, ◌++◌, All, map, Result, ok, Result-cases,
  Bool-cases, inl, inr, arith, eq_iff, Option,
}
use boostlock.Sysfs.Policy.{PolicyApplyAction, PolicyApplyPlan, CpufreqPolicy, PlanError}
use boostlock.Sysfs.Plan.{
  elem, unique_from, unique_paths, PlanRequest, Draft, device_path, plan_policies,
  build_policy_apply_plan,
}

abbrev pub Distinct : List String → Type 0
Distinct [] = Unit
Distinct (x ∷ xs) = (elem x xs ≡ false) × Distinct xs

elem_cons : (x y : String) (ys : List String) → elem x ys ≡ true → elem x (y ∷ ys) ≡ true
unfolding elem
elem_cons x y ys h = ground arith

elem_head : (x : String) (ys : List String) → elem x (x ∷ ys) ≡ true
unfolding elem
elem_head x ys = ground (arith, eq_iff x x)

module _ (resolve : String → String) (read : String → Result PlanError (Option String)) where
  -- what is already seen is left out of what follows
  unique_avoids :
      (seen ps : List String) (x : String)
      → elem x seen ≡ true
      → elem x (unique_from resolve read seen ps) ≡ false
  unfolding unique_from elem
  unique_avoids seen [] x h = refl
  unique_avoids seen (p ∷ ps) x h = ground (
    arith,
    eq_iff x (resolve p),
    unique_avoids seen ps x h,
    unique_avoids (resolve p ∷ seen) ps x,
  )

  unique-Distinct : (seen ps : List String) → Distinct (unique_from resolve read seen ps)
  unfolding unique_from
  unique-Distinct seen [] = tt
  unique-Distinct seen (p ∷ ps) = elim (Bool-cases (elem (resolve p) seen)) [
    | inl old ↦ rw old (unique-Distinct seen ps)
    | inr new ↦ rw new (
      unique_avoids (resolve p ∷ seen) ps (resolve p) (elem_head (resolve p) seen),
      unique-Distinct (resolve p ∷ seen) ps,
    )
  ]

  -- every path is either seen before or in the result
  unique_covers :
      (seen ps : List String) (q : String)
      → elem q ps ≡ true
      → elem (resolve q) seen ≡ false
      → elem (resolve q) (unique_from resolve read seen ps) ≡ true
  unfolding unique_from elem
  unique_covers seen [] q h out = cc
  unique_covers seen (p ∷ ps) q h out = ground (
    arith,
    eq_iff q p,
    eq_iff (resolve q) (resolve p),
    unique_covers seen ps q,
    unique_covers (resolve p ∷ seen) ps q,
  )

  -- every path of the list, as it resolves, is in the result
  unique_covers_all :
      (xs ps : List String)
      → ((q : String) → elem q xs ≡ true → elem q ps ≡ true)
      → All (λ x. elem (resolve x) (unique_from resolve read [] ps) ≡ true) xs
  unfolding elem
  unique_covers_all [] ps within = tt
  unique_covers_all (x ∷ xs) ps within = (
    unique_covers [] ps x (within x (elem_head x xs)) refl,
    unique_covers_all xs ps (λ q m. within q (elem_cons q x xs m)),
  )

abbrev paths_of : List PolicyApplyAction → List String
paths_of actions = map (λ a. a.path) actions

-- A plan's preflight list names no path twice, and has the resolved path of every action, of the PM
-- QoS device where there is one, and of every cpuidle file.
pub preflight_paths_lem :
    (resolve : String → String) (read : String → Result PlanError (Option String)) (r : PlanRequest)
    (pm_qos_device : Option String) (cpuidle_paths : List String) (policies : List CpufreqPolicy)
    (plan : PolicyApplyPlan)
    → build_policy_apply_plan resolve read r pm_qos_device cpuidle_paths policies ≡ ok plan
    → Distinct plan.preflight_paths
      × All
          (λ x. elem (resolve x) plan.preflight_paths ≡ true)
          (paths_of plan.actions ++ (device_path pm_qos_device ++ cpuidle_paths))
unfolding build_policy_apply_plan unique_paths
preflight_paths_lem resolve read r device idle policies plan h =
    let start : Draft = record { actions = []; skips = []; boost_paths = [] } in
    elim (Result-cases (plan_policies resolve read r policies start [])) [
      | inl ((d, skipped), e) ↦
          let all = paths_of d.actions ++ (device_path device ++ idle) in
          let same : plan.actions ≡ d.actions = ground (arith, e) in
          let listed : plan.preflight_paths ≡ unique_from resolve read [] all = ground (arith, e) in
          rw (listed, same)
            (unique-Distinct resolve read [] all, unique_covers_all resolve read all all (λ q m. m))
      | inr (x, e) ↦ absurd (ground (arith, e))
    ]
