-- ===== src/Engine/Policies/Positive.antt =====
-- Each core's policy has a target after `_resolve_policy_targets` of boostlock/engine.py, and every
-- target is above 0.
use boostlock.Prelude.{
  ℕ, String, true, false, ◌≡◌, refl, Option, none, some, List, [], ◌∷◌, All, arith, str_eq,
  Bool-cases, Option-cases, inl, inr, ◌==◌, ◌⊎◌, sort_by,
}
use boostlock.Prelude.Int.{ℤ, pos, ◌≤ℤ◌, ltb_ℤ, leb_ℤ}
use boostlock.Prelude.Dict.{Dict, String_eq, ℕ_eq, get, get_or, set, get-set, get-set_self}
use boostlock.Config.{Target, auto, other, khz}
use boostlock.Sysfs.Policy.{CpufreqPolicy}
use boostlock.Sysfs.Target.{
  lower_bounds, upper_bounds, interval, clamp_into, positive, effective_policy_target,
}
use boostlock.Sysfs.Target.Clamp.{effective_policy_target-bounds}
use boostlock.Engine.Target.{
  requested_khz, configured_target_khz, target_within, effective_target_for_policy,
}
use boostlock.Engine.Duty.{any_nonpositive}
use boostlock.Engine.Policies.Owners.{has_core, last_owner, or_value, get-resolve_policy_targets}
use boostlock.Engine.Policies.{
  PolicyMap, empty_map, active_members, assign_policy, policy_target, register_active,
  register_policy, register_policies, own_policy, register_core, register_cores,
  resolve_policy_targets, or_default,
}

abbrev pub IsPositive : ℤ → Type 0
IsPositive t = pos 1 ≤ℤ t

requested-IsPositive : (setting : Target) (t : ℤ) → requested_khz setting ≡ some t → IsPositive t
unfolding requested_khz
requested-IsPositive auto t h = cc
requested-IsPositive other t h = cc
requested-IsPositive (khz n) t h = ground arith

configured-IsPositive : (setting : Target) → IsPositive (configured_target_khz setting)
unfolding configured_target_khz
configured-IsPositive auto = omega arith
configured-IsPositive other = omega arith
configured-IsPositive (khz n) = ground arith

positive-IsPositive :
    (limit : Option ℤ) (rest : List ℤ) → All IsPositive rest → All IsPositive (positive limit rest)
positive-IsPositive none rest all = all
positive-IsPositive (some limit) rest all = elim (Bool-cases (ltb_ℤ (pos 0) limit)) [
  | inl above ↦ rw above (ground (arith, above), all)
  | inr below ↦ rw below all
]

lower_bounds-IsPositive : (p : CpufreqPolicy) → All IsPositive (lower_bounds p)
unfolding lower_bounds
lower_bounds-IsPositive p =
    positive-IsPositive p.hardware_min_khz (positive p.active_min_khz [])
      (positive-IsPositive p.active_min_khz [] tt)

above-IsPositive :
    (t x : ℤ) (xs lows : List ℤ)
    → lows ≡ x ∷ xs
    → All IsPositive lows
    → All (λ b. b ≤ℤ t) lows
    → IsPositive t
above-IsPositive t x xs lows e all below =
    let all' = rw e at all in let below' = rw e at below in omega (arith, all'.0, below'.0)

target_within-cases :
    (requested : Option ℤ) (lows highs : List ℤ) (t : ℤ)
    → target_within requested lows highs ≡ some t
    → (requested ≡ some t)
      ⊎ ((x : ℤ) × (xs : List ℤ) × (lows ≡ x ∷ xs)
          × (clamp_into requested (interval lows highs) ≡ some t))
unfolding target_within
target_within-cases requested [] highs t h = inl h
target_within-cases requested (x ∷ xs) [] t h = inl h
target_within-cases requested (x ∷ xs) (y ∷ ys) t h = inr (x, xs, refl, h)

effective-IsPositive :
    (setting : Target) (p : CpufreqPolicy) (t : ℤ)
    → effective_target_for_policy setting p ≡ some t
    → IsPositive t
unfolding effective_target_for_policy
effective-IsPositive setting p t h =
    elim (target_within-cases (requested_khz setting) (lower_bounds p) (upper_bounds p) t h) [
      | inl plain ↦ requested-IsPositive setting t plain
      | inr (x, xs, lows, clamped) ↦
          let within =
            effective_policy_target-bounds p (requested_khz setting) {t = t}
              (unfold effective_policy_target in clamped) in
          above-IsPositive t x xs (lower_bounds p) lows (lower_bounds-IsPositive p) within.0
    ]

any_nonpositive-set :
    (k : String) (t : ℤ) (d : Dict String ℤ)
    → IsPositive t
    → any_nonpositive d ≡ false
    → any_nonpositive (set k t d) ≡ false
unfolding set
any_nonpositive-set k t [] p h = ground (arith, p)
any_nonpositive-set k t ((j, u) ∷ d) p h = ground (arith, p, any_nonpositive-set k t d)

get-IsPositive :
    (k : String) (t : ℤ) (d : Dict String ℤ)
    → any_nonpositive d ≡ false
    → get k d ≡ some t
    → IsPositive t
unfolding get
get-IsPositive k t [] h e = cc
get-IsPositive k t ((j, u) ∷ d) h e = ground (arith, get-IsPositive k t d)

abbrev HasTargets : Dict ℕ String → Dict String ℤ → Type 0
HasTargets ids targets =
    (c : ℕ) (p : String) → get c ids ≡ some p → (t : ℤ) × (get p targets ≡ some t)

-- every assigned policy has a target, and no target is 0 or below
pub record IsServed (ids : Dict ℕ String) (targets : Dict String ℤ) : Type 0 where
  pub served : HasTargets ids targets
  pub above_zero : any_nonpositive targets ≡ false

get-set-some :
    (p id : String) (t u : ℤ) (targets : Dict String ℤ)
    → get p targets ≡ some u
    → (v : ℤ) × (get p (set id t targets) ≡ some v)
get-set-some p id t u targets h = elim (Bool-cases (str_eq id p)) [
  | inl same ↦ (t, rw (get-set id p t targets, same) refl)
  | inr differ ↦ (u, rw (get-set id p t targets, differ) h)
]

set-IsServed :
    (ids : Dict ℕ String) (targets : Dict String ℤ) (id : String) (t : ℤ)
    → IsPositive t
    → IsServed ids targets
    → IsServed ids (set id t targets)
set-IsServed ids targets id t pos_t s = record {
  served = λ c p e. let (u, h) = s.served c p e in get-set-some p id t u targets h;
  above_zero = any_nonpositive-set id t targets pos_t s.above_zero;
}

own-IsServed :
    (ids : Dict ℕ String) (targets : Dict String ℤ) (c : ℕ) (id : String) (t : ℤ)
    → get id targets ≡ some t
    → IsServed ids targets
    → IsServed (set c id ids) targets
own-IsServed ids targets c id t h s = record {
  served = λ d p e. elim (Bool-cases (c == d)) [
    | inl same ↦
        let e' : some id ≡ some p = rw (get-set c d id ids, same) at e in
        (t, rw (← some_injective id p e') h)
    | inr differ ↦ s.served d p (rw (get-set c d id ids, differ) at e)
  ];
  above_zero = s.above_zero;
}
  where
    some_injective : (a b : String) → ◌≡◌ {A = Option String} (some a) (some b) → a ≡ b
    some_injective a b e = cc

assign_policy-IsServed :
    (cs : List ℕ) (ids : Dict ℕ String) (targets : Dict String ℤ) (id : String) (t : ℤ)
    → get id targets ≡ some t
    → IsServed ids targets
    → IsServed (assign_policy id cs ids) targets
unfolding assign_policy
assign_policy-IsServed [] ids targets id t h s = s
assign_policy-IsServed (c ∷ cs) ids targets id t h s =
    assign_policy-IsServed cs (set c id ids) targets id t h (own-IsServed ids targets c id t h s)

module _ (setting : Target) (configured : Dict String ℤ)
    (positive_configured : any_nonpositive configured ≡ false) where
  abbrev MapServed : PolicyMap → Type 0
  MapServed m = IsServed m.cpu_policy_ids m.policy_targets

  policy_target-IsPositive :
      (p : CpufreqPolicy) (t : ℤ) → policy_target setting configured p ≡ some t → IsPositive t
  unfolding policy_target
  policy_target-IsPositive p t h = elim (Option-cases (get p.identifier configured)) [
    | inl unset ↦ effective-IsPositive setting p t (simp unset at h)
    | inr (u, chosen) ↦
        get-IsPositive p.identifier t configured positive_configured (cc (chosen, simp chosen at h))
  ]

  register_active-IsServed :
      (p : CpufreqPolicy) (active : List ℕ) (target : Option ℤ) (m : PolicyMap)
      → policy_target setting configured p ≡ target
      → MapServed m
      → MapServed (register_active setting configured p active target m)
  register_active-IsServed p [] target m e s = s
  register_active-IsServed p (c ∷ cs) none m e s = s
  register_active-IsServed p (c ∷ cs) (some t) m e s =
      assign_policy-IsServed (c ∷ cs) m.cpu_policy_ids (set p.identifier t m.policy_targets)
        p.identifier t (get-set_self p.identifier t m.policy_targets)
        (set-IsServed m.cpu_policy_ids m.policy_targets p.identifier t
          (policy_target-IsPositive p t e) s)

  register_policies-IsServed :
      (cores : List ℕ) (ps : List CpufreqPolicy) (m : PolicyMap)
      → MapServed m
      → MapServed (register_policies setting configured cores ps m)
  unfolding register_policies register_policy
  register_policies-IsServed cores [] m s = s
  register_policies-IsServed cores (p ∷ ps) m s =
      register_policies-IsServed cores ps (register_policy setting configured cores p m) (
        register_active-IsServed p (active_members cores (sort_by leb_ℤ p.cpus))
          (policy_target setting configured p) m refl s)

  own_target-IsPositive :
      (id : String) → IsPositive (get_or id (configured_target_khz setting) configured)
  unfolding get_or
  own_target-IsPositive id = elim (Option-cases (get id configured)) [
    | inl unset ↦ rw (get_or, unset) (configured-IsPositive setting)
    | inr (u, chosen) ↦
        rw (get_or, chosen) (get-IsPositive id u configured positive_configured chosen)
  ]

  register_core-IsServed :
      (c : ℕ) (m : PolicyMap) → MapServed m → MapServed (register_core setting configured c m)
  unfolding register_core
  register_core-IsServed c m s = elim (Option-cases (get c m.cpu_policy_ids)) [
    | inr (id, taken) ↦ rw (register_core, taken) s
    | inl free ↦
        let id = own_policy c in
        let t = get_or id (configured_target_khz setting) configured in
        rw (register_core, free)
          (own-IsServed m.cpu_policy_ids (set id t m.policy_targets) c id t
            (get-set_self id t m.policy_targets)
            (set-IsServed m.cpu_policy_ids m.policy_targets id t (own_target-IsPositive id) s))
  ]

  register_cores-IsServed :
      (cores : List ℕ) (m : PolicyMap)
      → MapServed m
      → MapServed (register_cores setting configured cores m)
  unfolding register_cores
  register_cores-IsServed [] m s = s
  register_cores-IsServed (c ∷ cs) m s =
      register_cores-IsServed cs (register_core setting configured c m)
        (register_core-IsServed c m s)

  or_default-IsServed :
      (ids : Dict ℕ String) (targets : Dict String ℤ)
      → IsServed ids targets
      → IsServed ids (or_default setting configured targets)
  unfolding get
  or_default-IsServed ids (t ∷ ts) s = s
  or_default-IsServed ids [] s = record {
    served = λ c p e. let (t, h) = s.served c p e in absurd (cc h);
    above_zero = ground (arith, configured-IsPositive setting);
  }

  empty-IsServed : MapServed empty_map
  unfolding empty_map get
  empty-IsServed = record { served = λ c p e. absurd (cc e); above_zero = refl }

  -- A resolution gives every assigned policy a target, and every target is above 0.
  pub resolve_policy_targets-IsServed :
      (cores : List ℕ) (discovered : List CpufreqPolicy)
      → MapServed (resolve_policy_targets setting configured cores discovered)
  unfolding resolve_policy_targets
  resolve_policy_targets-IsServed cores discovered =
      let m = register_policies setting configured cores discovered empty_map in
      let full = register_cores setting configured cores m in
      or_default-IsServed full.cpu_policy_ids full.policy_targets (
        register_cores-IsServed cores m
          (register_policies-IsServed cores discovered empty_map empty-IsServed))

  -- Where every configured target is above 0, after a resolution each target core belongs to the last
  -- discovered policy that has it and has a target, or to one of its own, named after it, where there
  -- is none; and that policy has a target above 0.
  pub resolve_policy_targets-own :
      (cores : List ℕ) (discovered : List CpufreqPolicy) (c : ℕ)
      → has_core c cores ≡ true
      → (t : ℤ) × (get c (resolve_policy_targets setting configured cores discovered).cpu_policy_ids
          ≡ some (or_value (last_owner setting configured c discovered) (own_policy c)))
        × (get
              (or_value (last_owner setting configured c discovered) (own_policy c))
              (resolve_policy_targets setting configured cores discovered).policy_targets
            ≡ some t)
        × IsPositive t
  resolve_policy_targets-own cores discovered c h =
      let owner = or_value (last_owner setting configured c discovered) (own_policy c) in
      let m = resolve_policy_targets setting configured cores discovered in
      let owned = get-resolve_policy_targets setting configured c cores discovered h in
      let s = resolve_policy_targets-IsServed cores discovered in
      let (t, target) = s.served c owner owned in
      (t, owned, target, get-IsPositive owner t m.policy_targets s.above_zero target)
