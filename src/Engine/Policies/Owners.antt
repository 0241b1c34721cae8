-- ===== src/Engine/Policies/Owners.antt =====
-- Which policy owns each core after `_resolve_policy_targets`.
use boostlock.Prelude.{
  ℕ, String, Bool, true, false, ◌&&◌, ◌≡◌, refl, ◌∙◌, Option, none, some, List, [], ◌∷◌, arith,
  ◌==◌, ==_iff, if◌then◌else◌, Bool-cases, Option-cases, inl, inr, sort_by, insert_by,
}
use boostlock.Prelude.Int.{ℤ, pos, negsuc, leb_ℤ}
use boostlock.Prelude.Dict.{Dict, String_eq, ℕ_eq, get, set, get-set}
use boostlock.Config.{Target}
use boostlock.Sysfs.Policy.{CpufreqPolicy}
use boostlock.Engine.Policies.{
  PolicyMap, empty_map, has_cpu, active_members, assign_policy, policy_target, register_active,
  register_policy, register_policies, own_policy, register_core, register_cores,
  resolve_policy_targets,
}

unfoldable pub has_core : ℕ → List ℕ → Bool
has_core c [] = false
has_core c (d ∷ rest) = let later = has_core c rest in if d == c then true else later

abbrev or_else {ℓ} : {A : Type ℓ} → Option A → Option A → Option A
or_else none o = o
or_else (some a) o = some a

abbrev pub or_value {ℓ} : {A : Type ℓ} → Option A → A → A
or_value none b = b
or_value (some a) b = a

abbrev is_some {ℓ} : {A : Type ℓ} → Option A → Bool
is_some none = false
is_some (some a) = true

has_cpu-insert :
    (c : ℕ) (x : ℤ) (xs : List ℤ) → has_cpu c (insert_by leb_ℤ x xs) ≡ has_cpu c (x ∷ xs)
unfolding has_cpu insert_by
has_cpu-insert c x [] = refl
has_cpu-insert c (pos n) (pos y ∷ ys) = ground (arith, has_cpu-insert c (pos n) ys)
has_cpu-insert c (pos n) (negsuc y ∷ ys) = ground (arith, has_cpu-insert c (pos n) ys)
has_cpu-insert c (negsuc n) (pos y ∷ ys) = ground (arith, has_cpu-insert c (negsuc n) ys)
has_cpu-insert c (negsuc n) (negsuc y ∷ ys) = ground (arith, has_cpu-insert c (negsuc n) ys)

has_cpu-cons :
    (c : ℕ) (x : ℤ) (xs ys : List ℤ)
    → has_cpu c xs ≡ has_cpu c ys
    → has_cpu c (x ∷ xs) ≡ has_cpu c (x ∷ ys)
unfolding has_cpu
has_cpu-cons c (pos n) xs ys h = rw h refl
has_cpu-cons c (negsuc n) xs ys h = h

has_cpu-sort : (c : ℕ) (xs : List ℤ) → has_cpu c (sort_by leb_ℤ xs) ≡ has_cpu c xs
unfolding sort_by
has_cpu-sort c [] = refl
has_cpu-sort c (x ∷ xs) =
    has_cpu-insert c x (sort_by leb_ℤ xs)
    ∙ has_cpu-cons c x (sort_by leb_ℤ xs) xs (has_cpu-sort c xs)

has_core-active :
    (c : ℕ) (cores : List ℕ) (members : List ℤ)
    → has_core c (active_members cores members) ≡ (has_core c cores && has_cpu c members)
unfolding has_core active_members
has_core-active c [] members = refl
has_core-active c (d ∷ ds) members = ground (arith, ==_iff d c, has_core-active c ds members)

get-assign_policy :
    (c : ℕ) (id : String) (cs : List ℕ) (ids : Dict ℕ String)
    → get c (assign_policy id cs ids) ≡ (if has_core c cs then some id else get c ids)
unfolding assign_policy has_core
get-assign_policy c id [] ids = refl
get-assign_policy c id (d ∷ ds) ids =
    get-assign_policy c id ds (set d id ids) ∙ ground (arith, get-set d c id ids)

module _ (setting : Target) (configured : Dict String ℤ) where
  -- a policy takes a CPU that it has, unless its bounds leave no target
  abbrev takes : ℕ → CpufreqPolicy → Bool
  takes c p = has_cpu c p.cpus && is_some (policy_target setting configured p)

  -- the last of the policies that takes the CPU
  abbrev pub last_owner : ℕ → List CpufreqPolicy → Option String
  last_owner c [] = none
  last_owner c (p ∷ ps) = or_else (last_owner c ps) (if takes c p then some p.identifier else none)

  get-register_active :
      (c : ℕ) (p : CpufreqPolicy) (active : List ℕ) (target : Option ℤ) (m : PolicyMap)
      → get c (register_active setting configured p active target m).cpu_policy_ids ≡ (
          if has_core c active && is_some target then some p.identifier else get c m.cpu_policy_ids)
  unfolding has_core
  get-register_active c p [] target m = refl
  get-register_active c p (d ∷ ds) none m = ground arith
  get-register_active c p (d ∷ ds) (some t) m =
      get-assign_policy c p.identifier (d ∷ ds) m.cpu_policy_ids ∙ ground arith

  get-register_policy :
      (c : ℕ) (cores : List ℕ) (p : CpufreqPolicy) (m : PolicyMap)
      → has_core c cores ≡ true
      → get c (register_policy setting configured cores p m).cpu_policy_ids
        ≡ (if takes c p then some p.identifier else get c m.cpu_policy_ids)
  unfolding register_policy
  get-register_policy c cores p m h =
      let members = sort_by leb_ℤ p.cpus in
      let reg =
        get-register_active c p (active_members cores members) (policy_target setting configured p)
          m in
      rw (has_core-active c cores members, h, has_cpu-sort c p.cpus) at reg

  get-register_policies :
      (c : ℕ) (cores : List ℕ) (ps : List CpufreqPolicy) (m : PolicyMap)
      → has_core c cores ≡ true
      → get c (register_policies setting configured cores ps m).cpu_policy_ids
        ≡ or_else (last_owner c ps) (get c m.cpu_policy_ids)
  unfolding register_policies
  get-register_policies c cores [] m h = refl
  get-register_policies c cores (p ∷ ps) m h =
      get-register_policies c cores ps (register_policy setting configured cores p m) h
      ∙ rw (get-register_policy c cores p m h) (ground arith)

  get-register_core :
      (c d : ℕ) (m : PolicyMap)
      → get c (register_core setting configured d m).cpu_policy_ids
        ≡ or_else (get c m.cpu_policy_ids) (if d == c then some (own_policy c) else none)
  unfolding register_core
  get-register_core c d m = elim (Option-cases (get d m.cpu_policy_ids)) [
    | inl free ↦ elim (Bool-cases (d == c)) [
      | inl same ↦
          let eq : d ≡ c = (==_iff d c).0 same in
          let free' : get c m.cpu_policy_ids ≡ none = rw (← eq) free in
          rw (register_core, free, get-set d c (own_policy d) m.cpu_policy_ids, same, free', eq)
            refl
      | inr differ ↦
          rw (register_core, free, get-set d c (own_policy d) m.cpu_policy_ids, differ)
            (ground arith)
    ]
    | inr (id, taken) ↦ elim (Bool-cases (d == c)) [
      | inl same ↦
          let eq : d ≡ c = (==_iff d c).0 same in
          let taken' : get c m.cpu_policy_ids ≡ some id = rw (← eq) taken in
          rw (register_core, taken, taken') refl
      | inr differ ↦ rw (register_core, taken, differ) (ground arith)
    ]
  ]

  get-register_cores :
      (c : ℕ) (cores : List ℕ) (m : PolicyMap)
      → get c (register_cores setting configured cores m).cpu_policy_ids
        ≡ or_else (get c m.cpu_policy_ids) (if has_core c cores then some (own_policy c) else none)
  unfolding register_cores has_core
  get-register_cores c [] m = ground arith
  get-register_cores c (d ∷ ds) m =
      get-register_cores c ds (register_core setting configured d m)
      ∙ rw (get-register_core c d m) (ground arith)

  owner_or_own :
      (o : Option String) (c : ℕ)
      → or_else (or_else o (get c empty_map.cpu_policy_ids)) (some (own_policy c))
        ≡ some (or_value o (own_policy c))
  unfolding empty_map get
  owner_or_own none c = refl
  owner_or_own (some id) c = refl

  -- After a resolution each core belongs to the last discovered policy that has it and has a target,
  -- and to a policy of its own, named after it, where there is none.
  pub get-resolve_policy_targets :
      (c : ℕ) (cores : List ℕ) (discovered : List CpufreqPolicy)
      → has_core c cores ≡ true
      → get c (resolve_policy_targets setting configured cores discovered).cpu_policy_ids
        ≡ some (or_value (last_owner c discovered) (own_policy c))
  unfolding resolve_policy_targets
  get-resolve_policy_targets c cores discovered h =
      let m = register_policies setting configured cores discovered empty_map in
      let found = get-register_policies c cores discovered empty_map h in
      get-register_cores c cores m ∙ rw (h, found) (owner_or_own (last_owner c discovered) c)
