-- ===== src/Engine/Policies.antt =====
-- `_resolve_target_cores` and `_resolve_policy_targets` of boostlock/engine.py: the cores that get a
-- worker, the policy that owns each, and the frequency that each policy is driven at.
--
-- `discovered` is what `discover_cpufreq_policies` returns, and empty where it raises.
pub mod Owners
pub mod Positive
use Prim.Native.String.{◌++◌ as ◌++ₛ◌}
use boostlock.Prelude.{
  ℕ, String, Bool, true, false, Option, none, some, List, [], ◌∷◌, ◌==◌, if◌then◌else◌, sort_by,
}
use boostlock.Prelude.Int.{ℤ, pos, leb_ℤ, pos_part, neg_part}
use boostlock.Prelude.Decimal.{str_ℕ}
use boostlock.Prelude.Dict.{Dict, String_eq, ℕ_eq, get, get_or, set, contains}
use boostlock.Config.{Target}
use boostlock.Sysfs.Policy.{CpufreqPolicy}
use boostlock.Engine.Target.{configured_target_khz, effective_target_for_policy}

pub data TargetingMode : Type 0 where
  all_cores per_ccx round_robin affinity_pinned : TargetingMode

-- `[0]` where the online CPUs are unknown or none
abbrev online_or_zero : Option (List ℕ) → List ℕ
online_or_zero none = 0 ∷ []
online_or_zero (some []) = 0 ∷ []
online_or_zero (some (c ∷ cs)) = c ∷ cs

abbrev or_online : Option (List ℕ) → Option (List ℕ) → List ℕ
or_online none online = online_or_zero online
or_online (some threads) online = threads

-- the threads of the chosen core complex, where the mode asks for one that the topology has
unfoldable pub ccx_threads : TargetingMode → Option ℕ → Dict ℕ (List ℕ) → Option (List ℕ)
ccx_threads per_ccx (some ccx) core_to_threads = get ccx core_to_threads
ccx_threads _ _ core_to_threads = none

-- `online` is `none` where `get_online_cpus` raises.
unfoldable pub resolve_target_cores :
    Option (List ℕ) → TargetingMode → Option ℕ → Dict ℕ (List ℕ) → Option (List ℕ) → List ℕ
unfolding ccx_threads
resolve_target_cores (some (c ∷ cs)) mode ccx core_to_threads online = c ∷ cs
resolve_target_cores (some []) mode ccx core_to_threads online =
    or_online (ccx_threads mode ccx core_to_threads) online
resolve_target_cores none mode ccx core_to_threads online =
    or_online (ccx_threads mode ccx core_to_threads) online

-- what the resolution fills: four dicts of the engine and the targets that it returns
pub record PolicyMap : Type 0 where
  pub policy_members : Dict String (List ℤ)
  pub policy_drivers : Dict String (Option String)
  pub policy_records : Dict String CpufreqPolicy
  pub cpu_policy_ids : Dict ℕ String
  pub policy_targets : Dict String ℤ

unfoldable pub empty_map : PolicyMap
empty_map = record {
  policy_members = [];
  policy_drivers = [];
  policy_records = [];
  cpu_policy_ids = [];
  policy_targets = [];
}

unfoldable pub has_cpu : ℕ → List ℤ → Bool
has_cpu c [] = false
has_cpu c (pos n ∷ rest) = let later = has_cpu c rest in if n == c then true else later
has_cpu c (_ ∷ rest) = has_cpu c rest

-- `selected_cpus.intersection(policy_members)`
unfoldable pub active_members : List ℕ → List ℤ → List ℕ
unfolding has_cpu
active_members [] members = []
active_members (c ∷ cs) members =
    let rest = active_members cs members in if has_cpu c members then c ∷ rest else rest

unfoldable pub assign_policy : String → List ℕ → Dict ℕ String → Dict ℕ String
assign_policy id [] ids = ids
assign_policy id (c ∷ cs) ids = assign_policy id cs (set c id ids)

-- the policy of a core that no discovered policy owns
abbrev pub own_policy : ℕ → String
own_policy cpu = "cpu" ++ₛ str_ℕ cpu

module _ (setting : Target) (configured : Dict String ℤ) where
  abbrev or_effective : Option ℤ → CpufreqPolicy → Option ℤ
  or_effective none p = effective_target_for_policy setting p
  or_effective (some target) p = some target

  -- the target of a discovered policy
  unfoldable pub policy_target : CpufreqPolicy → Option ℤ
  policy_target p = or_effective (get p.identifier configured) p

  abbrev registered : CpufreqPolicy → List ℕ → ℤ → PolicyMap → PolicyMap
  registered p active target m = record {
    policy_members = set p.identifier (sort_by leb_ℤ p.cpus) m.policy_members;
    policy_drivers = set p.identifier p.driver m.policy_drivers;
    policy_records = set p.identifier p m.policy_records;
    cpu_policy_ids = assign_policy p.identifier active m.cpu_policy_ids;
    policy_targets = set p.identifier target m.policy_targets;
  }

  abbrev register_active : CpufreqPolicy → List ℕ → Option ℤ → PolicyMap → PolicyMap
  register_active p [] target m = m
  register_active p (c ∷ cs) none m = m
  register_active p (c ∷ cs) (some target) m = registered p (c ∷ cs) target m

  -- the body of the loop over the discovered policies
  unfoldable pub register_policy : List ℕ → CpufreqPolicy → PolicyMap → PolicyMap
  unfolding active_members policy_target assign_policy
  register_policy cores p m =
      register_active p (active_members cores (sort_by leb_ℤ p.cpus)) (policy_target p) m

  unfoldable pub register_policies : List ℕ → List CpufreqPolicy → PolicyMap → PolicyMap
  unfolding register_policy
  register_policies cores [] m = m
  register_policies cores (p ∷ ps) m = register_policies cores ps (register_policy cores p m)

  abbrev registered_core : ℕ → PolicyMap → PolicyMap
  registered_core cpu m = record m {
    policy_members = set (own_policy cpu) (pos cpu ∷ []) m.policy_members;
    policy_drivers = set (own_policy cpu) none m.policy_drivers;
    cpu_policy_ids = set cpu (own_policy cpu) m.cpu_policy_ids;
    policy_targets =
        set (own_policy cpu) (get_or (own_policy cpu) (configured_target_khz setting) configured)
          m.policy_targets;
  }

  unfoldable pub register_core : ℕ → PolicyMap → PolicyMap
  register_core cpu m = elim (get cpu m.cpu_policy_ids) [
    | some id ↦ m
    | none ↦ registered_core cpu m
  ]

  -- the loop over the target cores
  unfoldable pub register_cores : List ℕ → PolicyMap → PolicyMap
  unfolding register_core
  register_cores [] m = m
  register_cores (cpu ∷ rest) m = register_cores rest (register_core cpu m)

  -- `targets or {"default": fallback_target}`
  abbrev pub or_default : Dict String ℤ → Dict String ℤ
  or_default [] = ("default", configured_target_khz setting) ∷ []
  or_default (t ∷ ts) = t ∷ ts

  unfoldable pub resolve_policy_targets : List ℕ → List CpufreqPolicy → PolicyMap
  unfolding register_policies register_cores
  resolve_policy_targets cores discovered =
      let m = register_cores cores (register_policies cores discovered empty_map) in
      record m { policy_targets = or_default m.policy_targets }
