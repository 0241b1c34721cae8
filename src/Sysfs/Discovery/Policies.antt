-- ===== src/Sysfs/Discovery/Policies.antt =====
-- The policies that `discover_cpufreq_policies` of boostlock/sysfs.py returns.
use Prim.Native.String.{◌++◌ as str_append}
use boostlock.Prelude.{
  ℕ, String, Bool, true, false, not, ◌&&◌, Option, none, some, List, [], ◌∷◌, map, Result, ok,
  ◌>>=◌, ◌>>◌, raise_if, sort_by, leb, if◌then◌else◌,
}
use boostlock.Prelude.Int.{ℤ}
use boostlock.Prelude.Decimal.{str_ℤ}
use boostlock.Prelude.Dict.{Dict, String_eq, set}
use boostlock.Sysfs.Policy.{
  CapabilityState, available, unavailable, unusable, Control, governor, active_min_frequency,
  active_max_frequency, boost, cpb, energy_performance_preference, energy_perf_bias, device,
  cpuidle, control_name, CpufreqPolicy, PlanError, no_usable_policy,
}
use boostlock.Sysfs.Plan.{elem, none_usable, is_available}
use boostlock.Sysfs.Discovery.{Tree, cpu_path, get_online_cpus}
use boostlock.Sysfs.Discovery.Inventory.{
  NodeValues, is_empty, is_blank, if_file, policy_members, control_path, read_nodes,
}

abbrev pub is_none : Option ℤ → Bool
is_none none = true
is_none _ = false

-- a capability that is AVAILABLE and fails a test becomes UNUSABLE
abbrev pub demoted : Bool → CapabilityState → CapabilityState
demoted true available = unusable
demoted _ state = state

abbrev skip_reason : CapabilityState → String
skip_reason unavailable = "node unavailable"
skip_reason _ = "node unusable"

-- of a file that is there or not, with its value
abbrev pub found : Bool → Option String → CapabilityState
found true (some _) = available
found true none = unusable
found false _ = unavailable

module _ (tree : Tree) where
  open tree use {root, is_file, is_dir, resolve, name, iterdir, join, text}

  unfoldable pub parse_optional_int : Option String → Option ℤ
  parse_optional_int none = none
  parse_optional_int (some value) = text.int value

  -- `_capability_state`
  unfoldable pub capability_state : Option String → Option String → CapabilityState
  capability_state none value = unavailable
  capability_state (some path) value = found (is_file path) value

  -- a node that must hold a text, and one that must hold a number
  unfoldable pub text_capability : Option String → Option String → CapabilityState
  unfolding capability_state
  text_capability path value = demoted (is_blank value) (capability_state path value)

  unfoldable pub number_capability : Option String → Option String → CapabilityState
  unfolding capability_state parse_optional_int
  number_capability path value =
      demoted (is_none (parse_optional_int value)) (capability_state path value)

  unfoldable pub capability : String → List ℤ → NodeValues → Control → CapabilityState
  unfolding text_capability number_capability
  capability path members nodes governor =
      text_capability (some (join path "scaling_governor")) nodes.governor
  capability path members nodes active_min_frequency =
      number_capability (some (join path "scaling_min_freq")) nodes.active_min_frequency
  capability path members nodes active_max_frequency =
      number_capability (some (join path "scaling_max_freq")) nodes.active_max_frequency
  capability path members nodes boost =
      text_capability (control_path tree path members boost) nodes.boost
  capability path members nodes cpb = text_capability (control_path tree path members cpb) nodes.cpb
  capability path members nodes energy_performance_preference =
      text_capability (control_path tree path members energy_performance_preference)
        nodes.energy_performance_preference
  capability path members nodes energy_perf_bias =
      text_capability (control_path tree path members energy_perf_bias) nodes.energy_perf_bias
  capability path members nodes device = unavailable
  capability path members nodes cpuidle = unavailable

  abbrev control_value : NodeValues → Control → Option String
  control_value nodes boost = nodes.boost
  control_value nodes cpb = nodes.cpb
  control_value nodes energy_performance_preference = nodes.energy_performance_preference
  control_value nodes energy_perf_bias = nodes.energy_perf_bias
  control_value nodes _ = none

  abbrev if_found : Option String → Option String
  if_found none = none
  if_found (some path) = if_file tree path

  unfoldable pub writable_path : String → List ℤ → Control → Option String
  writable_path path members governor = if_file tree (join path "scaling_governor")
  writable_path path members active_min_frequency = if_file tree (join path "scaling_min_freq")
  writable_path path members active_max_frequency = if_file tree (join path "scaling_max_freq")
  writable_path path members control = if_found (control_path tree path members control)

  -- the controls that are not available, with the reason
  abbrev skipped :
      (Control → CapabilityState) → List Control → Dict String String → Dict String String
  skipped state [] skips = skips
  skipped state (control ∷ rest) skips = skipped state rest (
      if is_available (state control)
      then skips
      else set (control_name control) (skip_reason (state control)) skips)

  abbrev words : Option String → List String
  words none = tree.split ""
  words (some value) = tree.split value

  -- the policy of a directory whose members and nodes have been read
  unfoldable pub policy_of : String → String → List ℤ → NodeValues → CpufreqPolicy
  unfolding capability writable_path parse_optional_int
  policy_of identifier path members nodes =
      let state = capability path members nodes in
      record {
        identifier = identifier;
        path = path;
        cpus = members;
        driver = nodes.driver;
        governor = nodes.governor;
        available_governors = words nodes.available_governors;
        current_freq_khz = parse_optional_int nodes.current_frequency;
        active_min_khz = parse_optional_int nodes.active_min_frequency;
        active_max_khz = parse_optional_int nodes.active_max_frequency;
        hardware_min_khz = parse_optional_int nodes.hardware_min_frequency;
        hardware_max_khz = parse_optional_int nodes.hardware_max_frequency;
        controls = control_value nodes;
        capabilities = state;
        writable_paths = writable_path path members;
        skipped_controls =
            skipped state (boost ∷ cpb ∷ energy_performance_preference ∷ energy_perf_bias ∷ []) [];
        usable =
            not (is_empty members)
            && (is_available (state governor)
                && (is_available (state active_min_frequency)
                    && is_available (state active_max_frequency)));
      }

  unfoldable pub inventory_cpufreq_policy : String → String → Result PlanError CpufreqPolicy
  unfolding policy_of
  inventory_cpufreq_policy identifier path = policy_members tree path >>= λ members.
      read_nodes tree path members >>= λ nodes. ok (policy_of identifier path members nodes)

  -- the directories that match, by name and then by number
  abbrev numbered : String → List String → List (ℕ × String)
  numbered base [] = []
  numbered base (entry ∷ rest) =
      let others = numbered base rest in
      if is_dir (join base entry)
      then elim (tree.policy_number entry) [ none ↦ others | some n ↦ (n, entry) ∷ others ]
      else others

  abbrev global_candidates : List (String × String)
  global_candidates =
      let base = join root "devices/system/cpu/cpufreq" in
      if is_dir base
      then map (λ c. (c.1, join base c.1))
          (sort_by (λ c d. leb c.0 d.0) (numbered base (sort_by tree.str_leb (iterdir base))))
      else []

  abbrev alias_candidates : List ℤ → List (String × String)
  alias_candidates [] = []
  alias_candidates (cpu ∷ cpus) =
      let path = cpu_path tree cpu "cpufreq" in
      let others = alias_candidates cpus in
      if is_dir path then (str_append "cpu" (str_ℤ cpu), path) ∷ others else others

  abbrev or_aliases : List (String × String) → Result PlanError (List (String × String))
  or_aliases [] = get_online_cpus tree >>= λ cpus. ok (alias_candidates cpus)
  or_aliases candidates = ok candidates

  unfoldable pub candidates : Result PlanError (List (String × String))
  candidates = or_aliases global_candidates

  abbrev pub identifier_of : Option ℕ → String → String → String
  identifier_of (some _) resolved fallback = resolved
  identifier_of none resolved fallback = fallback

  -- the loop over the candidates: a directory that has been seen is passed over
  unfoldable pub inventory_all :
      List (String × String) → List String → Result PlanError (List CpufreqPolicy)
  unfolding inventory_cpufreq_policy
  inventory_all [] seen = ok []
  inventory_all ((fallback, path) ∷ rest) seen =
      let resolved = resolve path in
      let known = elem resolved seen in
      let after = inventory_all rest (if known then seen else resolved ∷ seen) in
      if known
      then after
      else (inventory_cpufreq_policy
            (identifier_of (tree.policy_number (name resolved)) (name resolved) fallback) resolved
          >>= λ p. after >>= λ ps. ok (p ∷ ps))

  unfoldable pub discover_cpufreq_policies : Bool → Result PlanError (List CpufreqPolicy)
  unfolding inventory_all
  discover_cpufreq_policies require_usable = candidates >>= λ cs.
      inventory_all cs [] >>= λ policies.
      raise_if (require_usable && none_usable policies) no_usable_policy >> ok policies
