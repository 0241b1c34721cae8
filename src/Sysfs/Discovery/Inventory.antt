-- ===== src/Sysfs/Discovery/Inventory.antt =====
-- `_inventory_cpufreq_policy` of boostlock/sysfs.py: what one policy directory exposes.
use boostlock.Prelude.{
  String, Bool, true, false, ◌&&◌, Option, none, some, List, [], ◌∷◌, Result, ok, ◌>>=◌, str_eq,
  if◌then◌else◌,
}
use boostlock.Prelude.Int.{ℤ}
use boostlock.Prelude.Dict.{String_eq}
use boostlock.Sysfs.Policy.{
  Control, boost, cpb, energy_performance_preference, energy_perf_bias, PlanError,
}
use boostlock.Sysfs.CpuRange.{parse_cpu_range}
use boostlock.Sysfs.Discovery.{Tree, read_path, cpu_path, get_online_cpus}

-- The values of the nodes and of the controls; a control without a path has none.
pub record NodeValues : Type 0 where
  pub governor : Option String
  pub available_governors : Option String
  pub current_frequency : Option String
  pub active_min_frequency : Option String
  pub active_max_frequency : Option String
  pub hardware_min_frequency : Option String
  pub hardware_max_frequency : Option String
  pub boost : Option String
  pub cpb : Option String
  pub energy_performance_preference : Option String
  pub energy_perf_bias : Option String
  pub driver : Option String

abbrev pub is_empty : List ℤ → Bool
is_empty [] = true
is_empty _ = false

-- `not value`
abbrev pub is_blank : Option String → Bool
is_blank none = true
is_blank (some value) = str_eq value ""

module _ (tree : Tree) where
  open tree use {root, is_file, is_dir, resolve, join, text}

  -- the first of the two lists that is not blank
  abbrev range_of : Option String → List ℤ → List ℤ
  range_of none otherwise = otherwise
  range_of (some value) otherwise =
      if str_eq value "" then otherwise else parse_cpu_range text (tree.blanks_to_commas value)

  unfoldable pub read_policy_cpus : String → Result PlanError (List ℤ)
  read_policy_cpus path = read_path tree (join path "related_cpus") >>= λ related.
      if is_blank related
      then (read_path tree (join path "affected_cpus") >>= λ affected. ok (range_of affected []))
      else ok (range_of related [])

  abbrev aliasing : String → List ℤ → List ℤ
  aliasing policy_path [] = []
  aliasing policy_path (cpu ∷ cpus) =
      let alias = cpu_path tree cpu "cpufreq" in
      let others = aliasing policy_path cpus in
      if is_dir alias && str_eq (resolve alias) policy_path then cpu ∷ others else others

  unfoldable pub policy_cpus_from_aliases : String → Result PlanError (List ℤ)
  policy_cpus_from_aliases policy_path =
      get_online_cpus tree >>= λ cpus. ok (aliasing policy_path cpus)

  unfoldable pub policy_members : String → Result PlanError (List ℤ)
  unfolding read_policy_cpus policy_cpus_from_aliases
  policy_members path = read_policy_cpus path >>= λ members.
      if is_empty members then policy_cpus_from_aliases path else ok members

  abbrev pub if_file : String → Option String
  if_file path = if is_file path then some path else none

  abbrev or_file : Option String → String → Option String
  or_file none shared = if_file shared
  or_file (some local) shared = some local

  unfoldable pub boost_path : String → Option String
  boost_path policy_path =
      or_file (if_file (join policy_path "boost")) (join root "devices/system/cpu/cpufreq/boost")

  unfoldable pub energy_perf_bias_path : String → List ℤ → Option String
  energy_perf_bias_path policy_path [] = if_file (join policy_path "energy_perf_bias")
  energy_perf_bias_path policy_path (cpu ∷ _) =
      or_file (if_file (join policy_path "energy_perf_bias"))
        (cpu_path tree cpu "power/energy_perf_bias")

  -- the paths of the four optional controls
  unfoldable pub control_path : String → List ℤ → Control → Option String
  unfolding boost_path energy_perf_bias_path
  control_path path members boost = boost_path path
  control_path path members cpb = some (join path "cpb")
  control_path path members energy_performance_preference =
      some (join path "energy_performance_preference")
  control_path path members energy_perf_bias = energy_perf_bias_path path members
  control_path path members _ = none

  abbrev read_control : Option String → Result PlanError (Option String)
  read_control none = ok none
  read_control (some path) = read_path tree path

  -- the reads, in their order
  unfoldable pub read_nodes : String → List ℤ → Result PlanError NodeValues
  unfolding control_path
  read_nodes path members = do
    current ← read_path tree (join path "scaling_governor")
    governors ← read_path tree (join path "scaling_available_governors")
    cur_freq ← read_path tree (join path "scaling_cur_freq")
    min_freq ← read_path tree (join path "scaling_min_freq")
    max_freq ← read_path tree (join path "scaling_max_freq")
    hardware_min ← read_path tree (join path "cpuinfo_min_freq")
    hardware_max ← read_path tree (join path "cpuinfo_max_freq")
    boost_value ← read_control (control_path path members boost)
    cpb_value ← read_control (control_path path members cpb)
    preference ← read_control (control_path path members energy_performance_preference)
    bias ← read_control (control_path path members energy_perf_bias)
    scaling_driver ← read_path tree (join path "scaling_driver")
    ok (record {
      governor = current;
      available_governors = governors;
      current_frequency = cur_freq;
      active_min_frequency = min_freq;
      active_max_frequency = max_freq;
      hardware_min_frequency = hardware_min;
      hardware_max_frequency = hardware_max;
      boost = boost_value;
      cpb = cpb_value;
      energy_performance_preference = preference;
      energy_perf_bias = bias;
      driver = scaling_driver;
    })
