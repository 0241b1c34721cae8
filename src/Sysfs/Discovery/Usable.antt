-- ===== src/Sysfs/Discovery/Usable.antt =====
-- What a usable policy offers to the planning.
use boostlock.Prelude.{
  String, Bool, true, false, not, ◌&&◌, Option, some, List, ok, ok_of_bind, ok_injective, ◌≡◌, refl,
  sym, ap, ◌∙◌, arith,
}
use boostlock.Prelude.Int.{ℤ}
use boostlock.Sysfs.Policy.{governor, active_min_frequency, active_max_frequency, CpufreqPolicy}
use boostlock.Sysfs.Plan.{is_available}
use boostlock.Sysfs.Discovery.{Tree}
use boostlock.Sysfs.Discovery.Inventory.{
  NodeValues, is_empty, is_blank, if_file, policy_members, read_nodes,
}
use boostlock.Sysfs.Discovery.Policies.{
  is_none, demoted, found, parse_optional_int, capability_state, text_capability, number_capability,
  capability, writable_path, policy_of, inventory_cpufreq_policy,
}

demoted_found :
    (test b : Bool) (value : Option String)
    → is_available (demoted test (found b value)) ≡ true
    → (test ≡ false) × (b ≡ true)
demoted_found test b value h = ground arith

all_of :
    (a b c d : Bool)
    → (not a && (b && (c && d))) ≡ true
    → (a ≡ false) × (b ≡ true) × (c ≡ true) × (d ≡ true)
all_of a b c d h = ground arith

module _ (tree : Tree) where
  open tree use {is_file, join}

  if_file-some : (path : String) → is_file path ≡ true → if_file tree path ≡ some path
  if_file-some path h = rw h refl

  -- The CPUs, the values and the files of a policy that the engine and the plan rely on.
  pub record IsUsable (path : String) (p : CpufreqPolicy) : Type 0 where
    pub members : is_empty p.cpus ≡ false
    pub governor_read : is_blank p.governor ≡ false
    pub min_read : is_none p.active_min_khz ≡ false
    pub max_read : is_none p.active_max_khz ≡ false
    pub governor_file : p.writable_paths governor ≡ some (join path "scaling_governor")
    pub min_file : p.writable_paths active_min_frequency ≡ some (join path "scaling_min_freq")
    pub max_file : p.writable_paths active_max_frequency ≡ some (join path "scaling_max_freq")

  text_found :
      (path : String) (value : Option String)
      → is_available (text_capability tree (some path) value) ≡ true
      → (is_blank value ≡ false) × (is_file path ≡ true)
  unfolding text_capability capability_state
  text_found path value h = demoted_found (is_blank value) (is_file path) value h

  number_found :
      (path : String) (value : Option String)
      → is_available (number_capability tree (some path) value) ≡ true
      → (is_none (parse_optional_int tree value) ≡ false) × (is_file path ≡ true)
  unfolding number_capability capability_state
  number_found path value h =
      demoted_found (is_none (parse_optional_int tree value)) (is_file path) value h

  policy_of-IsUsable :
      (identifier path : String) (members : List ℤ) (nodes : NodeValues)
      → (policy_of tree identifier path members nodes).usable ≡ true
      → IsUsable path (policy_of tree identifier path members nodes)
  unfolding policy_of capability writable_path
  policy_of-IsUsable identifier path members nodes h =
      let state = capability tree path members nodes in
      let (nonempty, g, lo, hi) =
        all_of (is_empty members) (is_available (state governor))
          (is_available (state active_min_frequency)) (is_available (state active_max_frequency))
          h in
      let (g_read, g_file) = text_found (join path "scaling_governor") nodes.governor g in
      let (lo_read, lo_file) =
        number_found (join path "scaling_min_freq") nodes.active_min_frequency lo in
      let (hi_read, hi_file) =
        number_found (join path "scaling_max_freq") nodes.active_max_frequency hi in
      record {
        members = nonempty;
        governor_read = g_read;
        min_read = lo_read;
        max_read = hi_read;
        governor_file = if_file-some (join path "scaling_governor") g_file;
        min_file = if_file-some (join path "scaling_min_freq") lo_file;
        max_file = if_file-some (join path "scaling_max_freq") hi_file;
      }

  -- A policy that the inventory calls usable has a CPU, a governor that is not blank, limits that
  -- are integers, and the files of the three as the paths that the plan writes.
  pub inventory_cpufreq_policy-IsUsable :
      (identifier path : String) (p : CpufreqPolicy)
      → inventory_cpufreq_policy tree identifier path ≡ ok p
      → p.usable ≡ true
      → IsUsable path p
  unfolding inventory_cpufreq_policy
  inventory_cpufreq_policy-IsUsable identifier path p h usable =
      let (members, _, h1) = ok_of_bind (policy_members tree path) _ p h in
      let (nodes, _, h2) = ok_of_bind (read_nodes tree path members) _ p h1 in
      let e = ok_injective (policy_of tree identifier path members nodes) p h2 in
      rw (sym e) (policy_of-IsUsable identifier path members nodes (ap (λ q. q.usable) e ∙ usable))
