-- ===== src/Examples/Trees.antt =====
-- Runs of the discovery in boostlock/sysfs.py on a small tree: two directories, of which the second
-- resolves to the first.
use boostlock.Prelude.{
  String, Bool, true, false, not, ◌&&◌, Option, none, some, List, [], ◌∷◌, Result, ok, err, ◌≡◌,
  refl, str_eq, sort_by, if◌then◌else◌,
}
use boostlock.Prelude.Int.{ℤ, pos, ◌+ℤ◌, ◌-ℤ◌}
use boostlock.Sysfs.Policy.{CpufreqPolicy, PlanError}
use boostlock.Sysfs.CpuRange.{RangeText, parse_cpu_range}
use boostlock.Sysfs.CpuRange.Members.{IsAscending, has, some_names, parse_cpu_range_lem}
use boostlock.Sysfs.Plan.{elem}
use boostlock.Sysfs.Discovery.{Tree, read_path}
use boostlock.Sysfs.Discovery.Inventory.{NodeValues, policy_members, read_nodes}
use boostlock.Sysfs.Discovery.Policies
use boostlock.Sysfs.Discovery.Policies.{
  policy_of, inventory_cpufreq_policy, discover_cpufreq_policies,
}
use boostlock.Sysfs.Discovery.Distinct.{IsDiscovered, discover_cpufreq_policies-IsDiscovered}
use boostlock.Sysfs.Discovery.Usable.{IsUsable, inventory_cpufreq_policy-IsUsable}

abbrev pair : Bool → Option (String × String)
pair true = some ("0", "2")
pair false = none

abbrev digit : String → Option ℤ
digit text =
    if str_eq text "0"
    then some (pos 0)
    else if str_eq text "1"
    then some (pos 1)
    else if str_eq text "2"
    then some (pos 2)
    else none

abbrev range_text : RangeText
range_text = record {
  strip = λ text. text;
  split_commas = λ text. if str_eq text "1,0-2,x" then "1" ∷ "0-2" ∷ "x" ∷ [] else text ∷ [];
  split_dash = λ part. pair (str_eq part "0-2");
  int = digit;
}

range_test : parse_cpu_range range_text "1,0-2,x" ≡ pos 0 ∷ pos 1 ∷ pos 2 ∷ []
unfolding parse_cpu_range ◌-ℤ◌ ◌+ℤ◌
range_test = refl

parse_cpu_range_lem_example :
    IsAscending (parse_cpu_range range_text "1,0-2,x")
    × ((n : ℤ)
        → has n (parse_cpu_range range_text "1,0-2,x") ≡ (
            not (str_eq (range_text.strip "1,0-2,x") "")
            && some_names range_text n (range_text.split_commas (range_text.strip "1,0-2,x"))))
parse_cpu_range_lem_example = parse_cpu_range_lem range_text "1,0-2,x"

abbrev directory : String → String → String
directory path name = if str_eq path "/sys" then name else if str_eq path "p" then name else path

-- every file is there and holds "1", and each directory has two entries
abbrev tree : Tree
tree = record {
  root = "/sys";
  is_file = λ path. true;
  is_dir = λ path. true;
  read_text = λ path. ok "1";
  resolve = λ path. "p";
  name = λ path. path;
  iterdir = λ path. "policy1" ∷ "policy0" ∷ [];
  join = directory;
  policy_number = λ name.
      if str_eq name "policy0" then some 0 else if str_eq name "policy1" then some 1 else none;
  cpu_number = λ name. none;
  split = λ text. text ∷ [];
  blanks_to_commas = λ text. text;
  str_leb = λ a b. true;
  text = range_text;
}

abbrev returned : Result PlanError (List CpufreqPolicy) → List CpufreqPolicy
returned (ok ps) = ps
returned (err _) = []

abbrev policies : List CpufreqPolicy
policies = returned (discover_cpufreq_policies tree true)

-- the two directories make one policy
discovered : discover_cpufreq_policies tree true ≡ ok policies
unfolding discover_cpufreq_policies Policies.candidates sort_by elem policy_members read_path
    parse_cpu_range read_nodes
discovered = refl

discover_cpufreq_policies-IsDiscovered_example : IsDiscovered tree true policies
discover_cpufreq_policies-IsDiscovered_example =
    discover_cpufreq_policies-IsDiscovered tree true policies discovered

abbrev members : List ℤ
members = pos 1 ∷ []

abbrev nodes : NodeValues
nodes = record {
  governor = some "1";
  available_governors = some "1";
  current_frequency = some "1";
  active_min_frequency = some "1";
  active_max_frequency = some "1";
  hardware_min_frequency = some "1";
  hardware_max_frequency = some "1";
  boost = some "1";
  cpb = some "1";
  energy_performance_preference = some "1";
  energy_perf_bias = some "1";
  driver = some "1";
}

abbrev policy : CpufreqPolicy
policy = policy_of tree "policy0" "p" members nodes

inventoried_test : inventory_cpufreq_policy tree "policy0" "p" ≡ ok policy
unfolding inventory_cpufreq_policy policy_members read_path parse_cpu_range read_nodes
inventoried_test = refl

policy_usable : policy.usable ≡ true
unfolding policy_of
policy_usable = refl

inventory_cpufreq_policy-IsUsable_example : IsUsable tree "p" policy
inventory_cpufreq_policy-IsUsable_example =
    inventory_cpufreq_policy-IsUsable tree "policy0" "p" policy inventoried_test policy_usable
