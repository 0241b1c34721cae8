-- ===== src/State/Snapshot.antt =====
-- `_create_policy_snapshot` of boostlock/state.py: the original values of the planned actions, by
-- policy.
pub mod Capture
pub mod Own
use boostlock.Prelude.{
  String, Bool, true, false, Option, none, some, List, [], ◌∷◌, str_eq, if◌then◌else◌,
}
use boostlock.Prelude.Int.{ℤ}
use boostlock.Prelude.Dict.{Dict, String_eq, get, set}
use boostlock.Sysfs.Policy.{
  Control, governor, active_min_frequency, active_max_frequency, boost, cpb,
  energy_performance_preference, energy_perf_bias, CpufreqPolicy, PolicyApplyAction,
}

pub record PolicyStateSnapshot : Type 0 where
  pub policy_id : String
  pub cpus : List ℤ
  pub governor : Option String
  pub scaling_min_freq : Option ℤ
  pub scaling_max_freq : Option ℤ
  pub boost : Option String
  pub cpb : Option String
  pub epp : Option String
  pub epb : Option String

abbrev empty_snapshot : String → List ℤ → PolicyStateSnapshot
empty_snapshot id members = record {
  policy_id = id;
  cpus = members;
  governor = none;
  scaling_min_freq = none;
  scaling_max_freq = none;
  boost = none;
  cpb = none;
  epp = none;
  epb = none;
}

-- the dict comprehension over `discover_cpufreq_policies()`
unfoldable pub by_identifier :
    List CpufreqPolicy → Dict String CpufreqPolicy → Dict String CpufreqPolicy
by_identifier [] found = found
by_identifier (p ∷ rest) found = by_identifier rest (set p.identifier p found)

-- a number that does not parse is left out
abbrev or_kept : Option ℤ → Option ℤ → Option ℤ
or_kept none kept = kept
or_kept (some v) kept = some v

-- whether `fields` has the control
unfoldable pub has_field : Control → Bool
has_field governor = true
has_field active_min_frequency = true
has_field active_max_frequency = true
has_field boost = true
has_field cpb = true
has_field energy_performance_preference = true
has_field energy_perf_bias = true
has_field _ = false

-- `parse_int` is Python's `int` on a string.
module _ (parse_int : String → Option ℤ) where
  unfoldable pub set_field : Control → String → PolicyStateSnapshot → PolicyStateSnapshot
  set_field governor v p = record p { governor = some v }
  set_field active_min_frequency v p = record p {
    scaling_min_freq = or_kept (parse_int v) p.scaling_min_freq;
  }
  set_field active_max_frequency v p = record p {
    scaling_max_freq = or_kept (parse_int v) p.scaling_max_freq;
  }
  set_field boost v p = record p { boost = some v }
  set_field cpb v p = record p { cpb = some v }
  set_field energy_performance_preference v p = record p { epp = some v }
  set_field energy_perf_bias v p = record p { epb = some v }
  set_field _ v p = p

  -- `setdefault`
  abbrev snapshot_or : Option PolicyStateSnapshot → String → List ℤ → PolicyStateSnapshot
  snapshot_or none id members = empty_snapshot id members
  snapshot_or (some p) id members = p

  -- one turn of the loop over the actions
  unfoldable pub capture :
      Dict String CpufreqPolicy
      → PolicyApplyAction
      → Dict String PolicyStateSnapshot
      → Dict String PolicyStateSnapshot
  unfolding set_field
  capture discovered a snapshots =
      if str_eq a.policy_id "pm_qos"
      then snapshots
      else (if has_field a.control
          then elim (get a.policy_id discovered) [
            | none ↦ snapshots
            | some policy ↦
                set a.policy_id
                  (set_field a.control a.original_value
                    (snapshot_or (get a.policy_id snapshots) a.policy_id policy.cpus))
                  snapshots
          ]
          else snapshots)

  unfoldable pub capture_all :
      Dict String CpufreqPolicy
      → List PolicyApplyAction
      → Dict String PolicyStateSnapshot
      → Dict String PolicyStateSnapshot
  unfolding capture
  capture_all discovered [] snapshots = snapshots
  capture_all discovered (a ∷ rest) snapshots =
      capture_all discovered rest (capture discovered a snapshots)

  unfoldable pub create_policy_snapshot :
      List CpufreqPolicy → List PolicyApplyAction → Dict String PolicyStateSnapshot
  unfolding by_identifier capture_all
  create_policy_snapshot policies actions = capture_all (by_identifier policies []) actions []
