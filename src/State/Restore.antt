-- ===== src/State/Restore.antt =====
-- `_restore_policy_snapshot` of boostlock/state.py and what it calls.
--
-- `S` is the state of the files. `is_file` and `write` are `Path.is_file` and the file write of
-- `_write_absolute_path`, and `resolve` is `Path.resolve`.
pub mod Bounds
use boostlock.Prelude.{
  String, Bool, true, false, Option, none, some, List, [], ◌∷◌, ◌++◌, Result, ok, err,
  if◌then◌else◌,
}
use boostlock.Prelude.Int.{ℤ, ltb_ℤ}
use boostlock.Prelude.Decimal.{str_ℤ}
use boostlock.Prelude.Dict.{Dict, String_eq, get}
use boostlock.Sysfs.Policy.{
  Control, governor, active_min_frequency, active_max_frequency, boost, cpb,
  energy_performance_preference, energy_perf_bias, CpufreqPolicy,
}
use boostlock.Sysfs.Plan.{elem}
use boostlock.State.Snapshot.{PolicyStateSnapshot, by_identifier}

-- StateRestoreError, FileNotFoundError, or what the write raised
pub data RestoreError (X : Type 0) : Type 0 where
  invalid_bounds bounds_unavailable no_longer_available : RestoreError X
  write_failed : X → RestoreError X

-- the entries of `errors`
pub data RestoreWarning (X : Type 0) : Type 0 where
  bounds_failed : String → RestoreError X → RestoreWarning X
  control_failed : Control → String → RestoreError X → RestoreWarning X
  policy_gone : String → RestoreWarning X
  discovery_failed : X → RestoreWarning X

-- what the loops carry: `restored_optional_paths`, `errors` and the files
pub record Progress (X S : Type 0) : Type 0 where
  pub restored_optional_paths : List String
  pub errors : List (RestoreWarning X)
  pub files : S

module _ {X S : Type 0} (resolve : String → String) (is_file : String → S → Bool)
    (write : String → String → S → Result X (Unit {0}) × S) where
  abbrev Written : Type 0
  Written = Result (RestoreError X) (Unit {0}) × S

  abbrev written : Result X (Unit {0}) × S → Written
  written (ok u, s) = (ok u, s)
  written (err x, s) = (err (write_failed x), s)

  unfoldable pub write_live_policy_path : Option String → String → S → Written
  write_live_policy_path none value s = (err no_longer_available, s)
  write_live_policy_path (some path) value s =
      if is_file path s then written (write path value s) else (err no_longer_available, s)

  -- the second write is made where the first one succeeds
  abbrev then_write : Written → Option String → String → Written
  then_write (ok _, s) path value = write_live_policy_path path value s
  then_write (err e, s) path value = (err e, s)

  unfoldable pub write_both : Option String → ℤ → Option String → ℤ → S → Written
  write_both first v second w s =
      then_write (write_live_policy_path first (str_ℤ v) s) second (str_ℤ w)

  abbrev in_order : Option ℤ → Option ℤ → Option String → Option String → ℤ → ℤ → S → Written
  in_order none _ min_path max_path snap_min snap_max s = (err bounds_unavailable, s)
  in_order (some _) none min_path max_path snap_min snap_max s = (err bounds_unavailable, s)
  in_order (some _) (some current_max) min_path max_path snap_min snap_max s =
      if ltb_ℤ current_max snap_min
      then write_both max_path snap_max min_path snap_min s
      else write_both min_path snap_min max_path snap_max s

  abbrev restore_bounds : CpufreqPolicy → Option ℤ → Option ℤ → S → Written
  restore_bounds p none none s = (ok tt, s)
  restore_bounds p none (some snap_max) s =
      write_live_policy_path (p.writable_paths active_max_frequency) (str_ℤ snap_max) s
  restore_bounds p (some snap_min) none s =
      write_live_policy_path (p.writable_paths active_min_frequency) (str_ℤ snap_min) s
  restore_bounds p (some snap_min) (some snap_max) s =
      if ltb_ℤ snap_max snap_min
      then (err invalid_bounds, s)
      else in_order p.active_min_khz p.active_max_khz (p.writable_paths active_min_frequency)
          (p.writable_paths active_max_frequency) snap_min snap_max s

  unfoldable pub restore_policy_bounds : CpufreqPolicy → PolicyStateSnapshot → S → Written
  unfolding write_live_policy_path write_both
  restore_policy_bounds p snapshot s =
      restore_bounds p snapshot.scaling_min_freq snapshot.scaling_max_freq s

  abbrev note : RestoreWarning X → Progress X S → Progress X S
  note w g = record g { errors = g.errors ++ w ∷ [] }

  abbrev bounds_done : String → Written → Progress X S → Progress X S
  bounds_done id (ok _, s) g = record g { files = s }
  bounds_done id (err e, s) g = note (bounds_failed id e) (record g { files = s })

  -- whether the value was written, and the progress
  abbrev value_done : Control → String → Written → Progress X S → Bool × Progress X S
  value_done control id (ok _, s) g = (true, record g { files = s })
  value_done control id (err e, s) g =
      (false, note (control_failed control id e) (record g { files = s }))

  unfoldable pub restore_policy_value :
      CpufreqPolicy → Control → Option String → Progress X S → Bool × Progress X S
  unfolding write_live_policy_path
  restore_policy_value p control none g = (false, g)
  restore_policy_value p control (some value) g =
      value_done control p.identifier
        (write_live_policy_path (p.writable_paths control) value g.files) g

  abbrev is_restored : Option String → Progress X S → Bool
  is_restored none g = false
  is_restored (some path) g = elem (resolve path) g.restored_optional_paths

  abbrev remember : Option String → Bool × Progress X S → Progress X S
  remember none (_, g) = g
  remember (some path) (false, g) = g
  remember (some path) (true, g) = record g {
    restored_optional_paths = resolve path ∷ g.restored_optional_paths;
  }

  -- the loop over the optional controls
  unfoldable pub restore_optional :
      CpufreqPolicy → List (Control × Option String) → Progress X S → Progress X S
  unfolding restore_policy_value
  restore_optional p [] g = g
  restore_optional p ((control, value) ∷ rest) g =
      let path = p.writable_paths control in
      let next = remember path (restore_policy_value p control value g) in
      restore_optional p rest (if is_restored path g then g else next)

  abbrev optional_values : PolicyStateSnapshot → List (Control × Option String)
  optional_values snapshot =
      (boost, snapshot.boost)
      ∷ (cpb, snapshot.cpb)
      ∷ (energy_performance_preference, snapshot.epp)
      ∷ (energy_perf_bias, snapshot.epb)
      ∷ []

  unfoldable pub restore_one_policy :
      CpufreqPolicy → PolicyStateSnapshot → Progress X S → Progress X S
  unfolding restore_policy_bounds restore_policy_value restore_optional
  restore_one_policy p snapshot g =
      let bounded = bounds_done p.identifier (restore_policy_bounds p snapshot g.files) g in
      let governed = restore_policy_value p governor snapshot.governor bounded in
      restore_optional p (optional_values snapshot) governed.1

  -- the loop over the saved policies
  unfoldable pub restore_policies :
      Dict String CpufreqPolicy → Dict String PolicyStateSnapshot → Progress X S → Progress X S
  unfolding restore_one_policy
  restore_policies current [] g = g
  restore_policies current ((id, snapshot) ∷ rest) g =
      restore_policies current rest (elim (get id current) [
        | none ↦ note (policy_gone id) g
        | some p ↦ restore_one_policy p snapshot g
      ])

  abbrev start_restore :
      Result X (List CpufreqPolicy) → S → Dict String CpufreqPolicy × Progress X S
  start_restore (ok policies) s =
      (by_identifier policies [], record { restored_optional_paths = []; errors = []; files = s })
  start_restore (err x) s =
      ([], record { restored_optional_paths = []; errors = discovery_failed x ∷ []; files = s })

  -- the files and the errors after `_restore_policy_snapshot`, given what discovery answers
  unfoldable pub restore_policy_snapshot :
      Result X (List CpufreqPolicy) → Dict String PolicyStateSnapshot → S → Progress X S
  unfolding restore_policies
  restore_policy_snapshot discovered snapshots s =
      let (current, g) = start_restore discovered s in restore_policies current snapshots g
