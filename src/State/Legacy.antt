-- ===== src/State/Legacy.antt =====
-- `_restore_legacy_snapshot`, `restore_fallback` and `restore` of boostlock/state.py.
--
-- `S` is the state of the sysfs files. `online`, `discover`, `resolve` and `write_absolute` are
-- `get_online_cpus`, `discover_cpufreq_policies`, `Path.resolve` and `_write_absolute_path`.

pub mod Order
use Prim.Native.Char.{code}
use Prim.Native.String.{◌++◌ as ◌++ₛ◌, [] as []ₛ, ◌∷◌ as ◌∷ₛ◌}
use boostlock.Prelude.{
  String, Bool, true, false, ◌&&◌, Option, none, some, List, [], ◌∷◌, ◌++◌, Result, ok, err, str_eq,
  ◌==◌, if◌then◌else◌,
}
use boostlock.Prelude.Int.{ℤ, pos, negsuc, ltb_ℤ}
use boostlock.Prelude.Decimal.{str_ℤ}
use boostlock.Prelude.Dict.{Dict, String_eq}
use boostlock.Sysfs.Policy.{CpufreqPolicy}
use boostlock.Sysfs.Plan.{elem}
use boostlock.Sysfs.Access.{
  SysfsError, SysfsFiles, Effect, and_then, ignoring, write_file, cpu_file, cpufreq,
  get_available_governors, get_scaling_min_freq, get_scaling_max_freq, get_cpuinfo_min_freq,
  get_cpuinfo_max_freq, set_scaling_governor, set_scaling_min_freq, set_scaling_max_freq, set_boost,
  set_cpb, set_energy_performance_preference, set_energy_perf_bias,
}
use boostlock.State.Snapshot.{PolicyStateSnapshot}
use boostlock.State.Restore.{restore_policy_snapshot}

pub record CpuStateSnapshot : Type 0 where
  pub cpu_id : ℤ
  pub governor : Option String
  pub scaling_min_freq : Option ℤ
  pub scaling_max_freq : Option ℤ
  pub epp : Option String
  pub epb : Option ℤ
  pub cpb : Option Bool
  pub cpuidle_states : Dict String ℤ

-- without the time and the host
pub record SystemStateSnapshot : Type 0 where
  pub policies : Dict String PolicyStateSnapshot
  pub global_boost : Option Bool
  pub cpus : List (ℤ × CpuStateSnapshot)

-- the entries of `errors`
pub data LegacyWarning : Type 0 where
  boost_failed : SysfsError → LegacyWarning
  bounds_failed governor_failed : ℤ → SysfsError → LegacyWarning

-- the errors and the files
pub record LegacyProgress (S : Type 0) : Type 0 where
  pub errors : List LegacyWarning
  pub files : S

module _ {S : Type 0} (fs : SysfsFiles S) (online : S → Result SysfsError (List ℤ)) where
  -- `get_scaling_max_freq(cpu, default=0) or 0`
  abbrev or_zero_khz : Option ℤ → ℤ
  or_zero_khz none = pos 0
  or_zero_khz (some n) = n

  abbrev pub write_bound : ℤ → String → ℤ → S → Effect fs
  write_bound cpu name value s =
      ignoring fs (write_file fs true (cpufreq fs cpu name) (str_ℤ value) s)

  abbrev pub write_bounds : ℤ → ℤ → Option ℤ → Option ℤ → S → Effect fs
  write_bounds cpu current_max none none s = (ok tt, s)
  write_bounds cpu current_max (some low) none s = write_bound cpu "scaling_min_freq" low s
  write_bounds cpu current_max none (some high) s = write_bound cpu "scaling_max_freq" high s
  write_bounds cpu current_max (some low) (some high) s =
      if ltb_ℤ current_max low
      then and_then fs (write_bound cpu "scaling_max_freq" high s)
          (write_bound cpu "scaling_min_freq" low)
      else and_then fs (write_bound cpu "scaling_min_freq" low s)
          (write_bound cpu "scaling_max_freq" high)

  abbrev bounds_after :
      ℤ
      → Option ℤ
      → Option ℤ
      → Result SysfsError (Option ℤ)
      → Result SysfsError (Option ℤ)
      → S
      → Effect fs
  bounds_after cpu low high (err e) current_max s = (err e, s)
  bounds_after cpu low high (ok _) (err e) s = (err e, s)
  bounds_after cpu low high (ok _) (ok current_max) s =
      write_bounds cpu (or_zero_khz current_max) low high s

  -- part A of the loop over the CPUs; both bounds are read first
  unfoldable pub restore_cpu_bounds : ℤ → Option ℤ → Option ℤ → S → Effect fs
  restore_cpu_bounds cpu low high s =
      bounds_after cpu low high (get_scaling_min_freq fs (some (pos 0)) cpu s)
        (get_scaling_max_freq fs (some (pos 0)) cpu s) s

  -- an exception becomes an error of the restore, and the loop goes on
  abbrev warned : (SysfsError → LegacyWarning) → Effect fs → LegacyProgress S → LegacyProgress S
  warned warning (ok _, s) g = record g { files = s }
  warned warning (err e, s) g = record { errors = g.errors ++ warning e ∷ []; files = s }

  -- an exception is dropped
  abbrev pub dropped : Effect fs → S
  dropped (_, s) = s

  -- `if cpu_snap.governor`
  abbrev restore_governor : ℤ → Option String → LegacyProgress S → LegacyProgress S
  restore_governor cpu none g = g
  restore_governor cpu (some governor) g =
      let tried =
        warned (governor_failed cpu) (set_scaling_governor fs governor (cpu ∷ []) g.files) g in
      if str_eq governor "" then g else tried

  abbrev restore_epp : ℤ → Option String → S → S
  restore_epp cpu none s = s
  restore_epp cpu (some epp) s =
      let tried = dropped (set_energy_performance_preference fs epp (cpu ∷ []) s) in
      if str_eq epp "" then s else tried

  abbrev restore_epb : ℤ → Option ℤ → S → S
  restore_epb cpu none s = s
  restore_epb cpu (some epb) s = dropped (set_energy_perf_bias fs epb (cpu ∷ []) s)

  abbrev restore_cpb : ℤ → Option Bool → S → S
  restore_cpb cpu none s = s
  restore_cpb cpu (some cpb) s = dropped (set_cpb fs cpb (cpu ∷ []) s)

  abbrev pub idle_path : ℤ → String → String
  idle_path cpu state = cpu_file fs cpu ("cpuidle/" ++ₛ state ++ₛ "/disable")

  unfoldable pub restore_idle : ℤ → Dict String ℤ → S → S
  restore_idle cpu [] s = s
  restore_idle cpu ((state, disable) ∷ rest) s =
      restore_idle cpu rest
        (dropped (ignoring fs (write_file fs true (idle_path cpu state) (str_ℤ disable) s)))

  -- the body of the loop over the CPUs
  unfoldable pub restore_cpu : ℤ → CpuStateSnapshot → LegacyProgress S → LegacyProgress S
  unfolding restore_cpu_bounds restore_idle
  restore_cpu cpu snap g =
      let bounds = restore_cpu_bounds cpu snap.scaling_min_freq snap.scaling_max_freq g.files in
      let governed = restore_governor cpu snap.governor (warned (bounds_failed cpu) bounds g) in
      let biased = restore_epb cpu snap.epb (restore_epp cpu snap.epp governed.files) in
      record governed {
        files = restore_idle cpu snap.cpuidle_states (restore_cpb cpu snap.cpb biased);
      }

  unfoldable pub restore_cpus : List (ℤ × CpuStateSnapshot) → LegacyProgress S → LegacyProgress S
  unfolding restore_cpu
  restore_cpus [] g = g
  restore_cpus ((cpu, snap) ∷ rest) g = restore_cpus rest (restore_cpu cpu snap g)

  abbrev restore_boost : Option Bool → LegacyProgress S → LegacyProgress S
  restore_boost none g = g
  restore_boost (some enable) g = warned boost_failed (set_boost fs online enable g.files) g

  -- the files and the errors after `_restore_legacy_snapshot`
  unfoldable pub restore_legacy_snapshot : SystemStateSnapshot → S → LegacyProgress S
  unfolding restore_cpus
  restore_legacy_snapshot snap s =
      restore_cpus snap.cpus (restore_boost snap.global_boost (record { errors = []; files = s }))
