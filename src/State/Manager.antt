-- ===== src/State/Manager.antt =====
-- `restore`, `restore_fallback` and `_finish_restore` of `StateSnapshotManager` in boostlock/state.py.

use Prim.Native.Char.{code}
use Prim.Native.String.{[] as []ₛ, ◌∷◌ as ◌∷ₛ◌, ◌++◌ as ◌++ₛ◌}
use boostlock.Prelude.{
  String, Bool, true, false, ◌&&◌, Option, none, some, List, [], ◌∷◌, Result, ok, err, ◌==◌,
  if◌then◌else◌,
}
use boostlock.Prelude.Int.{ℤ, pos, negsuc}
use boostlock.Prelude.Dict.{String_eq}
use boostlock.Sysfs.Policy.{CpufreqPolicy}
use boostlock.Sysfs.Plan.{elem}
use boostlock.Sysfs.Access.{
  SysfsError, SysfsFiles, Effect, and_then, ignoring, write_file, cpu_file, get_available_governors,
  get_cpuinfo_min_freq, get_cpuinfo_max_freq, set_scaling_governor, set_scaling_min_freq,
  set_scaling_max_freq, set_boost,
}
use boostlock.State.Restore.{restore_policy_snapshot}
use boostlock.State.Legacy.{SystemStateSnapshot, dropped, idle_path, restore_legacy_snapshot}

-- the file at `snapshot_file`
pub data SnapshotFile : Type 0 where
  no_file unreadable : SnapshotFile
  saved : SystemStateSnapshot → SnapshotFile

pub record StateSnapshotManager (S : Type 0) : Type 0 where
  pub snapshot : Option SystemStateSnapshot
  pub snapshot_file : SnapshotFile
  pub files : S

-- prefix == text[:len(prefix)]
unfoldable pub starts_with : String → String → Bool
starts_with []ₛ text = true
starts_with (c ∷ₛ cs) []ₛ = false
starts_with (c ∷ₛ cs) (d ∷ₛ ds) = let rest = starts_with cs ds in (code c == code d) && rest

-- the first of the preferred governors that the CPU has, "powersave" where it has none
unfoldable pub chosen_governor : List String → List String → String
chosen_governor [] available = "powersave"
chosen_governor (g ∷ rest) available =
    let later = chosen_governor rest available in if elem g available then g else later

abbrev pub preferred : List String
preferred = "schedutil" ∷ "ondemand" ∷ "powersave" ∷ []

abbrev is_zero : ℤ → Bool
is_zero (pos n) = n == 0
is_zero (negsuc n) = false

module _ {S : Type 0} (fs : SysfsFiles S) (online : S → Result SysfsError (List ℤ)) where
  -- `if hw_min:` and the write, whose exception is dropped
  abbrev reset_bound : (ℤ → S → Effect fs) → Option ℤ → S → S
  reset_bound set_bound none s = s
  reset_bound set_bound (some n) s =
      let tried = dropped fs online (set_bound n s) in if is_zero n then s else tried

  -- the loop over the entries of the cpuidle directory, whose exceptions are not caught
  unfoldable pub enable_states : ℤ → List String → S → Effect fs
  enable_states cpu [] s = (ok tt, s)
  enable_states cpu (state ∷ rest) s =
      let go =
        and_then fs (ignoring fs (write_file fs true (idle_path fs online cpu state) "0" s))
          (enable_states cpu rest) in
      let skip = enable_states cpu rest s in
      if fs.is_dir (cpu_file fs cpu ("cpuidle/" ++ₛ state)) s && starts_with "state" state
      then go
      else skip

  abbrev reset_maximum : ℤ → Result SysfsError (Option ℤ) → S → Effect fs
  reset_maximum cpu (err e) s = (err e, s)
  reset_maximum cpu (ok hw_max) s =
      let s' = reset_bound (λ n. set_scaling_max_freq fs n (cpu ∷ [])) hw_max s in
      let idle = cpu_file fs cpu "cpuidle" in
      let enabled = enable_states cpu (fs.iterdir idle s') s' in
      if fs.is_dir idle s' then enabled else (ok tt, s')

  abbrev reset_minimum : ℤ → Result SysfsError (Option ℤ) → S → Effect fs
  reset_minimum cpu (err e) s = (err e, s)
  reset_minimum cpu (ok hw_min) s =
      let s' = reset_bound (λ n. set_scaling_min_freq fs n (cpu ∷ [])) hw_min s in
      reset_maximum cpu (get_cpuinfo_max_freq fs none cpu s') s'

  abbrev reset_governor : ℤ → Result SysfsError (List String) → S → Effect fs
  reset_governor cpu (err e) s = (err e, s)
  reset_governor cpu (ok available) s =
      let governor = chosen_governor preferred available in
      let s' = dropped fs online (set_scaling_governor fs governor (cpu ∷ []) s) in
      reset_minimum cpu (get_cpuinfo_min_freq fs (some (pos 1000000)) cpu s') s'

  -- the body of the loop over the online CPUs
  unfoldable pub reset_cpu : ℤ → S → Effect fs
  unfolding chosen_governor enable_states
  reset_cpu cpu s = reset_governor cpu (get_available_governors fs cpu s) s

  unfoldable pub reset_cpus : List ℤ → S → Effect fs
  unfolding reset_cpu
  reset_cpus [] s = (ok tt, s)
  reset_cpus (cpu ∷ rest) s = and_then fs (reset_cpu cpu s) (reset_cpus rest)

  abbrev reset_online : Result SysfsError (List ℤ) → S → Effect fs
  reset_online (err e) s = (err e, s)
  reset_online (ok cpus) s =
      and_then fs (reset_cpus cpus s) λ s'. (ok tt, dropped fs online (set_boost fs online true s'))

  unfoldable pub restore_fallback : S → Effect fs
  unfolding reset_cpus
  restore_fallback s = reset_online (online s) s

  module _ (resolve : String → String)
      (write_absolute : String → String → S → Result SysfsError (Unit {0}) × S)
      (discover : S → Result SysfsError (List CpufreqPolicy)) where
    -- the dispatch on the kind of snapshot
    unfoldable pub restore_files : SystemStateSnapshot → S → S
    restore_files snap s = elim snap.policies [
      | [] ↦ (restore_legacy_snapshot fs online snap s).files
      | p ∷ ps ↦
          (restore_policy_snapshot resolve fs.is_file write_absolute (discover s) (p ∷ ps) s).files
    ]

    abbrev is_there : SnapshotFile → Bool
    is_there no_file = false
    is_there unreadable = true
    is_there (saved snap) = true

    -- the removal of the file, which may fail
    abbrev file_after : Bool → Bool → SnapshotFile → SnapshotFile
    file_after delete unlinked file =
        if delete && (is_there file && unlinked) then no_file else file

    abbrev RestoreResult : Type 0
    RestoreResult = Result SysfsError Bool × StateSnapshotManager S

    -- `_restore_policy_snapshot` or `_restore_legacy_snapshot`, with `_finish_restore`
    unfoldable pub restore_with :
        Bool → Bool → SystemStateSnapshot → StateSnapshotManager S → RestoreResult
    unfolding restore_files
    restore_with delete unlinked snap m = (
      ok true,
      record {
        snapshot = none;
        snapshot_file = file_after delete unlinked m.snapshot_file;
        files = restore_files snap m.files;
      },
    )

    abbrev fallen_back : Effect fs → StateSnapshotManager S → RestoreResult
    fallen_back (ok _, s) m = (ok true, record m { files = s })
    fallen_back (err e, s) m = (err e, record m { files = s })

    unfoldable pub fall_back : StateSnapshotManager S → RestoreResult
    unfolding restore_fallback
    fall_back m = fallen_back (restore_fallback m.files) m

    abbrev restore_file : Bool → Bool → SnapshotFile → StateSnapshotManager S → RestoreResult
    restore_file delete unlinked no_file m = fall_back m
    restore_file delete unlinked unreadable m = fall_back m
    restore_file delete unlinked (saved snap) m = restore_with delete unlinked snap m

    abbrev restore_memory :
        Bool → Bool → Option SystemStateSnapshot → StateSnapshotManager S → RestoreResult
    restore_memory delete unlinked (some snap) m = restore_with delete unlinked snap m
    restore_memory delete unlinked none m = restore_file delete unlinked m.snapshot_file m

    -- `restore`; `unlinked` tells whether the removal of the file succeeds
    unfoldable pub restore :
        Bool → Bool → Option SystemStateSnapshot → StateSnapshotManager S → RestoreResult
    unfolding restore_with fall_back
    restore delete unlinked (some snap) m = restore_with delete unlinked snap m
    restore delete unlinked none m = restore_memory delete unlinked m.snapshot m
