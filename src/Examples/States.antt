-- ===== src/Examples/States.antt =====
-- Runs of boostlock/state.py: one policy, saved and restored.
use boostlock.Prelude.{
  ◌≡◌, refl, true, arith, List, [], ◌∷◌, Option, none, some, String, Bool, ok, err, Result, str_eq,
  if◌then◌else◌, ◌||◌,
}
use boostlock.Prelude.Int.{ℤ, pos, leb_ℤ}
use boostlock.Prelude.Dict.{get, set, String_eq}
use boostlock.Sysfs.Policy.{
  available, governor, active_min_frequency, active_max_frequency, Control, CpufreqPolicy,
  PolicyApplyAction,
}
use boostlock.State.Snapshot.{PolicyStateSnapshot, by_identifier, create_policy_snapshot}
use boostlock.State.Snapshot.Own.{saved_of, create_policy_snapshot-saved_of}
use boostlock.State.Restore.{restore_policy_bounds}
use boostlock.State.Restore.Bounds.{IsCpufreq, Restored, restore_policy_bounds-Restored}

abbrev files_of : Control → Option String
files_of active_min_frequency = some "scaling_min_freq"
files_of active_max_frequency = some "scaling_max_freq"
files_of governor = some "scaling_governor"
files_of _ = none

abbrev pub policy : CpufreqPolicy
policy = record {
  identifier = "policy0";
  path = "/sys/devices/system/cpu/cpufreq/policy0";
  cpus = pos 0 ∷ pos 1 ∷ [];
  driver = none;
  governor = some "powersave";
  available_governors = "performance" ∷ "powersave" ∷ [];
  current_freq_khz = none;
  active_min_khz = some (pos 4000000);
  active_max_khz = some (pos 4000000);
  hardware_min_khz = some (pos 400000);
  hardware_max_khz = some (pos 4500000);
  controls = λ control. none;
  capabilities = λ control. available;
  writable_paths = files_of;
  skipped_controls = [];
  usable = true;
}

abbrev action : PolicyApplyAction
action = record {
  policy_id = "policy0";
  control = governor;
  path = "scaling_governor";
  value = "performance";
  original_value = "powersave";
}

-- the minimum of the policy, and a control of another one
abbrev minimum : PolicyApplyAction
minimum = record action { control = active_min_frequency; original_value = "400000" }

abbrev foreign : PolicyApplyAction
foreign = record action { policy_id = "policy1"; original_value = "ondemand" }

abbrev actions : List PolicyApplyAction
actions = action ∷ foreign ∷ minimum ∷ []

abbrev read_number : String → Option ℤ
read_number text = if str_eq text "400000" then some (pos 400000) else none

discovered : get "policy0" (by_identifier (policy ∷ []) []) ≡ some policy
unfolding get set by_identifier
discovered = refl

create_policy_snapshot-saved_of_example :
    get "policy0" (create_policy_snapshot read_number (policy ∷ []) actions)
    ≡ saved_of read_number policy "policy0" actions
create_policy_snapshot-saved_of_example =
    create_policy_snapshot-saved_of read_number (policy ∷ []) policy "policy0" actions discovered
      refl

-- The two files, for a saved interval from 400000 to 3600000.
abbrev kernel_write : String → String → ℤ × ℤ → Result String (Unit {0}) × (ℤ × ℤ)
kernel_write path text (low, high) =
    if str_eq path "scaling_min_freq"
    then (if leb_ℤ (pos 400000) high
        then (ok tt, (pos 400000, high))
        else (err "EINVAL", (low, high)))
    else (if leb_ℤ low (pos 3600000)
        then (ok tt, (low, pos 3600000))
        else (err "EINVAL", (low, high)))

abbrev there : String → ℤ × ℤ → Bool
there path s = str_eq path "scaling_min_freq" || str_eq path "scaling_max_freq"

abbrev low_of : ℤ × ℤ → ℤ
low_of s = s.0

abbrev high_of : ℤ × ℤ → ℤ
high_of s = s.1

kernel :
    IsCpufreq there kernel_write "scaling_min_freq" "scaling_max_freq" low_of high_of
      (pos 400000)
      (pos 3600000)
kernel = record {
  min_there = λ s. refl;
  max_there = λ s. refl;
  min_taken = λ s h. (ground arith, ground arith, ground arith);
  max_taken = λ s h. (ground arith, ground arith, ground arith);
}

abbrev saved : PolicyStateSnapshot
saved = record {
  policy_id = "policy0";
  cpus = pos 0 ∷ pos 1 ∷ [];
  governor = some "powersave";
  scaling_min_freq = some (pos 400000);
  scaling_max_freq = some (pos 3600000);
  boost = none;
  cpb = none;
  epp = none;
  epb = none;
}

restore_policy_bounds-Restored_example :
    Restored
      (λ path. path)
      there
      kernel_write
      "scaling_min_freq"
      "scaling_max_freq"
      low_of
      high_of
      (pos 400000)
      (pos 3600000)
      kernel
      (restore_policy_bounds
        (λ path. path)
        there
        kernel_write
        policy
        saved
        (pos 4000000, pos 4000000))
restore_policy_bounds-Restored_example =
    restore_policy_bounds-Restored (λ path. path) there kernel_write "scaling_min_freq"
      "scaling_max_freq" low_of high_of (pos 400000) (pos 3600000) kernel policy saved
      (pos 4000000, pos 4000000) refl refl refl refl refl refl (omega arith) (omega arith)
