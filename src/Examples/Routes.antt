-- ===== src/Examples/Routes.antt =====
-- A run of the policy transaction of boostlock/daemon.py on a device that takes the lock.
use boostlock.Prelude.{ℕ, suc, ◌-◌, String, none, some, [], ◌∷◌, ok, true, false, refl}
use boostlock.Prelude.Int.{pos}
use boostlock.Sysfs.Policy.{governor, PolicyApplyAction, PolicyApplyPlan}
use boostlock.Sysfs.Execute.{opens}
use boostlock.PmQos.{Os, PmQosController}
use boostlock.Daemon.Transaction.{Files, apply_startup_policy_transaction}
use boostlock.Daemon.Transaction.Routes.{Taken, apply_startup_policy_transaction-Taken}

-- the state is the number of open descriptors
abbrev os : Os ℕ
os = record {
  open_device = λ n. (ok n, suc n);
  seek_start = λ fd n. n;
  write_device = λ fd v n. (ok tt, n);
  close_device = λ fd n. (ok tt, n - 1);
  state_entries = λ n. ok [];
  read_file = λ path n. ok none;
  write_file = λ optional path value n. (ok tt, n);
}

abbrev files : Files String ℕ
files = record {
  write_absolute = λ path value n. (ok tt, n);
  write_file = λ path value n. (ok tt, n);
  open_path = λ path. opens;
  open_device = opens;
  device_exists = λ n. true;
  device_path = "/dev/cpu_dma_latency";
  resolve = λ path. path;
  int = λ text. some (pos 0);
}

abbrev unlocked : PmQosController
unlocked = record {
  enable_sysfs_fallback = true;
  min_fallback_state_index = pos 1;
  target_latency_us = pos 0;
  fd = none;
  is_locked = false;
  using_fallback = false;
  fallback_saved_states = [];
}

abbrev set_governor : PolicyApplyAction
set_governor = record {
  policy_id = "policy0";
  control = governor;
  path = "scaling_governor";
  value = "performance";
  original_value = "powersave";
}

abbrev plan : PolicyApplyPlan
plan = record { actions = set_governor ∷ []; skipped_controls = []; preflight_paths = [] }

apply_startup_policy_transaction-Taken_example :
    Taken os files
      (pos 0)
      unlocked
      3
      (apply_startup_policy_transaction os files (pos 0) plan unlocked 3)
apply_startup_policy_transaction-Taken_example =
    apply_startup_policy_transaction-Taken os files (pos 0) plan unlocked 3 refl (refl, tt) refl
