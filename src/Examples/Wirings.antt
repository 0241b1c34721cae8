-- ===== src/Examples/Wirings.antt =====
-- Runs of boostlock/daemon.py on the modules of the latency lock, the PID file and the transaction: a
-- start that fails once all three have been made, and a stop.
use boostlock.Prelude.{Bool, true, false, none, some, [], ok, ◌≡◌, refl}
use boostlock.Prelude.Int.{pos}
use boostlock.Prelude.Fixed.{fixed}
use boostlock.Config.{default}
use boostlock.Sysfs.Execute.{opens, execute_policy_apply_plan}
use boostlock.Prelude.Decimal.{str_ℤ}
use boostlock.PmQos
use boostlock.PmQos.Planned.{select_planned_route}
use boostlock.PmQos.{Os, PmQosController}
use boostlock.Daemon.Subsystems.{Subsystems}
use boostlock.Daemon.Lifecycle
use boostlock.Daemon.Lifecycle.{
  DaemonState, stopped, running, Cleanup, BoostLockDaemon, start, stop,
}
use boostlock.Daemon.Lifecycle.Release.{
  IsReleasing, AfterStart, AfterStop, start-AfterStart, stop-AfterStop,
}
use boostlock.Daemon.Pid.{acquire, PidOs}
use boostlock.Daemon.Transaction.{Files, apply_startup_policy_transaction}
use boostlock.Daemon.Wiring.{Raised, Wired, wired}
use boostlock.Daemon.Wiring.Releasing.{IsQuiet, wired_holds, wired-IsReleasing}
use boostlock.Examples.Daemons.{Held, subsystems, releasing}

abbrev os : Os Held
os = record {
  open_device = λ s. (ok 3, s);
  seek_start = λ fd s. s;
  write_device = λ fd v s. (ok tt, s);
  close_device = λ fd s. (ok tt, s);
  state_entries = λ s. ok [];
  read_file = λ path s. ok none;
  write_file = λ optional path value s. (ok tt, s);
}

abbrev pid_os : PidOs Held
pid_os = record {
  make_parent = λ s. (ok tt, s);
  open_file = λ s. (ok 4, s);
  lock_exclusive = λ fd s. (ok tt, s);
  unlock = λ fd s. (ok tt, s);
  close = λ fd s. (ok tt, s);
  truncate = λ fd s. (ok tt, s);
  seek_start = λ fd s. (ok tt, s);
  write_own_pid = λ fd s. (ok tt, s);
  sync = λ fd s. (ok tt, s);
  unlink = λ s. (ok tt, s);
  is_file = λ s. false;
  read_text = λ s. ok "";
  kill_0 = λ pid s. ok tt;
  strip = λ text. text;
  int = λ text. none;
}

abbrev files : Files Bool Held
files = record {
  write_absolute = λ path value s. (ok tt, s);
  write_file = λ path value s. (ok tt, s);
  open_path = λ path. opens;
  open_device = opens;
  device_exists = λ s. true;
  device_path = "/dev/cpu_dma_latency";
  resolve = λ path. path;
  int = λ text. some (pos 0);
}

abbrev WiredHere : Bool → Type 0
WiredHere hot = Wired fixed os pid_os files (pos 0) (subsystems hot)

abbrev sys : (hot : Bool) → Subsystems fixed (Raised Bool) (WiredHere hot)
sys hot = wired fixed os pid_os files (pos 0) (subsystems hot)

abbrev holds : (hot : Bool) → Cleanup → WiredHere hot → Bool
holds hot = wired_holds fixed os pid_os files (pos 0) (subsystems hot) (λ c s. s c)

quiet : (hot : Bool) → IsQuiet fixed os pid_os files (pos 0) (subsystems hot) (λ c s. s c)
quiet hot = record {
  closed = λ fd r s free. free;
  written = λ path value r s free. free;
  pid_unlocked = λ fd r s free. free;
  pid_closed = λ fd r s free. free;
  unlinked = λ r s free. free;
}

law : (hot : Bool) → IsReleasing fixed (sys hot) (holds hot)
law hot =
    wired-IsReleasing fixed os pid_os files (pos 0) (subsystems hot) (λ c s. s c) (quiet hot)
      (releasing hot)

abbrev controller : Bool → PmQosController
controller locked = record {
  enable_sysfs_fallback = true;
  min_fallback_state_index = pos 1;
  target_latency_us = pos 0;
  fd = none;
  is_locked = locked;
  using_fallback = locked;
  fallback_saved_states = [];
}

abbrev daemon : (hot : Bool) → DaemonState → Bool → BoostLockDaemon fixed (WiredHere hot)
daemon hot state locked = record {
  config = default fixed;
  state = state;
  is_locked_boost = locked;
  stop_event = true;
  stop_scheduled = false;
  subsystems = (controller locked, (record { fd = none; is_locked = false }, λ c. locked));
}

start-AfterStart_example :
    AfterStart fixed
      (sys true)
      (holds true)
      (law true)
      (start fixed (sys true) (daemon true stopped false)).0
      (start fixed (sys true) (daemon true stopped false)).1
start-AfterStart_example =
    start-AfterStart fixed (sys true) (holds true) (law true) (daemon true stopped false)

-- the guard that fails comes after the lock has been taken
failed_start_test : (start fixed (sys true) (daemon true stopped false)).1.state ≡ Lifecycle.error
unfolding start acquire apply_startup_policy_transaction select_planned_route
    execute_policy_apply_plan str_ℤ PmQos.lock
failed_start_test = refl

stop-AfterStop_example :
    AfterStop fixed
      (sys false)
      (holds false)
      (law false)
      running
      (daemon false running true)
      (stop fixed (sys false) (daemon false running true))
stop-AfterStop_example =
    stop-AfterStop fixed (sys false) (holds false) (law false) (daemon false running true)
