-- ===== src/Examples/Daemons.antt =====
-- Runs of boostlock/daemon.py: a start that fails at the thermal guard, requests and events, and two
-- instances on one PID file.
use boostlock.Prelude.{
  map, ℕ, Bool, true, false, Option, none, some, List, [], ◌∷◌, ok, err, ◌≡◌, ◌≢◌, refl, arith,
  if◌then◌else◌,
}
use boostlock.Prelude.Int.{ℤ, pos}
use boostlock.Prelude.Dict.{ℕ_eq}
use boostlock.Prelude.Fixed.{fixed}
use boostlock.Config.{default, thermal_warn_c, validate, accepts_target}
use boostlock.Config.Validity.{validate-iff-IsValid}
use boostlock.Protocol.{Command, start, stop, pause_command, reconfigure}
use boostlock.Daemon.Subsystems.{Subsystems}
use boostlock.Daemon.Lifecycle
use boostlock.Daemon.Lifecycle.{
  stopped, running, throttled, Cleanup, pulse_engine, thermal_guard, pm_qos, state_restore,
  ipc_server, pid_lock, BoostLockDaemon,
}
use boostlock.Daemon.Lifecycle.Release.{IsReleasing}
use boostlock.Daemon.Requests.{
  Request, handle_ipc_request, Event, asked, scheduled_stop, tripped, recovered, serve,
}
use boostlock.Daemon.Requests.Outcomes.{Answers}
use boostlock.Daemon.Requests.Replies.{handle_ipc_request-Answers}
use boostlock.Daemon.Lifecycle.Table.{Trace, phase}
use boostlock.Daemon.Requests.Histories.{label, serve-Trace}
use boostlock.Daemon.Requests.Soundness.{IsSound, serve-IsSound}
use boostlock.Daemon.Pid.{other_os, PidOs, PidFileManager, acquire, release, running_error}
use boostlock.Daemon.Pid.Lock.{IsAdvisory, release-acquire}

abbrev number : Cleanup → ℕ
number pulse_engine = 0
number thermal_guard = 1
number pm_qos = 2
number state_restore = 3
number ipc_server = 4
number pid_lock = 5

-- what is held, by the cleanup that lets go of it
abbrev pub Held : Type 0
Held = Cleanup → Bool

abbrev mark : Bool → Cleanup → Held → Held
mark b c s r = if ℕ_eq.beq (number c) (number r) then b else s r

mark_kept : (c r : Cleanup) (s : Held) → s r ≡ false → mark false c s r ≡ false
mark_kept c r s free = ground arith

mark_same : (c : Cleanup) (s : Held) → mark false c s c ≡ false
mark_same c s = ground arith

-- an exception is a Boolean: whether it is a sysfs error
abbrev pub subsystems : Bool → Subsystems fixed Bool Held
subsystems hot = record {
  pid_acquire = λ s. (ok tt, mark true pid_lock s);
  build_plan = λ s. ok (record { actions = []; skipped_controls = []; preflight_paths = [] });
  create_snapshot = λ actions s. (ok tt, mark true state_restore s);
  register_signals = λ s. s;
  apply_plan = λ plan s. (ok tt, mark true pm_qos s);
  thermal_start = λ s. (if hot then err false else ok tt, mark true thermal_guard s);
  engine_start = λ s. (ok tt, mark true pulse_engine s);
  ipc_start = λ s. (ok tt, mark true ipc_server s);
  engine_stop = λ s. (ok tt, mark false pulse_engine s);
  thermal_stop = λ s. (ok tt, mark false thermal_guard s);
  pm_qos_unlock = λ s. (err true, mark false pm_qos s);
  state_restore = λ s. (err false, mark false state_restore s);
  unregister_signals = λ s. s;
  ipc_stop = λ s. (ok tt, mark false ipc_server s);
  pid_release = λ s. (ok tt, mark false pid_lock s);
  engine_pause = λ s. (ok tt, s);
  engine_resume = λ s. (ok tt, s);
  engine_reconfigure = λ c s. (ok tt, s);
  set_thermal_limits = λ warn limit recover s. s;
  read_status = λ s. ok tt;
  read_metrics = λ s. ok tt;
  resolve_policy_targets = λ s. ok tt;
  is_sysfs_error = λ x. x;
}

cleanup_call-mark :
    (hot : Bool) (c : Cleanup) (s : Held)
    → (Lifecycle.cleanup_call fixed (subsystems hot) c s).1 ≡ mark false c s
unfolding Lifecycle.cleanup_call
cleanup_call-mark hot pulse_engine s = refl
cleanup_call-mark hot thermal_guard s = refl
cleanup_call-mark hot pm_qos s = refl
cleanup_call-mark hot state_restore s = refl
cleanup_call-mark hot ipc_server s = refl
cleanup_call-mark hot pid_lock s = refl

pub releasing : (hot : Bool) → IsReleasing fixed (subsystems hot) (λ c s. s c)
releasing hot = record {
  released = λ c s. rw (cleanup_call-mark hot c s) (mark_same c s);
  kept = λ c r s free. rw (cleanup_call-mark hot c s) (mark_kept c r s free);
  unregistered = λ r s free. free;
}

abbrev pub daemon : Lifecycle.DaemonState → Bool → BoostLockDaemon fixed Held
daemon state locked = record {
  config = default fixed;
  state = state;
  is_locked_boost = locked;
  stop_event = true;
  stop_scheduled = false;
  subsystems = λ c. locked;
}

-- the start fails, after five cleanups have returned or raised
failed_start_test :
    (Lifecycle.start fixed (subsystems true) (daemon stopped false)).1.state ≡ Lifecycle.error
unfolding Lifecycle.start
failed_start_test = refl

abbrev ask : Command → Request fixed
ask c = record { command = c; args = thermal_warn_c 950000 ∷ []; request_id = "7" }

handle_ipc_request-Answers_example :
    Answers fixed
      (subsystems false)
      reconfigure
      (ask reconfigure)
      (daemon running true)
      (handle_ipc_request fixed (subsystems false) (ask reconfigure) (daemon running true))
handle_ipc_request-Answers_example =
    handle_ipc_request-Answers fixed (subsystems false) (ask reconfigure) (daemon running true)

abbrev events : List (Event fixed (subsystems false))
events =
    asked (ask start)
    ∷ tripped
    ∷ asked (ask pause_command)
    ∷ recovered
    ∷ asked (ask stop)
    ∷ scheduled_stop
    ∷ []

serve-Trace_example :
    Trace
      (map (label fixed (subsystems false)) events)
      (phase (daemon stopped false))
      (phase (serve fixed (subsystems false) events (daemon stopped false)))
serve-Trace_example = serve-Trace fixed (subsystems false) events (daemon stopped false)

default_checks : validate fixed (default fixed) ≡ ok tt
unfolding default validate accepts_target
default_checks = refl

new-IsSound : IsSound fixed (subsystems false) (daemon stopped false)
new-IsSound = record {
  valid = (validate-iff-IsValid fixed (default fixed)).0 default_checks;
  active = (ground arith, ground arith);
}

serve-IsSound_example :
    IsSound fixed (subsystems false) (serve fixed (subsystems false) events (daemon stopped false))
serve-IsSound_example =
    serve-IsSound fixed (subsystems false) events (daemon stopped false) new-IsSound

-- the state is whether the file is locked
abbrev files : PidOs Bool
files = record {
  make_parent = λ s. (ok tt, s);
  open_file = λ s. (ok 3, s);
  lock_exclusive = λ fd s. (if s then err other_os else ok tt, true);
  unlock = λ fd s. (ok tt, false);
  close = λ fd s. (ok tt, s);
  truncate = λ fd s. (ok tt, s);
  seek_start = λ fd s. (ok tt, s);
  write_own_pid = λ fd s. (ok tt, s);
  sync = λ fd s. (ok tt, s);
  unlink = λ s. (ok tt, false);
  is_file = λ s. true;
  read_text = λ s. ok "17";
  kill_0 = λ pid s. ok tt;
  strip = λ text. text;
  int = λ text. some (pos 17);
}

advisory : IsAdvisory files (λ s. s)
advisory = record {
  parent_kept = λ s. refl;
  open_kept = λ s. refl;
  excludes = λ s fd opened held. (other_os, rw held refl);
  admits = λ s fd opened free. rw free refl;
  removed = λ s unlinked. refl;
}

abbrev fresh : PidFileManager
fresh = record { fd = none; is_locked = false }

-- the second instance names the first
second_test : (acquire files fresh true).0 ≡ err (running_error (some (pos 17)))
unfolding acquire
second_test = refl

release-acquire_example :
    ((acquire files fresh true).0 ≢ ok tt)
    × ((p : Option ℤ)
        → (acquire files fresh (release files fresh true).1).0 ≢ err (running_error p))
release-acquire_example = release-acquire files (λ s. s) advisory fresh fresh true refl refl refl
