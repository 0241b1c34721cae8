-- ===== src/Daemon/Lifecycle.antt =====
-- `BoostLockDaemon` of boostlock/daemon.py: start, stop, pause, resume, lock, unlock, reconfigure, the
-- thermal callbacks and the emergency rollback.
pub mod Release
pub mod Table
pub mod Settings
use boostlock.Prelude.{Bool, true, false, List, [], ◌∷◌, ◌++◌, Result, ok, err, if◌then◌else◌}
use boostlock.Prelude.Float.{Float}
use boostlock.Config.{BoostLockConfig, Setting, ConfigValidationError, merge, validate}
use boostlock.Daemon.Subsystems.{Call, ◌then◌, Subsystems}

pub data DaemonState : Type 0 where
  stopped initializing running paused throttled error : DaemonState

-- the names in the list of cleanups
pub data Cleanup : Type 0 where
  pulse_engine thermal_guard pm_qos state_restore ipc_server pid_lock : Cleanup

-- DaemonError with the cleanups that failed, a validation error, or what a subsystem raised
pub data DaemonError (X : Type 0) : Type 0 where
  startup_failed : X → List (Cleanup × X) → DaemonError X
  invalid_config : ConfigValidationError → DaemonError X
  raised : X → DaemonError X

-- `subsystems` is their state; `stop_event` is set where the main loop is to end, and
-- `stop_scheduled` while a thread waits to call `stop`.
pub record BoostLockDaemon (F : Float) (S : Type 0) : Type 0 where
  pub config : BoostLockConfig F
  pub state : DaemonState
  pub is_locked_boost : Bool
  pub stop_event : Bool
  pub stop_scheduled : Bool
  pub subsystems : S

abbrev pub is_running : DaemonState → Bool
is_running running = true
is_running _ = false

abbrev pub is_paused : DaemonState → Bool
is_paused paused = true
is_paused _ = false

abbrev pub is_throttled : DaemonState → Bool
is_throttled throttled = true
is_throttled _ = false

-- the state after a lock
abbrev pub after_lock : DaemonState → DaemonState
after_lock state = if is_throttled state then throttled else running

module _ (F : Float) {X S : Type 0} (sys : Subsystems F X S) where
  abbrev pub Outcome : Type 0
  Outcome = Result (DaemonError X) (Unit {0}) × BoostLockDaemon F S

  abbrev pub with_plan : (S → Call X S) → Call X S
  with_plan k s = k s s

  abbrev planned : S → Call X S
  planned before = elim (sys.build_plan before) [
    | err x ↦ λ s. (err x, s)
    | ok plan ↦
        sys.create_snapshot plan.actions
        then (λ s. (ok tt, sys.register_signals s))
        then sys.apply_plan plan
  ]

  -- the `try` of `start`
  unfoldable pub boot : Call X S
  boot =
      sys.pid_acquire
      then with_plan planned
      then sys.thermal_start
      then sys.engine_start
      then sys.ipc_start

  unfoldable pub cleanup_call : Cleanup → Call X S
  cleanup_call pulse_engine = sys.engine_stop
  cleanup_call thermal_guard = sys.thermal_stop
  cleanup_call pm_qos = sys.pm_qos_unlock
  cleanup_call state_restore = sys.state_restore
  cleanup_call ipc_server = sys.ipc_stop
  cleanup_call pid_lock = sys.pid_release

  abbrev noted : Cleanup → Result X (Unit {0}) → List (Cleanup × X) → List (Cleanup × X)
  noted c (ok _) errors = errors
  noted c (err x) errors = (c, x) ∷ errors

  -- the loop over the cleanups: each is called, whatever those before it raised
  unfoldable pub run_cleanups : List Cleanup → S → List (Cleanup × X) × S
  unfolding cleanup_call
  run_cleanups [] s = ([], s)
  run_cleanups (c ∷ rest) s =
      let (r, s') = cleanup_call c s in
      let (errors, s'') = run_cleanups rest s' in (noted c r errors, s'')

  abbrev cleanups : Bool → List Cleanup
  cleanups true = pulse_engine ∷ thermal_guard ∷ pm_qos ∷ state_restore ∷ ipc_server ∷ pid_lock ∷ []
  cleanups false = pulse_engine ∷ thermal_guard ∷ pm_qos ∷ ipc_server ∷ pid_lock ∷ []

  unfoldable pub emergency_rollback :
      DaemonState → Bool → BoostLockDaemon F S → List (Cleanup × X) × BoostLockDaemon F S
  unfolding run_cleanups
  emergency_rollback final_state restore_state d =
      let (errors, s) = run_cleanups (cleanups restore_state) d.subsystems in
      (
        errors,
        record d {
          state = final_state;
          is_locked_boost = false;
          stop_event = true;
          subsystems = sys.unregister_signals s;
        },
      )

  -- the `except` clauses: a sysfs error ends STOPPED without a restore, any other in ERROR
  unfoldable pub startup_failure : X → BoostLockDaemon F S → Outcome
  unfolding emergency_rollback
  startup_failure x d =
      let sysfs = sys.is_sysfs_error x in
      let (errors, d') =
        if sysfs then emergency_rollback stopped false d else emergency_rollback error true d in
      (err (startup_failed x (if sysfs then errors else [])), d')

  abbrev booted : Result X (Unit {0}) × S → BoostLockDaemon F S → Outcome
  booted (ok _, s) d = (
    ok tt,
    record d { state = running; is_locked_boost = true; stop_event = false; subsystems = s },
  )
  booted (err x, s) d = startup_failure x (record d { subsystems = s })

  abbrev start_anew : BoostLockDaemon F S → Outcome
  start_anew d = booted (boot d.subsystems) (record d { state = initializing })

  unfoldable pub start : BoostLockDaemon F S → Outcome
  unfolding boot startup_failure
  start d = elim d.state [
    | running ↦ (ok tt, d)
    | stopped ↦ start_anew d
    | initializing ↦ start_anew d
    | paused ↦ start_anew d
    | throttled ↦ start_anew d
    | error ↦ start_anew d
  ]

  -- `stop` from a state other than STOPPED: every failure is logged
  unfoldable pub shut_down : BoostLockDaemon F S → BoostLockDaemon F S
  unfolding run_cleanups
  shut_down d =
      let first =
        run_cleanups (pulse_engine ∷ thermal_guard ∷ pm_qos ∷ state_restore ∷ []) d.subsystems in
      let last = run_cleanups (ipc_server ∷ pid_lock ∷ []) (sys.unregister_signals first.1) in
      record d { state = stopped; is_locked_boost = false; stop_event = true; subsystems = last.1 }

  unfoldable pub stop : BoostLockDaemon F S → BoostLockDaemon F S
  unfolding shut_down
  stop d = elim d.state [
    | stopped ↦ d
    | initializing ↦ shut_down d
    | running ↦ shut_down d
    | paused ↦ shut_down d
    | throttled ↦ shut_down d
    | error ↦ shut_down d
  ]

  -- a call after which, where it returns, the daemon is changed
  abbrev pub calling :
      Call X S → (BoostLockDaemon F S → BoostLockDaemon F S) → BoostLockDaemon F S → Outcome
  calling call change d =
      let (r, s) = call d.subsystems in
      elim r [
        | ok _ ↦ (ok tt, change (record d { subsystems = s }))
        | err x ↦ (err (raised x), record d { subsystems = s })
      ]

  abbrev pub enter : DaemonState → BoostLockDaemon F S → BoostLockDaemon F S
  enter state d = record d { state = state }

  unfoldable pub pause : BoostLockDaemon F S → Outcome
  pause d = if is_running d.state then calling sys.engine_pause (enter paused) d else (ok tt, d)

  unfoldable pub resume : BoostLockDaemon F S → Outcome
  resume d = if is_paused d.state then calling sys.engine_resume (enter running) d else (ok tt, d)

  abbrev pub mark_locked : BoostLockDaemon F S → BoostLockDaemon F S
  mark_locked d = record d { is_locked_boost = true; state = after_lock d.state }

  abbrev pub mark_unlocked : BoostLockDaemon F S → BoostLockDaemon F S
  mark_unlocked d = record d { is_locked_boost = false }

  -- `_apply_startup_policy_transaction` with no plan given, and the engine
  abbrev pub engage : S → Call X S
  engage before = elim (sys.build_plan before) [
    | err x ↦ λ s. (err x, s)
    | ok plan ↦ sys.apply_plan plan then sys.engine_start
  ]

  unfoldable pub lock : BoostLockDaemon F S → Outcome
  lock d = if d.is_locked_boost then (ok tt, d) else calling (with_plan engage) mark_locked d

  unfoldable pub unlock : BoostLockDaemon F S → Outcome
  unlock d =
      if d.is_locked_boost
      then calling (sys.engine_stop then sys.pm_qos_unlock) mark_unlocked d
      else (ok tt, d)

  abbrev pub reconfigured :
      Result ConfigValidationError (Unit {0}) → BoostLockConfig F → BoostLockDaemon F S → Outcome
  reconfigured (err e) c d = (err (invalid_config e), d)
  reconfigured (ok _) c d =
      calling (sys.engine_reconfigure c) (λ d'. d')
        (record d {
          config = c;
          subsystems =
              sys.set_thermal_limits c.thermal_warn_c c.thermal_limit_c c.thermal_recover_c
                d.subsystems;
        })

  unfoldable pub reconfigure : List (Setting F) → BoostLockDaemon F S → Outcome
  reconfigure settings d = let c = merge F d.config settings in reconfigured (validate F c) c d

  -- the callbacks of the thermal guard, which log what the engine raises
  unfoldable pub on_thermal_tripwire : BoostLockDaemon F S → BoostLockDaemon F S
  on_thermal_tripwire d = record d {
    state = throttled;
    subsystems = (sys.engine_pause d.subsystems).1;
  }

  unfoldable pub on_thermal_recovery : BoostLockDaemon F S → BoostLockDaemon F S
  on_thermal_recovery d =
      if is_throttled d.state
      then record d { state = running; subsystems = (sys.engine_resume d.subsystems).1 }
      else d
