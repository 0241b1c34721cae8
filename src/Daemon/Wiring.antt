-- ===== src/Daemon/Wiring.antt =====
-- The subsystems of `BoostLockDaemon` in boostlock/daemon.py with the latency lock, the PID file and
-- the policy transaction in place; the others stay as they are given.
pub mod Releasing
use boostlock.Prelude.{Bool, true, false, Option, none, some, Result, ok, err}
use boostlock.Prelude.Int.{ℤ}
use boostlock.Prelude.Float.{Float}
use boostlock.Sysfs.Policy.{PolicyApplyPlan}
use boostlock.PmQos
use boostlock.PmQos.{NodeError, node_denied, node_other, Os, PmQosController}
use boostlock.Daemon.Subsystems.{Call, Subsystems}
use boostlock.Daemon.Pid
use boostlock.Daemon.Pid.{PidError, PidOs, PidFileManager}
use boostlock.Daemon.Transaction.{
  TransactionError, route_failed, apply_failed, Files, apply_startup_policy_transaction,
}

pub data Raised (X : Type 0) : Type 0 where
  from_pid : PidError → Raised X
  from_transaction : TransactionError X → Raised X
  from_rest : X → Raised X

module _ (F : Float) {X T : Type 0} (os : Os T) (pid_os : PidOs T) (files : Files X T)
    (latency_us : ℤ) (base : Subsystems F X T) where
  -- the controller of the lock, the PID manager, and the state of the rest
  abbrev pub Wired : Type 0
  Wired = PmQosController × (PidFileManager × T)

  abbrev from_base {ℓ} : {A : Type ℓ} → Result X A → Result (Raised X) A
  from_base (ok a) = ok a
  from_base (err x) = err (from_rest x)

  abbrev pub lift : Call X T → Call (Raised X) Wired
  lift call (c, (m, t)) = let (r, t') = call t in (from_base r, (c, (m, t')))

  abbrev of_pid : Result PidError (Unit {0}) → Result (Raised X) (Unit {0})
  of_pid (ok _) = ok tt
  of_pid (err e) = err (from_pid e)

  abbrev of_transaction : Result (TransactionError X) (Unit {0}) → Result (Raised X) (Unit {0})
  of_transaction (ok _) = ok tt
  of_transaction (err e) = err (from_transaction e)

  abbrev acquire_pid : Call (Raised X) Wired
  acquire_pid (c, (m, t)) = let (r, (m', t')) = Pid.acquire pid_os m t in (of_pid r, (c, (m', t')))

  abbrev pub release_pid : Call (Raised X) Wired
  release_pid (c, (m, t)) = (ok tt, (c, Pid.release pid_os m t))

  abbrev pub unlock_pm_qos : Call (Raised X) Wired
  unlock_pm_qos (c, (m, t)) =
      let (_, (c', t')) = PmQos.release os false c t in (ok tt, (c', (m, t')))

  abbrev transact : PolicyApplyPlan → Call (Raised X) Wired
  transact plan (c, (m, t)) =
      let (r, (c', t')) = apply_startup_policy_transaction os files latency_us plan c t in
      (of_transaction r, (c', (m, t')))

  abbrev pub on_rest : (T → T) → Wired → Wired
  on_rest change (c, (m, t)) = (c, (m, change t))

  -- a denied read is a SysfsError, and so is what the transaction raises itself
  abbrev is_sysfs : Raised X → Bool
  is_sysfs (from_pid _) = false
  is_sysfs (from_transaction (route_failed node_denied)) = true
  is_sysfs (from_transaction (route_failed node_other)) = false
  is_sysfs (from_transaction (apply_failed _)) = true
  is_sysfs (from_rest x) = base.is_sysfs_error x

  abbrev pub wired : Subsystems F (Raised X) Wired
  wired = record {
    pid_acquire = acquire_pid;
    build_plan = λ w. from_base (base.build_plan w.1.1);
    create_snapshot = λ actions. lift (base.create_snapshot actions);
    register_signals = on_rest base.register_signals;
    apply_plan = transact;
    thermal_start = lift base.thermal_start;
    engine_start = lift base.engine_start;
    ipc_start = lift base.ipc_start;
    engine_stop = lift base.engine_stop;
    thermal_stop = lift base.thermal_stop;
    pm_qos_unlock = unlock_pm_qos;
    state_restore = lift base.state_restore;
    unregister_signals = on_rest base.unregister_signals;
    ipc_stop = lift base.ipc_stop;
    pid_release = release_pid;
    engine_pause = lift base.engine_pause;
    engine_resume = lift base.engine_resume;
    engine_reconfigure = λ c. lift (base.engine_reconfigure c);
    set_thermal_limits = λ warn limit recover. on_rest (base.set_thermal_limits warn limit recover);
    read_status = λ w. from_base (base.read_status w.1.1);
    read_metrics = λ w. from_base (base.read_metrics w.1.1);
    resolve_policy_targets = λ w. from_base (base.resolve_policy_targets w.1.1);
    is_sysfs_error = is_sysfs;
  }
