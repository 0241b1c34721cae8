-- ===== src/Daemon/Driving.antt =====
-- The subsystems of `BoostLockDaemon` in boostlock/daemon.py with the engine of boostlock/engine.py in
-- place; the others stay as they are given. `discover` is what the engine's discovery returns.
pub mod Stopping
pub mod Whole
use boostlock.Prelude.{Bool, true, false, List, Result, ok, err}
use boostlock.Prelude.Float.{Float}
use boostlock.Config.{BoostLockConfig}
use boostlock.Sysfs.Policy.{CpufreqPolicy}
use boostlock.Engine.Controller.{
  PulseEngine, EngineState, stopped, starting, running, paused, throttled,
}
use boostlock.Engine.Life
use boostlock.Engine.Life.{EngineError}
use boostlock.Daemon.Subsystems.{Call, Subsystems}

pub data DrivenError (X : Type 0) : Type 0 where
  from_engine : EngineError → DrivenError X
  from_others : X → DrivenError X

abbrev pub is_live : EngineState → Bool
is_live stopped = false
is_live starting = true
is_live running = true
is_live paused = true
is_live throttled = true

module _ (F : Float) {X T : Type 0} (discover : T → List CpufreqPolicy)
    (base : Subsystems F X T) where
  -- the engine, and the state of the rest
  abbrev pub DrivenState : Type 0
  DrivenState = PulseEngine F × T

  abbrev of_others {ℓ} : {A : Type ℓ} → Result X A → Result (DrivenError X) A
  of_others (ok a) = ok a
  of_others (err x) = err (from_others x)

  abbrev pub beside : Call X T → Call (DrivenError X) DrivenState
  beside call (e, t) = let (r, t') = call t in (of_others r, (e, t'))

  abbrev pub on_engine : (PulseEngine F → PulseEngine F) → Call (DrivenError X) DrivenState
  on_engine change (e, t) = (ok tt, (change e, t))

  abbrev of_engine : Life.Outcome F → T → Result (DrivenError X) (Unit {0}) × DrivenState
  of_engine (ok e) t = (ok tt, (e, t))
  of_engine (err (x, e)) t = (err (from_engine x), (e, t))

  abbrev reconfigure_engine : BoostLockConfig F → Call (DrivenError X) DrivenState
  reconfigure_engine config (e, t) = of_engine (Life.reconfigure F (discover t) config e) t

  abbrev is_sysfs_raised : DrivenError X → Bool
  is_sysfs_raised (from_engine x) = false
  is_sysfs_raised (from_others x) = base.is_sysfs_error x

  abbrev others_change : (T → T) → DrivenState → DrivenState
  others_change change (e, t) = (e, change t)

  abbrev pub driven : Subsystems F (DrivenError X) DrivenState
  driven = record {
    pid_acquire = beside base.pid_acquire;
    build_plan = λ w. of_others (base.build_plan w.1);
    create_snapshot = λ actions. beside (base.create_snapshot actions);
    register_signals = others_change base.register_signals;
    apply_plan = λ plan. beside (base.apply_plan plan);
    thermal_start = beside base.thermal_start;
    engine_start = on_engine (Life.start F);
    ipc_start = beside base.ipc_start;
    engine_stop = on_engine (Life.stop F);
    thermal_stop = beside base.thermal_stop;
    pm_qos_unlock = beside base.pm_qos_unlock;
    state_restore = beside base.state_restore;
    unregister_signals = others_change base.unregister_signals;
    ipc_stop = beside base.ipc_stop;
    pid_release = beside base.pid_release;
    engine_pause = on_engine (Life.pause F);
    engine_resume = on_engine (Life.resume F);
    engine_reconfigure = reconfigure_engine;
    set_thermal_limits =
        λ warn limit recover. others_change (base.set_thermal_limits warn limit recover);
    read_status = λ w. of_others (base.read_status w.1);
    read_metrics = λ w. of_others (base.read_metrics w.1);
    resolve_policy_targets = λ w. of_others (base.resolve_policy_targets w.1);
    is_sysfs_error = is_sysfs_raised;
  }
