-- ===== src/Daemon/Driving/Stopping.antt =====
-- The cleanups of the daemon stop the engine of boostlock/engine.py.
use boostlock.Prelude.{Bool, false, ◌≡◌, refl, List, inl, inr}
use boostlock.Prelude.Float.{Float}
use boostlock.Sysfs.Policy.{CpufreqPolicy}
use boostlock.Engine.Controller.{PulseEngine}
use boostlock.Engine.Life
use boostlock.Engine.Life.Calls.{State-cases}
use boostlock.Daemon.Subsystems.{Subsystems}
use boostlock.Daemon.Lifecycle.{
  Cleanup, pulse_engine, thermal_guard, pm_qos, state_restore, ipc_server, pid_lock, cleanup_call,
}
use boostlock.Daemon.Lifecycle.Release.{IsReleasing}
use boostlock.Daemon.Driving.{DrivenError, is_live, DrivenState, driven}

stop_state : (F : Float) (e : PulseEngine F) → is_live (Life.stop F e).state ≡ false
unfolding Life.stop
stop_state F e = elim (State-cases e.state) [
  | inl is_stopped ↦ simp (Life.stop, is_stopped) refl
  | inr (inl is_running) ↦ simp (Life.stop, is_running) refl
  | inr (inr (inl is_paused)) ↦ simp (Life.stop, is_paused) refl
  | inr (inr (inr (inl is_starting))) ↦ simp (Life.stop, is_starting) refl
  | inr (inr (inr (inr is_throttled))) ↦ simp (Life.stop, is_throttled) refl
]

module _ (F : Float) {X T : Type 0} (discover : T → List CpufreqPolicy) (base : Subsystems F X T)
    (holds : Cleanup → T → Bool) (law : IsReleasing F base holds) where
  abbrev D : Type 0
  D = DrivenState F discover base

  abbrev sys : Subsystems F (DrivenError X) D
  sys = driven F discover base

  -- the workers as the engine's state tells, the rest as given
  abbrev pub driven_holds : Cleanup → D → Bool
  driven_holds pulse_engine w = is_live w.0.state
  driven_holds thermal_guard w = holds thermal_guard w.1
  driven_holds pm_qos w = holds pm_qos w.1
  driven_holds state_restore w = holds state_restore w.1
  driven_holds ipc_server w = holds ipc_server w.1
  driven_holds pid_lock w = holds pid_lock w.1

  driven_released : (c : Cleanup) (w : D) → driven_holds c (cleanup_call F sys c w).1 ≡ false
  unfolding cleanup_call
  driven_released pulse_engine w = stop_state F w.0
  driven_released thermal_guard w = law.released thermal_guard w.1
  driven_released pm_qos w = law.released pm_qos w.1
  driven_released state_restore w = law.released state_restore w.1
  driven_released ipc_server w = law.released ipc_server w.1
  driven_released pid_lock w = law.released pid_lock w.1

  -- a change of the rest leaves the engine
  others_kept :
      (change : T → T)
      → ((r : Cleanup) (t : T) → holds r t ≡ false → holds r (change t) ≡ false)
      → (r : Cleanup) (w : D) → driven_holds r w ≡ false
      → driven_holds r (w.0, change w.1) ≡ false
  others_kept change keeps pulse_engine w free = free
  others_kept change keeps thermal_guard w free = keeps thermal_guard w.1 free
  others_kept change keeps pm_qos w free = keeps pm_qos w.1 free
  others_kept change keeps state_restore w free = keeps state_restore w.1 free
  others_kept change keeps ipc_server w free = keeps ipc_server w.1 free
  others_kept change keeps pid_lock w free = keeps pid_lock w.1 free

  stop_kept :
      (r : Cleanup) (w : D)
      → driven_holds r w ≡ false
      → driven_holds r (Life.stop F w.0, w.1) ≡ false
  stop_kept pulse_engine w free = stop_state F w.0
  stop_kept thermal_guard w free = free
  stop_kept pm_qos w free = free
  stop_kept state_restore w free = free
  stop_kept ipc_server w free = free
  stop_kept pid_lock w free = free

  driven_kept :
      (c r : Cleanup) (w : D)
      → driven_holds r w ≡ false
      → driven_holds r (cleanup_call F sys c w).1 ≡ false
  unfolding cleanup_call
  driven_kept pulse_engine r w free = stop_kept r w free
  driven_kept thermal_guard r w free =
      others_kept (λ t. (base.thermal_stop t).1) (law.kept thermal_guard) r w free
  driven_kept pm_qos r w free =
      others_kept (λ t. (base.pm_qos_unlock t).1) (law.kept pm_qos) r w free
  driven_kept state_restore r w free =
      others_kept (λ t. (base.state_restore t).1) (law.kept state_restore) r w free
  driven_kept ipc_server r w free =
      others_kept (λ t. (base.ipc_stop t).1) (law.kept ipc_server) r w free
  driven_kept pid_lock r w free =
      others_kept (λ t. (base.pid_release t).1) (law.kept pid_lock) r w free

  -- With the engine in place the cleanups still let go of their own and take nothing else: the workers
  -- are those of an engine that is not STOPPED.
  pub driven-IsReleasing : IsReleasing F sys driven_holds
  driven-IsReleasing = record {
    released = driven_released;
    kept = driven_kept;
    unregistered = λ r w free. others_kept base.unregister_signals law.unregistered r w free;
  }
