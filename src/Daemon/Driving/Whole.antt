-- ===== src/Daemon/Driving/Whole.antt =====
-- The daemon of boostlock/daemon.py over the latency lock, the PID file, the policy transaction and the
-- engine at once.
use boostlock.Prelude.{Bool, List}
use boostlock.Prelude.Int.{ℤ}
use boostlock.Prelude.Float.{Float}
use boostlock.Sysfs.Policy.{CpufreqPolicy}
use boostlock.PmQos.{Os}
use boostlock.Daemon.Subsystems.{Subsystems}
use boostlock.Daemon.Lifecycle.{Cleanup}
use boostlock.Daemon.Lifecycle.Release.{IsReleasing}
use boostlock.Daemon.Pid.{PidOs}
use boostlock.Daemon.Transaction.{Files}
use boostlock.Daemon.Wiring.{wired}
use boostlock.Daemon.Wiring.Releasing.{IsQuiet, wired_holds, wired-IsReleasing}
use boostlock.Daemon.Driving.{DrivenError, DrivenState, driven}
use boostlock.Daemon.Driving.Stopping.{driven_holds, driven-IsReleasing}

module _ (F : Float) {X T : Type 0} (discover : T → List CpufreqPolicy) (base : Subsystems F X T)
    (holds : Cleanup → T → Bool) (law : IsReleasing F base holds)
    (os : Os (DrivenState F discover base)) (pid_os : PidOs (DrivenState F discover base))
    (files : Files (DrivenError X) (DrivenState F discover base)) (latency_us : ℤ) where
  -- Where the calls on the device, the cpuidle files and the PID file stop nothing and start nothing,
  -- and the rest lets go of its own, a cleanup of the whole daemon does: the engine is STOPPED, the
  -- latency lock and the PID lock are not held.
  whole-IsReleasing :
      IsQuiet F os pid_os files latency_us
        (driven F discover base)
        (driven_holds F discover base holds law)
      → IsReleasing F (wired F os pid_os files latency_us (driven F discover base)) (
          wired_holds F os pid_os files latency_us
            (driven F discover base)
            (driven_holds F discover base holds law))
  whole-IsReleasing quiet =
      wired-IsReleasing F os pid_os files latency_us (driven F discover base)
        (driven_holds F discover base holds law) quiet
        (driven-IsReleasing F discover base holds law)
