-- ===== src/Daemon/Wiring/Releasing.antt =====
-- The cleanups of the daemon let go of the latency lock and of the PID lock.
use boostlock.Prelude.{
  ℕ, String, Bool, true, false, Option, none, some, [], ◌∷◌, ◌≡◌, refl, Bool-cases, Result-cases,
  inl, inr,
}
use boostlock.Prelude.Int.{ℤ}
use boostlock.Prelude.Float.{Float}
use boostlock.Prelude.Dict.{Dict}
use boostlock.PmQos
use boostlock.PmQos.{Os, PmQosController, restore_saved, close_fd}
use boostlock.Daemon.Subsystems.{Call, Subsystems, ◌then◌}
use boostlock.Daemon.Lifecycle.{
  Cleanup, pulse_engine, thermal_guard, pm_qos, state_restore, ipc_server, pid_lock, cleanup_call,
}
use boostlock.Daemon.Lifecycle.Release.{IsReleasing}
use boostlock.Daemon.Pid
use boostlock.Daemon.Pid.{PidOs, PidFileManager, close_held}
use boostlock.Daemon.Transaction.{Files}
use boostlock.Daemon.Wiring.{Raised, Wired, wired, lift, release_pid, unlock_pm_qos}

module _ (F : Float) {X T : Type 0} (os : Os T) (pid_os : PidOs T) (files : Files X T)
    (latency_us : ℤ) (base : Subsystems F X T) (holds : Cleanup → T → Bool) where
  -- a change of the system after which nothing more is held
  abbrev Quietly : (T → T) → Type 0
  Quietly change = (r : Cleanup) (t : T) → holds r t ≡ false → holds r (change t) ≡ false

  -- The calls on the device, on the cpuidle files and on the PID file take none of the rest.
  pub record IsQuiet : Type 0 where
    pub closed : (fd : ℕ) → Quietly (λ t. (os.close_device fd t).1)
    pub written : (path value : String) → Quietly (λ t. (os.write_file true path value t).1)
    pub pid_unlocked : (fd : ℕ) → Quietly (λ t. (pid_os.unlock fd t).1)
    pub pid_closed : (fd : ℕ) → Quietly (λ t. (pid_os.close fd t).1)
    pub unlinked : Quietly (λ t. (pid_os.unlink t).1)

  -- the two locks as their owners tell them, the rest as given
  abbrev pub wired_holds : Cleanup → Wired F os pid_os files latency_us base → Bool
  wired_holds pm_qos w = w.0.is_locked
  wired_holds pid_lock w = w.1.0.is_locked
  wired_holds r w = holds r w.1.1

  module _ (quiet : IsQuiet) (law : IsReleasing F base holds) where
    restore_saved-Quietly : (saved : Dict String String) → Quietly (restore_saved os saved)
    unfolding restore_saved
    restore_saved-Quietly [] r t free = free
    restore_saved-Quietly ((path, value) ∷ rest) r t free =
        restore_saved-Quietly rest r (os.write_file true path value t).1
          (quiet.written path value r t free)

    close_fd-Quietly : (fd : Option ℕ) → Quietly (λ t. (close_fd os fd t).1)
    close_fd-Quietly none r t free = free
    close_fd-Quietly (some fd) r t free = quiet.closed fd r t free

    release-Quietly : (c : PmQosController) → Quietly (λ t. (PmQos.release os false c t).1.1)
    unfolding PmQos.release
    release-Quietly c r t free = elim (Bool-cases c.using_fallback) [
      | inl h ↦
          rw (h, PmQos.release)
            (restore_saved-Quietly c.fallback_saved_states r (close_fd os c.fd t).1
              (close_fd-Quietly c.fd r t free))
      | inr h ↦ rw (h, PmQos.release) (close_fd-Quietly c.fd r t free)
    ]

    close_held-Quietly : (fd : Option ℕ) → Quietly (close_held pid_os fd)
    close_held-Quietly none r t free = free
    close_held-Quietly (some fd) r t free = elim (Result-cases (pid_os.unlock fd t).0) [
      | inl (_, h) ↦
          rw (h, ◌then◌, close_held)
            (quiet.pid_closed fd r (pid_os.unlock fd t).1 (quiet.pid_unlocked fd r t free))
      | inr (x, h) ↦ rw (h, ◌then◌, close_held) (quiet.pid_unlocked fd r t free)
    ]

    pid_release-Quietly : (m : PidFileManager) → Quietly (λ t. (Pid.release pid_os m t).1)
    unfolding Pid.release
    pid_release-Quietly m r t free =
        quiet.unlinked r (close_held pid_os m.fd t) (close_held-Quietly m.fd r t free)

    abbrev W : Type 0
    W = Wired F os pid_os files latency_us base

    abbrev sys : Subsystems F (Raised X) W
    sys = wired F os pid_os files latency_us base

    wired_released : (c : Cleanup) (w : W) → wired_holds c (cleanup_call F sys c w).1 ≡ false
    unfolding cleanup_call PmQos.release Pid.release
    wired_released pulse_engine w = law.released pulse_engine w.1.1
    wired_released thermal_guard w = law.released thermal_guard w.1.1
    wired_released pm_qos w = refl
    wired_released state_restore w = law.released state_restore w.1.1
    wired_released ipc_server w = law.released ipc_server w.1.1
    wired_released pid_lock w = refl

    -- a call of the rest leaves the two locks
    lift_kept :
        (call : Call X T)
        → Quietly (λ t. (call t).1)
        → (r : Cleanup) (w : W) → wired_holds r w ≡ false
        → wired_holds r (lift F os pid_os files latency_us base call w).1 ≡ false
    lift_kept call keeps pulse_engine w free = keeps pulse_engine w.1.1 free
    lift_kept call keeps thermal_guard w free = keeps thermal_guard w.1.1 free
    lift_kept call keeps pm_qos w free = free
    lift_kept call keeps state_restore w free = keeps state_restore w.1.1 free
    lift_kept call keeps ipc_server w free = keeps ipc_server w.1.1 free
    lift_kept call keeps pid_lock w free = free

    unlock_kept :
        (r : Cleanup) (w : W)
        → wired_holds r w ≡ false
        → wired_holds r (unlock_pm_qos F os pid_os files latency_us base w).1 ≡ false
    unfolding PmQos.release
    unlock_kept pulse_engine w free = release-Quietly w.0 pulse_engine w.1.1 free
    unlock_kept thermal_guard w free = release-Quietly w.0 thermal_guard w.1.1 free
    unlock_kept pm_qos w free = refl
    unlock_kept state_restore w free = release-Quietly w.0 state_restore w.1.1 free
    unlock_kept ipc_server w free = release-Quietly w.0 ipc_server w.1.1 free
    unlock_kept pid_lock w free = free

    release_pid_kept :
        (r : Cleanup) (w : W)
        → wired_holds r w ≡ false
        → wired_holds r (release_pid F os pid_os files latency_us base w).1 ≡ false
    unfolding Pid.release
    release_pid_kept pulse_engine w free = pid_release-Quietly w.1.0 pulse_engine w.1.1 free
    release_pid_kept thermal_guard w free = pid_release-Quietly w.1.0 thermal_guard w.1.1 free
    release_pid_kept pm_qos w free = free
    release_pid_kept state_restore w free = pid_release-Quietly w.1.0 state_restore w.1.1 free
    release_pid_kept ipc_server w free = pid_release-Quietly w.1.0 ipc_server w.1.1 free
    release_pid_kept pid_lock w free = refl

    wired_kept :
        (c r : Cleanup) (w : W)
        → wired_holds r w ≡ false
        → wired_holds r (cleanup_call F sys c w).1 ≡ false
    unfolding cleanup_call
    wired_kept pulse_engine r w free = lift_kept base.engine_stop (law.kept pulse_engine) r w free
    wired_kept thermal_guard r w free =
        lift_kept base.thermal_stop (law.kept thermal_guard) r w free
    wired_kept pm_qos r w free = unlock_kept r w free
    wired_kept state_restore r w free =
        lift_kept base.state_restore (law.kept state_restore) r w free
    wired_kept ipc_server r w free = lift_kept base.ipc_stop (law.kept ipc_server) r w free
    wired_kept pid_lock r w free = release_pid_kept r w free

    wired_unregistered :
        (r : Cleanup) (w : W)
        → wired_holds r w ≡ false
        → wired_holds r (sys.unregister_signals w) ≡ false
    wired_unregistered pulse_engine w free = law.unregistered pulse_engine w.1.1 free
    wired_unregistered thermal_guard w free = law.unregistered thermal_guard w.1.1 free
    wired_unregistered pm_qos w free = free
    wired_unregistered state_restore w free = law.unregistered state_restore w.1.1 free
    wired_unregistered ipc_server w free = law.unregistered ipc_server w.1.1 free
    wired_unregistered pid_lock w free = free

    -- The lock's `_release` and the PID manager's `release` keep what the daemon asks of its
    -- subsystems: each lets go of its lock in any case, and takes nothing else.
    pub wired-IsReleasing : IsReleasing F sys wired_holds
    wired-IsReleasing = record {
      released = wired_released;
      kept = wired_kept;
      unregistered = wired_unregistered;
    }
