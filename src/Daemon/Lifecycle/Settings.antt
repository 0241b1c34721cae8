-- ===== src/Daemon/Lifecycle/Settings.antt =====
-- What the operations of the daemon do to its configuration.
use boostlock.Prelude.{
  Bool, true, false, ◌≡◌, refl, inl, inr, Result, ok, err, List, if◌then◌else◌, Bool-cases,
  Result-cases,
}
use boostlock.Prelude.Float.{Float}
use boostlock.Config.{BoostLockConfig, Setting, ConfigValidationError, merge, validate}
use boostlock.Config.Validity.{IsValid, validate-iff-IsValid}
use boostlock.Daemon.Subsystems.{Call, Subsystems, ◌then◌}
use boostlock.Daemon.Lifecycle.{
  DaemonState, stopped, initializing, running, paused, throttled, error, BoostLockDaemon, Outcome,
  calling, enter, with_plan, engage, mark_locked, mark_unlocked, is_running, is_paused,
  is_throttled, reconfigured, startup_failure, start_anew, booted, boot, shut_down, start, stop,
  pause, resume, lock, unlock, reconfigure, on_thermal_recovery,
}

module _ (F : Float) {X S : Type 0} (sys : Subsystems F X S) where
  -- the operations but `reconfigure` keep the configuration
  calling_config :
      (call : Call X S) (change : BoostLockDaemon F S → BoostLockDaemon F S)
      (d : BoostLockDaemon F S)
      → ((s : S) → (change (record d { subsystems = s })).config ≡ d.config)
      → (calling F sys call change d).1.config ≡ d.config
  calling_config call change d kept = elim (Result-cases (call d.subsystems).0) [
    | inl (_, e) ↦ rw (e, calling) (kept (call d.subsystems).1)
    | inr (x, e) ↦ rw (e, calling) refl
  ]

  tested_config :
      (b : Bool) (op1 op2 : Outcome F sys) (d : BoostLockDaemon F S)
      → op1.1.config ≡ d.config
      → op2.1.config ≡ d.config
      → (if b then op1 else op2).1.config ≡ d.config
  tested_config true op1 op2 d h1 h2 = h1
  tested_config false op1 op2 d h1 h2 = h2

  startup_failure_config :
      (x : X) (d : BoostLockDaemon F S) → (startup_failure F sys x d).1.config ≡ d.config
  unfolding startup_failure
  startup_failure_config x d = elim (Bool-cases (sys.is_sysfs_error x)) [
    | inl sysfs ↦ rw (sysfs, startup_failure) refl
    | inr other ↦ rw (other, startup_failure) refl
  ]

  booted_config :
      (r : Result X (Unit {0})) (s : S) (d : BoostLockDaemon F S)
      → (booted F sys (r, s) d).1.config ≡ d.config
  booted_config (ok _) s d = refl
  booted_config (err x) s d = startup_failure_config x (record d { subsystems = s })

  start_anew_config : (d : BoostLockDaemon F S) → (start_anew F sys d).1.config ≡ d.config
  start_anew_config d =
      let b = boot F sys d.subsystems in booted_config b.0 b.1 (record d { state = initializing })

  pub start_config :
      (state : DaemonState) (d : BoostLockDaemon F S)
      → d.state ≡ state
      → (start F sys d).1.config ≡ d.config
  unfolding start
  start_config running d e = rw (e, start) refl
  start_config stopped d e = rw (e, start) (start_anew_config d)
  start_config initializing d e = rw (e, start) (start_anew_config d)
  start_config paused d e = rw (e, start) (start_anew_config d)
  start_config throttled d e = rw (e, start) (start_anew_config d)
  start_config error d e = rw (e, start) (start_anew_config d)

  pub stop_config :
      (state : DaemonState) (d : BoostLockDaemon F S)
      → d.state ≡ state
      → (stop F sys d).config ≡ d.config
  unfolding stop shut_down
  stop_config stopped d e = rw (e, stop) refl
  stop_config initializing d e = rw (e, stop) refl
  stop_config running d e = rw (e, stop) refl
  stop_config paused d e = rw (e, stop) refl
  stop_config throttled d e = rw (e, stop) refl
  stop_config error d e = rw (e, stop) refl

  pub pause_config : (d : BoostLockDaemon F S) → (pause F sys d).1.config ≡ d.config
  unfolding pause
  pause_config d =
      tested_config (is_running d.state) _ _ d
        (calling_config sys.engine_pause (enter F sys paused) d (λ s. refl)) refl

  pub resume_config : (d : BoostLockDaemon F S) → (resume F sys d).1.config ≡ d.config
  unfolding resume
  resume_config d =
      tested_config (is_paused d.state) _ _ d
        (calling_config sys.engine_resume (enter F sys running) d (λ s. refl)) refl

  pub lock_config : (d : BoostLockDaemon F S) → (lock F sys d).1.config ≡ d.config
  unfolding lock
  lock_config d =
      tested_config d.is_locked_boost _ _ d refl
        (calling_config (with_plan F sys (engage F sys)) (mark_locked F sys) d (λ s. refl))

  pub unlock_config : (d : BoostLockDaemon F S) → (unlock F sys d).1.config ≡ d.config
  unfolding unlock
  unlock_config d =
      tested_config d.is_locked_boost _ _ d
        (calling_config (sys.engine_stop then sys.pm_qos_unlock) (mark_unlocked F sys) d
          (λ s. refl))
        refl

  pub recovery_config : (d : BoostLockDaemon F S) → (on_thermal_recovery F sys d).config ≡ d.config
  unfolding on_thermal_recovery
  recovery_config d = elim (Bool-cases (is_throttled d.state)) [
    | inl hot ↦ rw (hot, on_thermal_recovery) refl
    | inr cool ↦ rw (cool, on_thermal_recovery) refl
  ]

  -- `reconfigure` takes over a configuration that `validate` has accepted
  reconfigured-IsValid :
      (c : BoostLockConfig F) (r : Result ConfigValidationError (Unit {0}))
      (d : BoostLockDaemon F S)
      → validate F c ≡ r
      → IsValid F d.config
      → IsValid F (reconfigured F sys r c d).1.config
  reconfigured-IsValid c (err e) d v valid = valid
  reconfigured-IsValid c (ok _) d v valid =
      let d' = record d {
        config = c;
        subsystems =
            sys.set_thermal_limits c.thermal_warn_c c.thermal_limit_c c.thermal_recover_c
              d.subsystems;
      } in
      rw (calling_config (sys.engine_reconfigure c) (λ d''. d'') d' (λ s. refl))
        ((validate-iff-IsValid F c).0 v)

  pub reconfigure-IsValid :
      (args : List (Setting F)) (d : BoostLockDaemon F S)
      → IsValid F d.config
      → IsValid F (reconfigure F sys args d).1.config
  unfolding reconfigure
  reconfigure-IsValid args d valid =
      reconfigured-IsValid (merge F d.config args) (validate F (merge F d.config args)) d refl valid
