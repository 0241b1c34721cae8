-- ===== src/Daemon/Lifecycle/Release.antt =====
-- What a stop, and a start that fails, let go of.
use boostlock.Prelude.{
  Bool, true, false, not, ◌≡◌, refl, List, [], ◌∷◌, All, Result, ok, err, Bool-cases, inl, inr,
  if◌then◌else◌,
}
use boostlock.Prelude.Float.{Float}
use boostlock.Daemon.Subsystems.{Subsystems}
use boostlock.Daemon.Lifecycle.{
  DaemonState, stopped, running, error, initializing, paused, throttled, Cleanup, pulse_engine,
  thermal_guard, pm_qos, state_restore, ipc_server, pid_lock, DaemonError, startup_failed,
  invalid_config, raised, BoostLockDaemon, boot, cleanup_call, run_cleanups, cleanups,
  startup_failure, start, start_anew, booted, shut_down, stop,
}

module _ (F : Float) {X S : Type 0} (sys : Subsystems F X S) where
  -- `holds` says what is still held: the workers, the monitor thread, the latency lock, a restore that
  -- has not been tried, the socket, the PID lock. Each cleanup lets go of its own, also where it raises,
  -- and takes nothing else.
  pub record IsReleasing (holds : Cleanup → S → Bool) : Type 0 where
    pub released : (c : Cleanup) (s : S) → holds c (cleanup_call F sys c s).1 ≡ false
    pub kept :
        (c r : Cleanup) (s : S) → holds r s ≡ false → holds r (cleanup_call F sys c s).1 ≡ false
    pub unregistered :
        (r : Cleanup) (s : S) → holds r s ≡ false → holds r (sys.unregister_signals s) ≡ false

  module _ (holds : Cleanup → S → Bool) (law : IsReleasing holds) where
    abbrev AllFree : List Cleanup → S → Type 0
    AllFree cs s = All (λ c. holds c s ≡ false) cs

    run_cleanups_kept :
        (cs : List Cleanup) (r : Cleanup) (s : S)
        → holds r s ≡ false
        → holds r (run_cleanups F sys cs s).1 ≡ false
    unfolding run_cleanups
    run_cleanups_kept [] r s free = free
    run_cleanups_kept (c ∷ cs) r s free =
        run_cleanups_kept cs r (cleanup_call F sys c s).1 (law.kept c r s free)

    run_cleanups-AllFree : (cs : List Cleanup) (s : S) → AllFree cs (run_cleanups F sys cs s).1
    unfolding run_cleanups
    run_cleanups-AllFree [] s = tt
    run_cleanups-AllFree (c ∷ cs) s =
        let s' = (cleanup_call F sys c s).1 in
        (run_cleanups_kept cs c s' (law.released c s), run_cleanups-AllFree cs s')

    unregister-AllFree :
        (cs : List Cleanup) (s : S) → AllFree cs s → AllFree cs (sys.unregister_signals s)
    unregister-AllFree [] s free = tt
    unregister-AllFree (c ∷ cs) s free =
        (law.unregistered c s free.0, unregister-AllFree cs s free.1)

    run_cleanups-kept_all :
        (more cs : List Cleanup) (s : S) → AllFree cs s → AllFree cs (run_cleanups F sys more s).1
    run_cleanups-kept_all more [] s free = tt
    run_cleanups-kept_all more (c ∷ cs) s free =
        (run_cleanups_kept more c s free.0, run_cleanups-kept_all more cs s free.1)

    -- nothing is held of the workers, the monitor thread, the latency lock, the socket and the PID lock
    abbrev pub LetGo : S → Type 0
    LetGo s =
        (holds pulse_engine s ≡ false)
        × (holds thermal_guard s ≡ false)
        × (holds pm_qos s ≡ false)
        × (holds ipc_server s ≡ false)
        × (holds pid_lock s ≡ false)

    -- nor is the restore of the saved state left to be tried, unless it is spared
    abbrev pub AllGone : (restore_spared : Bool) → S → Type 0
    AllGone true s = LetGo s
    AllGone false s = LetGo s × (holds state_restore s ≡ false)

    freed :
        (spared : Bool) (s : S)
        → AllGone spared
            (sys.unregister_signals (run_cleanups F sys (cleanups F sys (not spared)) s).1)
    freed true s =
        let cs = cleanups F sys false in
        let (a, (b, (c, (d, (e, _))))) =
          unregister-AllFree cs (run_cleanups F sys cs s).1 (run_cleanups-AllFree cs s) in
        (a, b, c, d, e)
    freed false s =
        let cs = cleanups F sys true in
        let (a, (b, (c, (r, (d, (e, _)))))) =
          unregister-AllFree cs (run_cleanups F sys cs s).1 (run_cleanups-AllFree cs s) in
        ((a, b, c, d, e), r)

    -- what holds after `start` returns or raises
    abbrev pub AfterStart : Result (DaemonError X) (Unit {0}) → BoostLockDaemon F S → Type 0
    AfterStart (ok _) d = d.state ≡ running
    AfterStart (err (startup_failed x _)) d =
        (d.state ≡ (if sys.is_sysfs_error x then stopped else error))
        × (d.is_locked_boost ≡ false)
        × (d.stop_event ≡ true)
        × AllGone (sys.is_sysfs_error x) d.subsystems
    AfterStart (err (invalid_config _)) d = ⊥
    AfterStart (err (raised _)) d = ⊥

    startup_failure-AfterStart :
        (x : X) (d : BoostLockDaemon F S)
        → AfterStart (startup_failure F sys x d).0 (startup_failure F sys x d).1
    unfolding startup_failure
    startup_failure-AfterStart x d = elim (Bool-cases (sys.is_sysfs_error x)) [
      | inl sysfs ↦ rw (sysfs, startup_failure) (refl, refl, refl, freed true d.subsystems)
      | inr other ↦ rw (other, startup_failure) (refl, refl, refl, freed false d.subsystems)
    ]

    booted-AfterStart :
        (r : Result X (Unit {0})) (s : S) (d : BoostLockDaemon F S)
        → AfterStart (booted F sys (r, s) d).0 (booted F sys (r, s) d).1
    booted-AfterStart (ok _) s d = refl
    booted-AfterStart (err x) s d = startup_failure-AfterStart x (record d { subsystems = s })

    start_anew-AfterStart :
        (d : BoostLockDaemon F S) → AfterStart (start_anew F sys d).0 (start_anew F sys d).1
    start_anew-AfterStart d =
        let b = boot F sys d.subsystems in
        booted-AfterStart b.0 b.1 (record d { state = initializing })

    start_in :
        (state : DaemonState) (d : BoostLockDaemon F S)
        → d.state ≡ state
        → AfterStart (start F sys d).0 (start F sys d).1
    unfolding start
    start_in running d e = rw (e, start) e
    start_in stopped d e = rw (e, start) (start_anew-AfterStart d)
    start_in initializing d e = rw (e, start) (start_anew-AfterStart d)
    start_in paused d e = rw (e, start) (start_anew-AfterStart d)
    start_in throttled d e = rw (e, start) (start_anew-AfterStart d)
    start_in error d e = rw (e, start) (start_anew-AfterStart d)

    -- Where each subsystem's own cleanup lets go of what it holds and takes nothing else: `start` that
    -- returns leaves the daemon RUNNING. `start` that raises leaves it STOPPED after a sysfs error and
    -- in ERROR after any other, unlocked and with its main loop told to end, and then none of the
    -- workers, the monitor thread, the latency lock, the socket and the PID lock is held, whatever the
    -- cleanups before it raised. Nor is the restore of the saved state left to be tried, but after a
    -- sysfs error.
    pub start-AfterStart :
        (d : BoostLockDaemon F S) → AfterStart (start F sys d).0 (start F sys d).1
    start-AfterStart d = start_in d.state d refl

    -- `shut_down` lets go of everything in two batches
    shut_down-AllFree : (d : BoostLockDaemon F S) → AllGone false (shut_down F sys d).subsystems
    unfolding shut_down
    shut_down-AllFree d =
        let first = pulse_engine ∷ thermal_guard ∷ pm_qos ∷ state_restore ∷ [] in
        let last = ipc_server ∷ pid_lock ∷ [] in
        let s1 = (run_cleanups F sys first d.subsystems).1 in
        let s2 = sys.unregister_signals s1 in
        let (a, (b, (c, (e, _)))) =
          run_cleanups-kept_all last first s2
            (unregister-AllFree first s1 (run_cleanups-AllFree first d.subsystems)) in
        let (f, (g, _)) = run_cleanups-AllFree last s2 in ((a, b, c, f, g), e)

    -- a daemon `d` after `stop`, by the state of the daemon `before`
    abbrev pub AfterStop : DaemonState → BoostLockDaemon F S → BoostLockDaemon F S → Type 0
    AfterStop stopped before d = d ≡ before
    AfterStop _ before d =
        (d.state ≡ stopped)
        × (d.is_locked_boost ≡ false)
        × (d.stop_event ≡ true)
        × AllGone false d.subsystems

    shut_down-AfterStop :
        (d : BoostLockDaemon F S)
        → ((shut_down F sys d).state ≡ stopped)
          × ((shut_down F sys d).is_locked_boost ≡ false)
          × ((shut_down F sys d).stop_event ≡ true)
          × AllGone false (shut_down F sys d).subsystems
    unfolding shut_down
    shut_down-AfterStop d = (refl, refl, refl, shut_down-AllFree d)

    stop_in :
        (state : DaemonState) (d : BoostLockDaemon F S)
        → d.state ≡ state
        → AfterStop state d (stop F sys d)
    unfolding stop
    stop_in stopped d e = simp (e, stop)
    stop_in initializing d e = rw (e, stop) (shut_down-AfterStop d)
    stop_in running d e = rw (e, stop) (shut_down-AfterStop d)
    stop_in paused d e = rw (e, stop) (shut_down-AfterStop d)
    stop_in throttled d e = rw (e, stop) (shut_down-AfterStop d)
    stop_in error d e = rw (e, stop) (shut_down-AfterStop d)

    -- Where each subsystem's own cleanup lets go of what it holds and takes nothing else: `stop` of a
    -- daemon that is not STOPPED leaves it STOPPED, unlocked, with its main loop told to end, and with
    -- none of the workers, the monitor thread, the latency lock, the socket and the PID lock held and
    -- the restore of the saved state tried, whatever the subsystems raise. A daemon that is STOPPED is
    -- left as it is, and so is what it holds.
    pub stop-AfterStop : (d : BoostLockDaemon F S) → AfterStop d.state d (stop F sys d)
    stop-AfterStop d = stop_in d.state d refl
