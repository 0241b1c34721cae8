-- ===== src/Daemon/Lifecycle/Table.antt =====
-- The daemon's life as an abstract automaton, and the operations as its moves.
use boostlock.Prelude.{
  Bool, true, false, ◌≡◌, refl, ap, inl, inr, Result, ok, err, Result-cases, Bool-cases, arith,
  if◌then◌else◌, List, [], ◌∷◌, not,
}
use boostlock.Prelude.Float.{Float}
use boostlock.Config.{BoostLockConfig, Setting, ConfigValidationError, merge, validate}
use boostlock.Daemon.Subsystems.{Call, Subsystems, ◌then◌}
use boostlock.Daemon.Lifecycle.{
  DaemonState, stopped, initializing, running, paused, throttled, error, BoostLockDaemon, Outcome,
  boot, startup_failure, start, start_anew, booted, shut_down, stop, calling, enter, is_running,
  is_paused, is_throttled, mark_locked, mark_unlocked, pause, resume, lock, unlock, with_plan,
  engage, after_lock, reconfigured, reconfigure, on_thermal_tripwire, on_thermal_recovery,
}

-- What a client sees of the daemon.
pub record Phase : Type 0 where
  pub state : DaemonState
  pub locked : Bool

abbrev pub phase : {F : Float} {S : Type 0} → BoostLockDaemon F S → Phase
phase d = record { state = d.state; locked = d.is_locked_boost }

-- what is asked of the daemon: each of its operations, a stop that may be scheduled, the callbacks of
-- the thermal guard, and the commands that only look or set
pub data Label : Type 0 where
  starting stopping scheduled_stopping pausing resuming locking unlocking : Label
  tripping recovering watching : Label

abbrev is_stopped : DaemonState → Bool
is_stopped stopped = true
is_stopped _ = false

-- whether the daemon may stay as it is, since there is nothing to do or a subsystem raises
abbrev may_stay : Label → DaemonState → Bool
may_stay starting state = is_running state
may_stay stopping state = is_stopped state
may_stay tripping state = false
may_stay recovering state = not (is_throttled state)
may_stay _ state = true

-- whether it may end STOPPED
abbrev may_end : Label → Bool
may_end starting = true
may_end stopping = true
may_end scheduled_stopping = true
may_end _ = false

-- The moves of a phase when it is asked for `l`.
pub data Move (l : Label) (p q : Phase) : Type 0 where
  stays : may_stay l p.state ≡ true → q ≡ p → Move l p q
  boots : l ≡ starting → q ≡ record { state = running; locked = true } → Move l p q
  ends : may_end l ≡ true → q ≡ record { state = stopped; locked = false } → Move l p q
  fails : l ≡ starting → q ≡ record { state = error; locked = false } → Move l p q
  pauses : l ≡ pausing → p.state ≡ running → q ≡ record p { state = paused } → Move l p q
  resumes : l ≡ resuming → p.state ≡ paused → q ≡ record p { state = running } → Move l p q
  locks :
      l ≡ locking
      → p.locked ≡ false
      → q ≡ record { state = after_lock p.state; locked = true }
      → Move l p q
  unlocks : l ≡ unlocking → p.locked ≡ true → q ≡ record p { locked = false } → Move l p q
  trips : l ≡ tripping → q ≡ record p { state = throttled } → Move l p q
  recovers : l ≡ recovering → p.state ≡ throttled → q ≡ record p { state = running } → Move l p q

-- one move for each label, in order
abbrev pub Trace : List Label → Phase → Phase → Type 0
Trace [] p q = q ≡ p
Trace (l ∷ ls) p q = (r : Phase) × Move l p r × Trace ls r q

module _ (F : Float) {X S : Type 0} (sys : Subsystems F X S) where
  startup_failure-Move :
      (x : X) (d : BoostLockDaemon F S) (p : Phase)
      → Move starting p (phase (startup_failure F sys x d).1)
  unfolding startup_failure
  startup_failure-Move x d p = elim (Bool-cases (sys.is_sysfs_error x)) [
    | inl sysfs ↦ ends refl (rw (sysfs, startup_failure) refl)
    | inr other ↦ fails refl (rw (other, startup_failure) refl)
  ]

  booted-Move :
      (r : Result X (Unit {0})) (s : S) (d : BoostLockDaemon F S) (p : Phase)
      → Move starting p (phase (booted F sys (r, s) d).1)
  booted-Move (ok _) s d p = boots refl refl
  booted-Move (err x) s d p = startup_failure-Move x (record d { subsystems = s }) p

  start_anew-Move :
      (d : BoostLockDaemon F S) (p : Phase) → Move starting p (phase (start_anew F sys d).1)
  start_anew-Move d p =
      let b = boot F sys d.subsystems in booted-Move b.0 b.1 (record d { state = initializing }) p

  already_started : (d : BoostLockDaemon F S) → d.state ≡ running → start F sys d ≡ (ok tt, d)
  unfolding start
  already_started d e = simp (e, start)

  already_stopped : (d : BoostLockDaemon F S) → d.state ≡ stopped → stop F sys d ≡ d
  unfolding stop
  already_stopped d e = simp (e, stop)

  start_in :
      (state : DaemonState) (d : BoostLockDaemon F S)
      → d.state ≡ state
      → Move starting (phase d) (phase (start F sys d).1)
  unfolding start
  start_in running d e = stays (ap is_running e) (ap (λ o. phase o.1) (already_started d e))
  start_in stopped d e = rw (e, start) (start_anew-Move d _)
  start_in initializing d e = rw (e, start) (start_anew-Move d _)
  start_in paused d e = rw (e, start) (start_anew-Move d _)
  start_in throttled d e = rw (e, start) (start_anew-Move d _)
  start_in error d e = rw (e, start) (start_anew-Move d _)

  pub start-Move : (d : BoostLockDaemon F S) → Move starting (phase d) (phase (start F sys d).1)
  start-Move d = start_in d.state d refl

  stop_in :
      (state : DaemonState) (d : BoostLockDaemon F S)
      → d.state ≡ state
      → Move stopping (phase d) (phase (stop F sys d))
  unfolding stop shut_down
  stop_in stopped d e = stays (ap is_stopped e) (ap phase (already_stopped d e))
  stop_in initializing d e = ends refl (rw (e, stop) refl)
  stop_in running d e = ends refl (rw (e, stop) refl)
  stop_in paused d e = ends refl (rw (e, stop) refl)
  stop_in throttled d e = ends refl (rw (e, stop) refl)
  stop_in error d e = ends refl (rw (e, stop) refl)

  pub stop-Move : (d : BoostLockDaemon F S) → Move stopping (phase d) (phase (stop F sys d))
  stop-Move d = stop_in d.state d refl

  -- a call that raises leaves the phase, one that returns makes the move of its change
  calling-Move :
      (l : Label) (call : Call X S) (change : BoostLockDaemon F S → BoostLockDaemon F S)
      (d : BoostLockDaemon F S)
      → may_stay l d.state ≡ true
      → ((s : S) → Move l (phase d) (phase (change (record d { subsystems = s }))))
      → Move l (phase d) (phase (calling F sys call change d).1)
  calling-Move l call change d free moves = elim (Result-cases (call d.subsystems).0) [
    | inl (_, e) ↦ rw (e, calling) (moves (call d.subsystems).1)
    | inr (x, e) ↦ stays free (rw (e, calling) refl)
  ]

  -- an operation under a test of the state or of the lock
  guarded :
      (l : Label) (b : Bool) (op : Outcome F sys) (d : BoostLockDaemon F S)
      → may_stay l d.state ≡ true
      → (b ≡ true → Move l (phase d) (phase op.1))
      → Move l (phase d) (phase (if b then op else (ok tt, d)).1)
  guarded l true op d free move = move refl
  guarded l false op d free move = stays free refl

  unless :
      (l : Label) (b : Bool) (op : Outcome F sys) (d : BoostLockDaemon F S)
      → may_stay l d.state ≡ true
      → (b ≡ false → Move l (phase d) (phase op.1))
      → Move l (phase d) (phase (if b then (ok tt, d) else op).1)
  unless l true op d free move = stays free refl
  unless l false op d free move = move refl

  is_running_sound : (s : DaemonState) → is_running s ≡ true → s ≡ running
  is_running_sound s h = ground arith

  is_paused_sound : (s : DaemonState) → is_paused s ≡ true → s ≡ paused
  is_paused_sound s h = ground arith

  is_throttled_sound : (s : DaemonState) → is_throttled s ≡ true → s ≡ throttled
  is_throttled_sound s h = ground arith

  pub pause-Move : (d : BoostLockDaemon F S) → Move pausing (phase d) (phase (pause F sys d).1)
  unfolding pause
  pause-Move d =
      guarded pausing (is_running d.state) (calling F sys sys.engine_pause (enter F sys paused) d) d
        refl
        (λ h.
          calling-Move pausing sys.engine_pause (enter F sys paused) d refl
            (λ s. pauses refl (is_running_sound d.state h) refl))

  pub resume-Move : (d : BoostLockDaemon F S) → Move resuming (phase d) (phase (resume F sys d).1)
  unfolding resume
  resume-Move d =
      guarded resuming (is_paused d.state) (calling F sys sys.engine_resume (enter F sys running) d)
        d refl
        (λ h.
          calling-Move resuming sys.engine_resume (enter F sys running) d refl
            (λ s. resumes refl (is_paused_sound d.state h) refl))

  pub unlock-Move : (d : BoostLockDaemon F S) → Move unlocking (phase d) (phase (unlock F sys d).1)
  unfolding unlock
  unlock-Move d = guarded unlocking d.is_locked_boost _ d refl (λ h.
      calling-Move unlocking (sys.engine_stop then sys.pm_qos_unlock) (mark_unlocked F sys) d refl
        (λ s. unlocks refl h refl))

  pub lock-Move : (d : BoostLockDaemon F S) → Move locking (phase d) (phase (lock F sys d).1)
  unfolding lock
  lock-Move d = unless locking d.is_locked_boost _ d refl (λ h.
      calling-Move locking (with_plan F sys (engage F sys)) (mark_locked F sys) d refl
        (λ s. locks refl h refl))

  reconfigured-Move :
      (r : Result ConfigValidationError (Unit {0})) (c : BoostLockConfig F)
      (d : BoostLockDaemon F S)
      → Move watching (phase d) (phase (reconfigured F sys r c d).1)
  reconfigured-Move (err e) c d = stays refl refl
  reconfigured-Move (ok _) c d =
      calling-Move watching (sys.engine_reconfigure c) (λ d'. d')
        (record d {
          config = c;
          subsystems =
              sys.set_thermal_limits c.thermal_warn_c c.thermal_limit_c c.thermal_recover_c
                d.subsystems;
        })
        refl (λ s. stays refl refl)

  pub reconfigure-Move :
      (settings : List (Setting F)) (d : BoostLockDaemon F S)
      → Move watching (phase d) (phase (reconfigure F sys settings d).1)
  unfolding reconfigure
  reconfigure-Move settings d =
      let c = merge F d.config settings in reconfigured-Move (validate F c) c d

  pub on_thermal_tripwire-Move :
      (d : BoostLockDaemon F S) → Move tripping (phase d) (phase (on_thermal_tripwire F sys d))
  unfolding on_thermal_tripwire
  on_thermal_tripwire-Move d = trips refl refl

  pub on_thermal_recovery-Move :
      (d : BoostLockDaemon F S) → Move recovering (phase d) (phase (on_thermal_recovery F sys d))
  unfolding on_thermal_recovery
  on_thermal_recovery-Move d = elim (Bool-cases (is_throttled d.state)) [
    | inl hot ↦ recovers refl (is_throttled_sound d.state hot) (rw (hot, on_thermal_recovery) refl)
    | inr cool ↦ stays (ap not cool) (rw (cool, on_thermal_recovery) refl)
  ]
