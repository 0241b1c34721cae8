-- ===== src/Daemon/Requests/Outcomes.antt =====
-- How the operations of the daemon end, as the answers to a command tell it.
use boostlock.Prelude.{
  Bool, true, false, ◌≡◌, refl, ap, ◌⊎◌, inl, inr, Result, ok, err, if◌then◌else◌, Result-cases,
}
use boostlock.Prelude.Float.{Float}
use boostlock.Config.{ConfigValidationError, merge, validate}
use boostlock.Config.Validity.{IsValid, validate-iff-IsValid}
use boostlock.Protocol.{
  Command, ping, status, start, stop, pause_command, resume_command, reconfigure, lock_command,
  unlock_command, metrics, config,
}
use boostlock.Daemon.Subsystems.{Call, Subsystems, ◌then◌}
use boostlock.Daemon.Lifecycle
use boostlock.Daemon.Lifecycle.{
  DaemonState, running, paused, BoostLockDaemon, DaemonError, startup_failed, invalid_config,
  raised, Outcome, is_running, is_paused, calling, enter, with_plan, engage, mark_locked,
  mark_unlocked, reconfigured,
}
use boostlock.Daemon.Lifecycle.Release.{IsReleasing, AfterStart}
use boostlock.Daemon.Requests.{
  Request, Payload, pong, status_report, metrics_report, stopping, in_state, locked_in, unlocked_in,
  settings, Response, succeed, fail, reply, reported, with_targets,
}

module _ (F : Float) {X S : Type 0} (sys : Subsystems F X S) where
  abbrev pub SamePhase : BoostLockDaemon F S → BoostLockDaemon F S → Type 0
  SamePhase d d' = (d'.state ≡ d.state) × (d'.is_locked_boost ≡ d.is_locked_boost)

  -- what a command that succeeds answers, and the daemon that it leaves
  abbrev pub Done :
      Command → Request F → BoostLockDaemon F S → Payload F → BoostLockDaemon F S → Type 0
  Done ping req d p d' = (p ≡ pong d.state d.is_locked_boost) × (d' ≡ d)
  Done status req d p d' = (p ≡ status_report) × (d' ≡ d)
  Done start req d p d' = (p ≡ in_state running) × (d'.state ≡ running)
  Done stop req d p d' = (p ≡ stopping) × (d' ≡ record d { stop_scheduled = true })
  Done pause_command req d p d' = (p ≡ in_state d'.state) × (is_running d'.state ≡ false)
  Done resume_command req d p d' = (p ≡ in_state d'.state) × (is_paused d'.state ≡ false)
  Done lock_command req d p d' = (p ≡ locked_in d'.state) × (d'.is_locked_boost ≡ true)
  Done unlock_command req d p d' = (p ≡ unlocked_in d'.state) × (d'.is_locked_boost ≡ false)
  Done reconfigure req d p d' =
      (p ≡ settings d'.config)
      × (d'.config ≡ merge F d.config req.args)
      × IsValid F d'.config
      × SamePhase d d'
  Done metrics req d p d' = (p ≡ metrics_report) × (d' ≡ d)
  Done config req d p d' = (p ≡ settings d.config) × (d' ≡ d)

  -- the daemon that a command leaves which fails
  abbrev pub Declined : Command → BoostLockDaemon F S → BoostLockDaemon F S → Type 0
  Declined ping d d' = ⊥
  Declined status d d' = d' ≡ d
  Declined start d d' = d'.is_locked_boost ≡ false
  Declined stop d d' = ⊥
  Declined pause_command d d' = SamePhase d d'
  Declined resume_command d d' = SamePhase d d'
  Declined lock_command d d' = SamePhase d d'
  Declined unlock_command d d' = SamePhase d d'
  Declined reconfigure d d' = SamePhase d d'
  Declined metrics d d' = d' ≡ d
  Declined config d d' = ⊥

  abbrev pub Answers :
      Command → Request F → BoostLockDaemon F S → Response F X × BoostLockDaemon F S → Type 0
  Answers c req d (r, d') =
      ((p : Payload F) × (r ≡ succeed F sys p req) × Done c req d p d')
      ⊎ ((e : DaemonError X) × (r ≡ fail F sys e req) × Declined c d d')

  -- an outcome, by a condition for a return and one for an exception
  abbrev pub Ends :
      (BoostLockDaemon F S → Type 0) → (BoostLockDaemon F S → Type 0) → Outcome F sys → Type 0
  Ends good bad (ok _, d) = good d
  Ends good bad (err _, d) = bad d

  pub reply-Answers :
      (c : Command) (req : Request F) (d : BoostLockDaemon F S)
      (payload : BoostLockDaemon F S → Payload F) (o : Outcome F sys)
      → Ends (λ d'. Done c req d (payload d') d') (Declined c d) o
      → Answers c req d (reply F sys req payload o)
  reply-Answers c req d payload (ok _, d') done = inl (payload d', refl, done)
  reply-Answers c req d payload (err e, d') declined = inr (e, refl, declined)

  pub reported-Ends :
      (r : Result X (Unit {0})) (d : BoostLockDaemon F S) (good bad : BoostLockDaemon F S → Type 0)
      → good d
      → bad d
      → Ends good bad (reported F sys r d)
  reported-Ends (ok _) d good bad g b = g
  reported-Ends (err x) d good bad g b = b

  calling-Ends :
      (call : Call X S) (change : BoostLockDaemon F S → BoostLockDaemon F S)
      (d : BoostLockDaemon F S) (good bad : BoostLockDaemon F S → Type 0)
      → ((s : S) → good (change (record d { subsystems = s })))
      → ((s : S) → bad (record d { subsystems = s }))
      → Ends good bad (calling F sys call change d)
  calling-Ends call change d good bad g b = elim (Result-cases (call d.subsystems).0) [
    | inl (_, e) ↦ rw (e, calling) (g (call d.subsystems).1)
    | inr (x, e) ↦ rw (e, calling) (b (call d.subsystems).1)
  ]

  -- nothing need be said of what is held
  pub nothing_held : IsReleasing F sys (λ _ _. false)
  nothing_held = record {
    released = λ c s. refl;
    kept = λ c r s free. refl;
    unregistered = λ r s free. refl;
  }

  pub start-Ends :
      (req : Request F) (d : BoostLockDaemon F S) (o : Outcome F sys)
      → AfterStart F sys (λ _ _. false) nothing_held o.0 o.1
      → Ends (λ d'. Done start req d (in_state d'.state) d') (Declined start d) o
  start-Ends req d (ok _, d') after = (ap in_state after, after)
  start-Ends req d (err (startup_failed x _), d') (_, free, _, _) = free
  start-Ends req d (err (invalid_config _), d') after = absurd after
  start-Ends req d (err (raised _), d') after = absurd after

  -- an operation under a test
  tested-Ends :
      (good bad : BoostLockDaemon F S → Type 0) (b : Bool) (op1 op2 : Outcome F sys)
      → (b ≡ true → Ends good bad op1)
      → (b ≡ false → Ends good bad op2)
      → Ends good bad (if b then op1 else op2)
  tested-Ends good bad true op1 op2 h1 h2 = h1 refl
  tested-Ends good bad false op1 op2 h1 h2 = h2 refl

  pub pause-Ends :
      (req : Request F) (d : BoostLockDaemon F S)
      → Ends
          (λ d'. Done pause_command req d (in_state d'.state) d')
          (Declined pause_command d)
          (Lifecycle.pause F sys d)
  unfolding Lifecycle.pause
  pause-Ends req d =
      tested-Ends (λ d'. Done pause_command req d (in_state d'.state) d') (Declined pause_command d)
        (is_running d.state) _ _
        (λ _.
          calling-Ends sys.engine_pause (enter F sys paused) d _ _ (λ s. (refl, refl))
            (λ s. (refl, refl)))
        (λ h. (refl, h))

  pub resume-Ends :
      (req : Request F) (d : BoostLockDaemon F S)
      → Ends
          (λ d'. Done resume_command req d (in_state d'.state) d')
          (Declined resume_command d)
          (Lifecycle.resume F sys d)
  unfolding Lifecycle.resume
  resume-Ends req d =
      tested-Ends (λ d'. Done resume_command req d (in_state d'.state) d')
        (Declined resume_command d) (is_paused d.state) _ _
        (λ _.
          calling-Ends sys.engine_resume (enter F sys running) d _ _ (λ s. (refl, refl))
            (λ s. (refl, refl)))
        (λ h. (refl, h))

  pub lock-Ends :
      (req : Request F) (d : BoostLockDaemon F S)
      → Ends
          (λ d'. Done lock_command req d (locked_in d'.state) d')
          (Declined lock_command d)
          (Lifecycle.lock F sys d)
  unfolding Lifecycle.lock
  lock-Ends req d =
      tested-Ends (λ d'. Done lock_command req d (locked_in d'.state) d') (Declined lock_command d)
        d.is_locked_boost _ _ (λ held. (refl, held))
        (λ _.
          calling-Ends (with_plan F sys (engage F sys)) (mark_locked F sys) d _ _
            (λ s. (refl, refl)) (λ s. (refl, refl)))

  pub unlock-Ends :
      (req : Request F) (d : BoostLockDaemon F S)
      → Ends
          (λ d'. Done unlock_command req d (unlocked_in d'.state) d')
          (Declined unlock_command d)
          (Lifecycle.unlock F sys d)
  unfolding Lifecycle.unlock
  unlock-Ends req d =
      tested-Ends (λ d'. Done unlock_command req d (unlocked_in d'.state) d')
        (Declined unlock_command d) d.is_locked_boost _ _
        (λ _.
          calling-Ends (sys.engine_stop then sys.pm_qos_unlock) (mark_unlocked F sys) d _ _
            (λ s. (refl, refl)) (λ s. (refl, refl)))
        (λ free. (refl, free))

  reconfigured-Ends :
      (req : Request F) (r : Result ConfigValidationError (Unit {0})) (d : BoostLockDaemon F S)
      → validate F (merge F d.config req.args) ≡ r
      → Ends
          (λ d'. (d'.config ≡ merge F d.config req.args) × IsValid F d'.config × SamePhase d d')
          (Declined reconfigure d)
          (reconfigured F sys r (merge F d.config req.args) d)
  reconfigured-Ends req (err e) d v = (refl, refl)
  reconfigured-Ends req (ok _) d v =
      let c = merge F d.config req.args in
      calling-Ends (sys.engine_reconfigure c) (λ d'. d')
        (record d {
          config = c;
          subsystems =
              sys.set_thermal_limits c.thermal_warn_c c.thermal_limit_c c.thermal_recover_c
                d.subsystems;
        })
        (λ d'. (d'.config ≡ c) × IsValid F d'.config × SamePhase d d') (Declined reconfigure d)
        (λ s. (refl, (validate-iff-IsValid F (merge F d.config req.args)).0 v, (refl, refl)))
        (λ s. (refl, refl))

  with_targets-Ends :
      (good bad : BoostLockDaemon F S → Type 0) (o : Outcome F sys)
      → ((d : BoostLockDaemon F S) → good d → bad d)
      → Ends good bad o
      → Ends good bad (with_targets F sys o)
  with_targets-Ends good bad (ok _, d) weaker g =
      reported-Ends (sys.resolve_policy_targets d.subsystems) d good bad g (weaker d g)
  with_targets-Ends good bad (err e, d) weaker b = b

  answered-Ends :
      (req : Request F) (d : BoostLockDaemon F S) (o : Outcome F sys)
      → Ends
          (λ d'. (d'.config ≡ merge F d.config req.args) × IsValid F d'.config × SamePhase d d')
          (Declined reconfigure d)
          o
      → Ends (λ d'. Done reconfigure req d (settings d'.config) d') (Declined reconfigure d) o
  answered-Ends req d (ok _, d') (e, valid, same) = (refl, e, valid, same)
  answered-Ends req d (err _, d') h = h

  pub reconfigure-Ends :
      (req : Request F) (d : BoostLockDaemon F S)
      → Ends
          (λ d'. Done reconfigure req d (settings d'.config) d')
          (Declined reconfigure d)
          (with_targets F sys (Lifecycle.reconfigure F sys req.args d))
  unfolding Lifecycle.reconfigure
  reconfigure-Ends req d =
      with_targets-Ends (λ d'. Done reconfigure req d (settings d'.config) d')
        (Declined reconfigure d) (Lifecycle.reconfigure F sys req.args d)
        (λ d' (_, _, _, same). same)
        (answered-Ends req d (Lifecycle.reconfigure F sys req.args d)
          (reconfigured-Ends req (validate F (merge F d.config req.args)) d refl))
