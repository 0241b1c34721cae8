-- ===== src/Daemon/Requests/Soundness.antt =====
-- The invariant of a daemon that serves.
use boostlock.Prelude.{Bool, true, false, ◌≡◌, ◌≢◌, refl, ap, List, [], ◌∷◌, arith}
use boostlock.Prelude.Float.{Float}
use boostlock.Config.{BoostLockConfig}
use boostlock.Config.Validity.{IsValid}
use boostlock.Protocol.{
  Command, ping, status, start, stop, pause_command, resume_command, reconfigure, lock_command,
  unlock_command, metrics, config,
}
use boostlock.Daemon.Subsystems.{Subsystems}
use boostlock.Daemon.Lifecycle
use boostlock.Daemon.Lifecycle.{
  DaemonState, stopped, initializing, running, paused, throttled, error, BoostLockDaemon, Outcome,
  after_lock, on_thermal_tripwire, on_thermal_recovery,
}
use boostlock.Daemon.Lifecycle.Table.{
  Label, Phase, phase, Move, stays, boots, ends, fails, pauses, resumes, locks, unlocks, trips,
  recovers,
}
use boostlock.Daemon.Requests.{
  Request, Payload, settings, reply, with_targets, dispatch, handle_ipc_request, Event, asked,
  scheduled_stop, signalled, tripped, recovered, scheduled, react, serve,
}
use boostlock.Daemon.Lifecycle.Settings.{
  start_config, stop_config, pause_config, resume_config, lock_config, unlock_config,
  recovery_config, reconfigure-IsValid,
}
use boostlock.Daemon.Requests.Histories.{reply_1, reported_1, with_targets_1, react-Move}

abbrev is_active : DaemonState → Bool
is_active running = true
is_active paused = true
is_active throttled = true
is_active _ = false

-- INITIALIZING is never left behind, and the boost is locked only while the daemon is active.
abbrev pub IsActive : Phase → Type 0
IsActive p = (p.state ≢ initializing) × (p.locked ≡ true → is_active p.state ≡ true)

abbrev config_of : {F : Float} {S : Type 0} → BoostLockDaemon F S → BoostLockConfig F
config_of d = d.config

after_lock-IsActive : (s : DaemonState) → IsActive (record { state = after_lock s; locked = true })
after_lock-IsActive s = ground arith

Move-IsActive : (l : Label) (p q : Phase) → Move l p q → IsActive p → IsActive q
Move-IsActive l p q (stays _ e) active = rw e active
Move-IsActive l p q (boots _ e) active = rw e (ground arith)
Move-IsActive l p q (ends _ e) active = rw e (ground arith)
Move-IsActive l p q (fails _ e) active = rw e (ground arith)
Move-IsActive l p q (pauses _ _ e) active = rw e (ground arith)
Move-IsActive l p q (resumes _ _ e) active = rw e (ground arith)
Move-IsActive l p q (locks _ _ e) active = rw e (after_lock-IsActive p.state)
Move-IsActive l p q (unlocks _ _ e) active = rw e (active.0, λ h. ground arith)
Move-IsActive l p q (trips _ e) active = rw e (ground arith)
Move-IsActive l p q (recovers _ _ e) active = rw e (ground arith)

module _ (F : Float) {X S : Type 0} (sys : Subsystems F X S) where
  -- the configuration is valid, and the phase is one that a daemon can be left in
  pub record IsSound (d : BoostLockDaemon F S) : Type 0 where
    pub valid : IsValid F d.config
    pub active : IsActive (phase d)

  reply-IsValid :
      (req : Request F) (d : BoostLockDaemon F S) (payload : BoostLockDaemon F S → Payload F)
      (o : Outcome F sys)
      → o.1.config ≡ d.config
      → IsValid F d.config
      → IsValid F (reply F sys req payload o).1.config
  reply-IsValid req d payload o kept valid = rw (reply_1 F sys req payload o, kept) valid

  dispatch-IsValid :
      (c : Command) (req : Request F) (d : BoostLockDaemon F S)
      → IsValid F d.config
      → IsValid F (dispatch F sys c req d).1.config
  unfolding dispatch
  dispatch-IsValid ping req d = λ valid. valid
  dispatch-IsValid status req d =
      reply-IsValid req d _ _ (ap config_of (reported_1 F sys (sys.read_status d.subsystems) d))
  dispatch-IsValid start req d = reply-IsValid req d _ _ (start_config F sys d.state d refl)
  dispatch-IsValid stop req d = λ valid. valid
  dispatch-IsValid pause_command req d = reply-IsValid req d _ _ (pause_config F sys d)
  dispatch-IsValid resume_command req d = reply-IsValid req d _ _ (resume_config F sys d)
  dispatch-IsValid lock_command req d = reply-IsValid req d _ _ (lock_config F sys d)
  dispatch-IsValid unlock_command req d = reply-IsValid req d _ _ (unlock_config F sys d)
  dispatch-IsValid reconfigure req d = λ valid.
      rw
        (
          reply_1 F sys req (λ d'. settings d'.config)
              (with_targets F sys (Lifecycle.reconfigure F sys req.args d)),
          with_targets_1 F sys (Lifecycle.reconfigure F sys req.args d),
        )
        (reconfigure-IsValid F sys req.args d valid)
  dispatch-IsValid metrics req d =
      reply-IsValid req d _ _ (ap config_of (reported_1 F sys (sys.read_metrics d.subsystems) d))
  dispatch-IsValid config req d = λ valid. valid

  scheduled-IsValid :
      (b : Bool) (d : BoostLockDaemon F S)
      → IsValid F d.config
      → IsValid F (scheduled F sys b d).config
  scheduled-IsValid true d valid = rw (stop_config F sys d.state d refl) valid
  scheduled-IsValid false d valid = valid

  react-IsValid :
      (e : Event F sys) (d : BoostLockDaemon F S)
      → IsValid F d.config
      → IsValid F (react F sys e d).config
  unfolding react handle_ipc_request on_thermal_tripwire
  react-IsValid (asked req) d valid = dispatch-IsValid req.command req d valid
  react-IsValid scheduled_stop d valid = scheduled-IsValid d.stop_scheduled d valid
  react-IsValid signalled d valid = rw (stop_config F sys d.state d refl) valid
  react-IsValid tripped d valid = valid
  react-IsValid recovered d valid = rw (recovery_config F sys d) valid

  -- Whatever the clients ask, the signals and the thermal guard do, and whatever the subsystems raise,
  -- a sound daemon stays sound: its configuration is one that `validate` accepts, it is never left
  -- INITIALIZING, and its boost is locked only while it is RUNNING, PAUSED or THROTTLED.
  pub serve-IsSound :
      (events : List (Event F sys)) (d : BoostLockDaemon F S)
      → IsSound d
      → IsSound (serve F sys events d)
  unfolding serve
  serve-IsSound [] d sound = sound
  serve-IsSound (e ∷ events) d sound = serve-IsSound events (react F sys e d) (record {
    valid = react-IsValid e d sound.valid;
    active =
        Move-IsActive _ (phase d) (phase (react F sys e d)) (react-Move F sys e d) sound.active;
  })
