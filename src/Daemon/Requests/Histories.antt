-- ===== src/Daemon/Requests/Histories.antt =====
-- The move of the daemon's state and lock that each event makes.
use boostlock.Prelude.{Bool, true, false, ◌≡◌, refl, ap, Result, ok, err, List, [], ◌∷◌, map}
use boostlock.Prelude.Float.{Float}
use boostlock.Protocol.{
  Command, ping, status, start, stop, pause_command, resume_command, reconfigure, lock_command,
  unlock_command, metrics, config,
}
use boostlock.Daemon.Subsystems.{Subsystems}
use boostlock.Daemon.Lifecycle
use boostlock.Daemon.Lifecycle.{
  DaemonState, stopped, initializing, running, paused, throttled, error, BoostLockDaemon, Outcome,
}
use boostlock.Daemon.Lifecycle.Table.{
  Phase, phase, Label, starting, stopping, scheduled_stopping, pausing, resuming, locking,
  unlocking, tripping, recovering, watching, Trace, Move, stays, boots, ends, fails, pauses,
  resumes, locks, unlocks, trips, recovers, start-Move, stop-Move, pause-Move, resume-Move,
  lock-Move, unlock-Move, reconfigure-Move, on_thermal_tripwire-Move, on_thermal_recovery-Move,
}
use boostlock.Daemon.Requests.{
  Request, Payload, settings, reply, reported, with_targets, dispatch, handle_ipc_request, Event,
  asked, scheduled_stop, signalled, tripped, recovered, scheduled, react, serve,
}

module _ (F : Float) {X S : Type 0} (sys : Subsystems F X S) where
  -- what answers a request does not move the daemon further
  pub reply_1 :
      (req : Request F) (payload : BoostLockDaemon F S → Payload F) (o : Outcome F sys)
      → (reply F sys req payload o).1 ≡ o.1
  reply_1 req payload (ok _, d) = refl
  reply_1 req payload (err e, d) = refl

  pub reported_1 : (r : Result X (Unit {0})) (d : BoostLockDaemon F S) → (reported F sys r d).1 ≡ d
  reported_1 (ok _) d = refl
  reported_1 (err x) d = refl

  pub with_targets_1 : (o : Outcome F sys) → (with_targets F sys o).1 ≡ o.1
  with_targets_1 (ok _, d) = reported_1 (sys.resolve_policy_targets d.subsystems) d
  with_targets_1 (err e, d) = refl

  reply-Move :
      (l : Label) (req : Request F) (d : BoostLockDaemon F S)
      (payload : BoostLockDaemon F S → Payload F) (o : Outcome F sys)
      → Move l (phase d) (phase o.1)
      → Move l (phase d) (phase (reply F sys req payload o).1)
  reply-Move l req d payload o move = rw (reply_1 req payload o) move

  abbrev label_of : Command → Label
  label_of ping = watching
  label_of status = watching
  label_of start = starting
  label_of stop = watching
  label_of pause_command = pausing
  label_of resume_command = resuming
  label_of lock_command = locking
  label_of unlock_command = unlocking
  label_of reconfigure = watching
  label_of metrics = watching
  label_of config = watching

  -- what an event asks for; a `stop` that is asked for is only scheduled
  abbrev pub label : Event F sys → Label
  label (asked req) = label_of req.command
  label scheduled_stop = scheduled_stopping
  label signalled = stopping
  label tripped = tripping
  label recovered = recovering

  stop_scheduled-Move : (p q : Phase) → Move stopping p q → Move scheduled_stopping p q
  stop_scheduled-Move p q (stays _ e) = stays refl e
  stop_scheduled-Move p q (ends _ e) = ends refl e
  stop_scheduled-Move p q (boots l _) = cc
  stop_scheduled-Move p q (fails l _) = cc
  stop_scheduled-Move p q (pauses l _ _) = cc
  stop_scheduled-Move p q (resumes l _ _) = cc
  stop_scheduled-Move p q (locks l _ _) = cc
  stop_scheduled-Move p q (unlocks l _ _) = cc
  stop_scheduled-Move p q (trips l _) = cc
  stop_scheduled-Move p q (recovers l _ _) = cc

  dispatch-Move :
      (c : Command) (req : Request F) (d : BoostLockDaemon F S)
      → Move (label_of c) (phase d) (phase (dispatch F sys c req d).1)
  unfolding dispatch
  dispatch-Move ping req d = stays refl refl
  dispatch-Move status req d =
      reply-Move watching req d _ _
        (stays refl (ap phase (reported_1 (sys.read_status d.subsystems) d)))
  dispatch-Move start req d = reply-Move starting req d _ _ (start-Move F sys d)
  dispatch-Move stop req d = stays refl refl
  dispatch-Move pause_command req d = reply-Move pausing req d _ _ (pause-Move F sys d)
  dispatch-Move resume_command req d = reply-Move resuming req d _ _ (resume-Move F sys d)
  dispatch-Move lock_command req d = reply-Move locking req d _ _ (lock-Move F sys d)
  dispatch-Move unlock_command req d = reply-Move unlocking req d _ _ (unlock-Move F sys d)
  dispatch-Move reconfigure req d =
      reply-Move watching req d (λ d'. settings d'.config)
        (with_targets F sys (Lifecycle.reconfigure F sys req.args d))
        (rw (with_targets_1 (Lifecycle.reconfigure F sys req.args d))
          (reconfigure-Move F sys req.args d))
  dispatch-Move metrics req d =
      reply-Move watching req d _ _
        (stays refl (ap phase (reported_1 (sys.read_metrics d.subsystems) d)))
  dispatch-Move config req d = stays refl refl

  scheduled-Move :
      (b : Bool) (d : BoostLockDaemon F S)
      → Move scheduled_stopping (phase d) (phase (scheduled F sys b d))
  scheduled-Move true d = stop_scheduled-Move _ _ (stop-Move F sys d)
  scheduled-Move false d = stays refl refl

  pub react-Move :
      (e : Event F sys) (d : BoostLockDaemon F S)
      → Move (label e) (phase d) (phase (react F sys e d))
  unfolding react handle_ipc_request
  react-Move (asked req) d = dispatch-Move req.command req d
  react-Move scheduled_stop d = scheduled-Move d.stop_scheduled d
  react-Move signalled d = stop-Move F sys d
  react-Move tripped d = on_thermal_tripwire-Move F sys d
  react-Move recovered d = on_thermal_recovery-Move F sys d

  -- The daemon refines the labelled automaton of its state and lock: in any run of events, whatever
  -- the subsystems raise, each event makes one move that the table allows for what the event asks. A
  -- start of a daemon that is not RUNNING ends RUNNING and locked, or STOPPED or in ERROR and unlocked.
  -- A pause acts on a RUNNING daemon only, a resume on a PAUSED one, a lock on an unlocked one, which is
  -- then RUNNING or still THROTTLED, and an unlock on a locked one; each of them may leave the phase as
  -- it is. A signal ends STOPPED and unlocked but where the daemon was STOPPED, a scheduled stop does so
  -- or leaves the phase, a tripwire always throttles, a recovery turns THROTTLED into RUNNING and leaves
  -- any other phase, and what else is asked leaves the phase.
  pub serve-Trace :
      (events : List (Event F sys)) (d : BoostLockDaemon F S)
      → Trace (map label events) (phase d) (phase (serve F sys events d))
  unfolding serve
  serve-Trace [] d = refl
  serve-Trace (e ∷ events) d =
      let d' = react F sys e d in (phase d', react-Move e d, serve-Trace events d')
