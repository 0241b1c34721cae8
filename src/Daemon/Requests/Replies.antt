-- ===== src/Daemon/Requests/Replies.antt =====
-- What the daemon answers to each command.
use boostlock.Prelude.{false, refl, inl}
use boostlock.Prelude.Float.{Float}
use boostlock.Protocol.{
  Command, ping, status, start, stop, pause_command, resume_command, reconfigure, lock_command,
  unlock_command, metrics, config,
}
use boostlock.Daemon.Subsystems.{Subsystems}
use boostlock.Daemon.Lifecycle
use boostlock.Daemon.Lifecycle.{
  DaemonState, running, paused, BoostLockDaemon, DaemonError, startup_failed, invalid_config,
  raised, Outcome, is_running, is_paused, calling, enter, with_plan, engage, mark_locked,
  mark_unlocked, reconfigured,
}
use boostlock.Daemon.Lifecycle.Release.{start-AfterStart}
use boostlock.Daemon.Requests.{
  Request, status_report, metrics_report, in_state, locked_in, unlocked_in, settings, dispatch,
  handle_ipc_request,
}
use boostlock.Daemon.Requests.Outcomes.{
  Answers, reply-Answers, reported-Ends, nothing_held, start-Ends, pause-Ends, resume-Ends,
  lock-Ends, unlock-Ends, reconfigure-Ends,
}

module _ (F : Float) {X S : Type 0} (sys : Subsystems F X S) where
  dispatch-Answers :
      (c : Command) (req : Request F) (d : BoostLockDaemon F S)
      → Answers F sys c req d (dispatch F sys c req d)
  unfolding dispatch
  dispatch-Answers ping req d = inl (_, refl, (refl, refl))
  dispatch-Answers status req d =
      reply-Answers F sys status req d (λ _. status_report) _
        (reported-Ends F sys (sys.read_status d.subsystems) d _ _ (refl, refl) refl)
  dispatch-Answers start req d =
      reply-Answers F sys start req d (λ d'. in_state d'.state) (Lifecycle.start F sys d)
        (start-Ends F sys req d _ (start-AfterStart F sys (λ _ _. false) (nothing_held F sys) d))
  dispatch-Answers stop req d = inl (_, refl, (refl, refl))
  dispatch-Answers pause_command req d =
      reply-Answers F sys pause_command req d (λ d'. in_state d'.state) _ (pause-Ends F sys req d)
  dispatch-Answers resume_command req d =
      reply-Answers F sys resume_command req d (λ d'. in_state d'.state) _ (resume-Ends F sys req d)
  dispatch-Answers lock_command req d =
      reply-Answers F sys lock_command req d (λ d'. locked_in d'.state) _ (lock-Ends F sys req d)
  dispatch-Answers unlock_command req d =
      reply-Answers F sys unlock_command req d (λ d'. unlocked_in d'.state) _
        (unlock-Ends F sys req d)
  dispatch-Answers reconfigure req d =
      reply-Answers F sys reconfigure req d (λ d'. settings d'.config) _
        (reconfigure-Ends F sys req d)
  dispatch-Answers metrics req d =
      reply-Answers F sys metrics req d (λ _. metrics_report) _
        (reported-Ends F sys (sys.read_metrics d.subsystems) d _ _ (refl, refl) refl)
  dispatch-Answers config req d = inl (_, refl, (refl, refl))

  -- Every request is answered under its own id, with success and data or with failure and an error.
  -- After a success the state and lock named are the daemon's, START has left it RUNNING, LOCK locked,
  -- UNLOCK unlocked, PAUSE not RUNNING, RESUME not PAUSED, and RECONFIGURE has left a valid
  -- configuration. PING, STATUS, METRICS and CONFIG never change the daemon, STOP only schedules,
  -- a failed START leaves it unlocked, and the other failures keep its state and lock.
  pub handle_ipc_request-Answers :
      (req : Request F) (d : BoostLockDaemon F S)
      → Answers F sys req.command req d (handle_ipc_request F sys req d)
  unfolding handle_ipc_request
  handle_ipc_request-Answers req d = dispatch-Answers req.command req d
