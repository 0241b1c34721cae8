-- ===== src/Daemon/Requests.antt =====
-- `handle_ipc_request` of boostlock/daemon.py, and the events that act on the daemon.
pub mod Outcomes
pub mod Replies
pub mod Histories
pub mod Soundness
use boostlock.Prelude.{
  String, Bool, true, false, Option, none, some, List, [], ◌∷◌, Result, ok, err,
}
use boostlock.Prelude.Float.{Float}
use boostlock.Config.{BoostLockConfig, Setting, ConfigValidationError}
use boostlock.Protocol.{
  Command, ping, status, start, stop, pause_command, resume_command, reconfigure, lock_command,
  unlock_command, metrics, config,
}
use boostlock.Daemon.Subsystems.{Subsystems}
use boostlock.Daemon.Lifecycle
use boostlock.Daemon.Lifecycle.{
  DaemonState, Cleanup, DaemonError, raised, BoostLockDaemon, Outcome, on_thermal_tripwire,
  on_thermal_recovery,
}

-- The fields of a request that the dispatch reads. `Request.from_dict` has refused an unknown command.
pub record Request (F : Float) : Type 0 where
  pub command : Command
  pub args : List (Setting F)
  pub request_id : String

-- What the data of a response tells. The status, the metrics and the policy targets are reports of
-- the subsystems, which stay abstract.
pub data Payload (F : Float) : Type 0 where
  pong : DaemonState → Bool → Payload F
  status_report metrics_report stopping : Payload F
  in_state : DaemonState → Payload F
  locked_in unlocked_in : DaemonState → Payload F
  settings : BoostLockConfig F → Payload F

-- `Response.ok` and `Response.fail`
pub record Response (F : Float) (X : Type 0) : Type 0 where
  pub success : Bool
  pub payload : Option (Payload F)
  pub error : Option (DaemonError X)
  pub request_id : Option String

module _ (F : Float) {X S : Type 0} (sys : Subsystems F X S) where
  abbrev pub succeed : Payload F → Request F → Response F X
  succeed payload req = record {
    success = true;
    payload = some payload;
    error = none;
    request_id = some req.request_id;
  }

  abbrev pub fail : DaemonError X → Request F → Response F X
  fail e req = record {
    success = false;
    payload = none;
    error = some e;
    request_id = some req.request_id;
  }

  -- the `try` around the branches: what a handler raises becomes the failure's error
  abbrev pub reply :
      Request F
      → (BoostLockDaemon F S → Payload F)
      → Outcome F sys
      → Response F X × BoostLockDaemon F S
  reply req payload (ok _, d) = (succeed (payload d) req, d)
  reply req payload (err e, d) = (fail e req, d)

  -- a report that is read from the subsystems and changes nothing
  abbrev pub reported : Result X (Unit {0}) → BoostLockDaemon F S → Outcome F sys
  reported (ok _) d = (ok tt, d)
  reported (err x) d = (err (raised x), d)

  -- the settings are answered with the policy targets, which are read after the change
  abbrev pub with_targets : Outcome F sys → Outcome F sys
  with_targets (ok _, d) = reported (sys.resolve_policy_targets d.subsystems) d
  with_targets (err e, d) = (err e, d)

  -- the branches on the command
  unfoldable pub dispatch :
      Command → Request F → BoostLockDaemon F S → Response F X × BoostLockDaemon F S
  dispatch ping req d = (succeed (pong d.state d.is_locked_boost) req, d)
  dispatch status req d = reply req (λ _. status_report) (reported (sys.read_status d.subsystems) d)
  dispatch start req d = reply req (λ d'. in_state d'.state) (Lifecycle.start F sys d)
  dispatch stop req d = (succeed stopping req, record d { stop_scheduled = true })
  dispatch pause_command req d = reply req (λ d'. in_state d'.state) (Lifecycle.pause F sys d)
  dispatch resume_command req d = reply req (λ d'. in_state d'.state) (Lifecycle.resume F sys d)
  dispatch lock_command req d = reply req (λ d'. locked_in d'.state) (Lifecycle.lock F sys d)
  dispatch unlock_command req d = reply req (λ d'. unlocked_in d'.state) (Lifecycle.unlock F sys d)
  dispatch reconfigure req d =
      reply req (λ d'. settings d'.config) (with_targets (Lifecycle.reconfigure F sys req.args d))
  dispatch metrics req d =
      reply req (λ _. metrics_report) (reported (sys.read_metrics d.subsystems) d)
  dispatch config req d = (succeed (settings d.config) req, d)

  unfoldable pub handle_ipc_request :
      Request F → BoostLockDaemon F S → Response F X × BoostLockDaemon F S
  unfolding dispatch
  handle_ipc_request req d = dispatch req.command req d

  -- A client's request, the thread that a STOP has scheduled, a signal or the end of `run`, and the
  -- callbacks of the thermal guard, where they are called with a reading. Each is one step.
  pub data Event : Type 0 where
    asked : Request F → Event
    scheduled_stop signalled tripped recovered : Event

  abbrev scheduled : Bool → BoostLockDaemon F S → BoostLockDaemon F S
  scheduled true d = record (Lifecycle.stop F sys d) { stop_scheduled = false }
  scheduled false d = d

  unfoldable pub react : Event → BoostLockDaemon F S → BoostLockDaemon F S
  unfolding handle_ipc_request
  react (asked req) d = (handle_ipc_request req d).1
  react scheduled_stop d = scheduled d.stop_scheduled d
  react signalled d = Lifecycle.stop F sys d
  react tripped d = on_thermal_tripwire F sys d
  react recovered d = on_thermal_recovery F sys d

  unfoldable pub serve : List Event → BoostLockDaemon F S → BoostLockDaemon F S
  unfolding react
  serve [] d = d
  serve (e ∷ events) d = serve events (react e d)
