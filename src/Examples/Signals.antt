-- ===== src/Examples/Signals.antt =====
-- The handlers of boostlock/state.py in a process that ignores SIGHUP, where SIGQUIT cannot be caught.
use boostlock.Prelude.{ℕ, Bool, false, ◌≡◌, ◌≢◌, refl, [], arith, ◌==◌, if◌then◌else◌}
use boostlock.State.Signals.{
  Handler, not_python, default_action, ignored, SignalState, register_signal_handlers,
  unregister_signal_handlers,
}
use boostlock.State.Signals.PutBack.{unregister-register_signal_handlers}

abbrev handlers : ℕ → Handler
handlers n = if n == 1 then ignored else default_action

abbrev process : SignalState
process = record {
  signal_handlers_registered = false;
  previous_signal_handlers = [];
  atexit_registered = false;
  table = handlers;
}

abbrev uncaught : ℕ → Bool
uncaught n = n == 3

by_python : (k : ℕ) → handlers k ≢ not_python
by_python k e = ground (arith, e)

unregister-register_signal_handlers_example :
    (unregister_signal_handlers (λ k. false) (register_signal_handlers uncaught process)).table 1
    ≡ ignored
unregister-register_signal_handlers_example =
    unregister-register_signal_handlers uncaught process 1 refl refl by_python
