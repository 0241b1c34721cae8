-- ===== src/State/Signals.antt =====
-- The signal and exit handlers of `StateSnapshotManager` in boostlock/state.py.
--
-- `fails` tells for which signals `signal.signal` raises `ValueError` or `OSError`.
pub mod PutBack
use boostlock.Prelude.{
  ℕ, ◌+◌, Bool, true, false, Option, none, some, List, [], ◌∷◌, ◌==◌, if◌then◌else◌,
}
use boostlock.Prelude.Dict.{Dict, ℕ_eq, get, set}

-- None, SIG_DFL, SIG_IGN, `default_int_handler`, a function of the program by a number, and
-- `_signal_handler`
pub data Handler : Type 0 where
  not_python default_action ignored default_int own_handler : Handler
  function : ℕ → Handler

-- the manager's fields, the handlers of the process by signal number, and whether the exit hook is in
-- place
pub record SignalState : Type 0 where
  pub signal_handlers_registered : Bool
  pub previous_signal_handlers : Dict ℕ Handler
  pub atexit_registered : Bool
  pub table : ℕ → Handler

-- SIGINT, SIGTERM, SIGHUP and SIGQUIT
abbrev pub target_signals : List ℕ
target_signals = 2 ∷ 15 ∷ 1 ∷ 3 ∷ []

abbrev pub with_handler : ℕ → Handler → (ℕ → Handler) → ℕ → Handler
with_handler sig h table n = if sig == n then h else table n

unfoldable pub register_each : (ℕ → Bool) → List ℕ → SignalState → SignalState
register_each fails [] m = m
register_each fails (sig ∷ rest) m =
    let next = record m {
      previous_signal_handlers = set sig (m.table sig) m.previous_signal_handlers;
      table = with_handler sig own_handler m.table;
    } in
    register_each fails rest (if fails sig then m else next)

unfoldable pub register_signal_handlers : (ℕ → Bool) → SignalState → SignalState
unfolding register_each
register_signal_handlers fails m =
    let done = record (register_each fails target_signals m) {
      signal_handlers_registered = true;
    } in
    if m.signal_handlers_registered then m else done

abbrev pub put_back_one : (ℕ → Bool) → ℕ → Handler → (ℕ → Handler) → ℕ → Handler
put_back_one fails sig h table =
    let next = if fails sig then table else with_handler sig h table in
    elim h [
      | not_python ↦ table
      | default_action ↦ next
      | ignored ↦ next
      | default_int ↦ next
      | own_handler ↦ next
      | function f ↦ next
    ]

-- the loop over the saved handlers
unfoldable pub put_back_each : (ℕ → Bool) → Dict ℕ Handler → (ℕ → Handler) → ℕ → Handler
put_back_each fails [] table = table
put_back_each fails ((sig, h) ∷ rest) table =
    put_back_each fails rest (put_back_one fails sig h table)

unfoldable pub unregister_signal_handlers : (ℕ → Bool) → SignalState → SignalState
unfolding put_back_each
unregister_signal_handlers fails m =
    let done = record m {
      signal_handlers_registered = false;
      previous_signal_handlers = [];
      table = put_back_each fails m.previous_signal_handlers m.table;
    } in
    if m.signal_handlers_registered then done else m

-- how `_signal_handler` ends after its restore
pub data Ending : Type 0 where
  calls : ℕ → Ending
  exits : ℕ → Ending

unfoldable pub signal_handler : ℕ → SignalState → Ending
signal_handler signum m = elim (get signum m.previous_signal_handlers) [
  | none ↦ exits (128 + signum)
  | some (function f) ↦ calls f
  | some not_python ↦ exits (128 + signum)
  | some default_action ↦ exits (128 + signum)
  | some ignored ↦ exits (128 + signum)
  | some default_int ↦ exits (128 + signum)
  | some own_handler ↦ exits (128 + signum)
]

unfoldable pub register_atexit : SignalState → SignalState
register_atexit m = record m { atexit_registered = true }

unfoldable pub unregister_atexit : SignalState → SignalState
unregister_atexit m = record m { atexit_registered = false }
