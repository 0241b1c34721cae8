-- ===== src/Daemon/Pid.antt =====
-- `PIDFileManager` of boostlock/daemon.py: the PID file that one daemon at a time may lock.
pub mod Lock
pub mod Owner
use boostlock.Prelude.{
  ℕ, String, Bool, true, false, Option, none, some, Result, ok, err, if◌then◌else◌,
}
use boostlock.Prelude.Int.{ℤ}
use boostlock.Prelude.Dict.{String_eq}
use boostlock.Daemon.Subsystems.{Call, ◌then◌}

-- ProcessLookupError, PermissionError and any other OSError
pub data OsError : Type 0 where
  no_process denied other_os : OsError

-- What the code calls on the operating system, each call on the one path of the PID file or on a
-- descriptor, and on strings: `strip` and `int`, which is none where it raises.
pub record PidOs (S : Type 0) : Type 0 where
  pub make_parent : Call OsError S
  pub open_file : S → Result OsError ℕ × S
  pub lock_exclusive : ℕ → Call OsError S
  pub unlock : ℕ → Call OsError S
  pub close : ℕ → Call OsError S
  pub truncate : ℕ → Call OsError S
  pub seek_start : ℕ → Call OsError S
  pub write_own_pid : ℕ → Call OsError S
  pub sync : ℕ → Call OsError S
  pub unlink : Call OsError S
  pub is_file : S → Bool
  pub read_text : S → Result OsError String
  pub kill_0 : ℤ → S → Result OsError (Unit {0})
  pub strip : String → String
  pub int : String → Option ℤ

-- PIDFileError and DaemonRunningError, with the PID in its message, and what passes through
pub data PidError : Type 0 where
  file_error : PidError
  running_error : Option ℤ → PidError
  raised : OsError → PidError

pub record PidFileManager : Type 0 where
  pub fd : Option ℕ
  pub is_locked : Bool

-- a call on the manager: what it returns or raises, the manager and the system after it
abbrev pub Outcome : Type 0 → Type 0
Outcome S = Result PidError (Unit {0}) × (PidFileManager × S)

module _ {S : Type 0} (os : PidOs S) where
  abbrev parsed : String → Option ℤ
  parsed content = if String_eq.beq content "" then none else os.int content

  unfoldable pub read_pid : S → Option ℤ
  read_pid s =
      if os.is_file s
      then elim (os.read_text s) [ err _ ↦ none | ok text ↦ parsed (os.strip text) ]
      else none

  abbrev alive : Result OsError (Unit {0}) → Bool
  alive (ok _) = true
  alive (err denied) = true
  alive (err _) = false

  unfoldable pub is_daemon_running : S → Bool
  unfolding read_pid
  is_daemon_running s = elim (read_pid s) [ none ↦ false | some pid ↦ alive (os.kill_0 pid s) ]

  -- the message of the refusal tells the PID that it read before the close, where it is alive
  abbrev refusal : Option ℤ → Bool → PidError
  refusal (some pid) true = running_error (some pid)
  refusal _ _ = running_error none

  -- the `except` of the lock
  abbrev refused_lock : PidFileManager → ℕ → S → Outcome S
  refused_lock m fd s =
      let (r, s') = os.close fd s in
      elim r [
        | err x ↦ (err (raised x), (m, s'))
        | ok _ ↦ (err (refusal (read_pid s) (is_daemon_running s')), (m, s'))
      ]

  abbrev write_pid : ℕ → Call OsError S
  write_pid fd = os.truncate fd then os.seek_start fd then os.write_own_pid fd then os.sync fd

  -- the PID is written once the lock is held, or both are undone
  abbrev record_pid : PidFileManager → ℕ → S → Outcome S
  record_pid m fd s =
      let (r, s') = write_pid fd s in
      elim r [
        | ok _ ↦ (ok tt, (record m { fd = some fd; is_locked = true }, s'))
        | err _ ↦ (err file_error, (m, ((os.unlock fd then os.close fd) s').1))
      ]

  abbrev lock_opened : PidFileManager → ℕ → S → Outcome S
  lock_opened m fd s =
      let (r, s') = os.lock_exclusive fd s in
      elim r [ ok _ ↦ record_pid m fd s' | err _ ↦ refused_lock m fd s' ]

  abbrev open_pid : PidFileManager → S → Outcome S
  open_pid m s =
      let (r, s') = os.open_file s in
      elim r [ ok fd ↦ lock_opened m fd s' | err _ ↦ (err file_error, (m, s')) ]

  unfoldable pub acquire : PidFileManager → S → Outcome S
  unfolding read_pid is_daemon_running
  acquire m s =
      let (r, s') = os.make_parent s in
      elim r [ ok _ ↦ open_pid m s' | err x ↦ (err (raised x), (m, s')) ]

  abbrev pub close_held : Option ℕ → S → S
  close_held none s = s
  close_held (some fd) s = ((os.unlock fd then os.close fd) s).1

  -- what goes wrong is logged, and the file is removed in any case
  unfoldable pub release : PidFileManager → S → PidFileManager × S
  release m s = (record m { fd = none; is_locked = false }, (os.unlink (close_held m.fd s)).1)
