-- ===== src/Daemon/Pid/Owner.antt =====
-- The descriptor that an acquire of the PID file leaves open, and who holds the file's lock.
pub mod Acquiring
use boostlock.Prelude.{
  ℕ, Bool, true, false, Option, none, some, ok, err, Bool-cases, Result-cases, ◌≡◌, ◌≢◌, refl, sym,
  ◌∙◌, ap, inl, inr, ◌==◌, ==_iff, if◌then◌else◌,
}
use boostlock.Prelude.Int.{ℤ}
use boostlock.Prelude.Descriptors.{Fds, with_fd, without_fd, without-with_fd}
use boostlock.Daemon.Subsystems.{Call, ◌then◌}
use boostlock.Daemon.Pid.{
  OsError, PidOs, file_error, running_error, raised, PidFileManager, Outcome, refusal, refused_lock,
  write_pid, record_pid, lock_opened, open_pid, acquire,
}

-- who holds the lock of the PID file: nobody, a descriptor of another process or of an earlier call,
-- or the one of a number
pub data Owner : Type 0 where
  nobody someone_else : Owner
  ours : ℕ → Owner

-- the owner once the descriptor is unlocked or closed
abbrev pub owner_after : ℕ → Owner → Owner
owner_after fd nobody = nobody
owner_after fd someone_else = someone_else
owner_after fd (ours n) = if n == fd then nobody else ours n

module _ {S : Type 0} (os : PidOs S) (fds : S → Fds) (owner : S → Owner) where
  abbrev pub Keeps : Call OsError S → Type 0
  Keeps call = (s : S) → (fds (call s).1 ≡ fds s) × (owner (call s).1 ≡ owner s)

  -- The descriptors of the process and `flock`. `open` gives a descriptor that was not open. A lock
  -- that somebody holds is refused to a newly opened descriptor, and a lock that nobody holds is given
  -- to it. Unlocking the descriptor that holds the lock returns, and a descriptor is gone after `close`
  -- even where that raises, with its lock, so the one that holds the lock is open. The other calls
  -- change neither.
  pub record IsFlock : Type 0 where
    pub parent_kept : Keeps os.make_parent
    pub unused : (s : S) (fd : ℕ) → (os.open_file s).0 ≡ ok fd → fds s fd ≡ false
    pub opened :
        (s : S) (fd : ℕ) → (os.open_file s).0 ≡ ok fd → fds (os.open_file s).1 ≡ with_fd fd (fds s)
    pub unopened :
        (s : S) (x : OsError) → (os.open_file s).0 ≡ err x → fds (os.open_file s).1 ≡ fds s
    pub open_kept : (s : S) → owner (os.open_file s).1 ≡ owner s
    pub excludes :
        (s : S) (fd : ℕ)
        → (os.open_file s).0 ≡ ok fd
        → owner s ≢ nobody
        → (x : OsError) × ((os.lock_exclusive fd (os.open_file s).1).0 ≡ err x)
    pub admits :
        (s : S) (fd : ℕ)
        → (os.open_file s).0 ≡ ok fd
        → owner s ≡ nobody
        → (os.lock_exclusive fd (os.open_file s).1).0 ≡ ok tt
    pub locked :
        (fd : ℕ) (s : S)
        → (os.lock_exclusive fd s).0 ≡ ok tt
        → owner (os.lock_exclusive fd s).1 ≡ ours fd
    pub refused :
        (fd : ℕ) (s : S) (x : OsError)
        → (os.lock_exclusive fd s).0 ≡ err x
        → owner (os.lock_exclusive fd s).1 ≡ owner s
    pub lock_kept : (fd : ℕ) (s : S) → fds (os.lock_exclusive fd s).1 ≡ fds s
    pub unlock_returns : (fd : ℕ) (s : S) → owner s ≡ ours fd → (os.unlock fd s).0 ≡ ok tt
    pub unlocked : (fd : ℕ) (s : S) → owner s ≡ ours fd → owner (os.unlock fd s).1 ≡ nobody
    pub unlock_kept : (fd : ℕ) (s : S) → fds (os.unlock fd s).1 ≡ fds s
    pub closed : (fd : ℕ) (s : S) → fds (os.close fd s).1 ≡ without_fd fd (fds s)
    pub close_drops : (fd : ℕ) (s : S) → owner (os.close fd s).1 ≡ owner_after fd (owner s)
    pub holder_open : (s : S) (n : ℕ) → owner s ≡ ours n → fds s n ≡ true
    pub truncated : (fd : ℕ) → Keeps (os.truncate fd)
    pub sought : (fd : ℕ) → Keeps (os.seek_start fd)
    pub written : (fd : ℕ) → Keeps (os.write_own_pid fd)
    pub synced : (fd : ℕ) → Keeps (os.sync fd)

  -- the manager, the descriptors and the owner of the lock are as before
  pub record IsUntouched (m : PidFileManager) (s : S) (m' : PidFileManager) (s' : S) : Type 0 where
    pub same_manager : m' ≡ m
    pub same_fds : fds s' ≡ fds s
    pub same_owner : owner s' ≡ owner s

  -- the manager remembers the one descriptor more that is open, and it holds the lock
  pub record IsHeld (s : S) (m' : PidFileManager) (s' : S) : Type 0 where
    pub fd : ℕ
    pub new : fds s fd ≡ false
    pub remembered : m' ≡ record { fd = some fd; is_locked = true }
    pub open_fds : fds s' ≡ with_fd fd (fds s)
    pub held : owner s' ≡ ours fd

  -- the outcome of an acquire by the manager `m` in the state `s`
  abbrev pub Acquired : PidFileManager → S → Outcome S → Type 0
  Acquired m s (ok _, (m', s')) = (owner s ≡ nobody) × IsHeld s m' s'
  Acquired m s (err (running_error _), (m', s')) = (owner s ≢ nobody) × IsUntouched m s m' s'
  Acquired m s (err _, (m', s')) = IsUntouched m s m' s'
