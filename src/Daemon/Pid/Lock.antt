-- ===== src/Daemon/Pid/Lock.antt =====
-- What the PID file keeps apart, and what it does not.
use boostlock.Prelude.{
  ℕ, Bool, true, false, Option, none, some, Result, ok, err, Result-cases, ◌≡◌, ◌≢◌, refl, sym, inl,
  inr, arith,
}
use boostlock.Prelude.Int.{ℤ}
use boostlock.Daemon.Pid.{
  OsError, PidOs, PidError, file_error, running_error, raised, PidFileManager, Outcome, refusal,
  refused_lock, write_pid, record_pid, lock_opened, open_pid, acquire, release,
}

module _ {S : Type 0} (os : PidOs S) where
  -- The advisory locks of the system: `locked` says that some open descriptor holds the lock of the
  -- file at the path. Making the parent and opening leave it, a lock is refused to a newly opened
  -- descriptor just then, and a path that has been unlinked names no locked file.
  pub record IsAdvisory (locked : S → Bool) : Type 0 where
    pub parent_kept : (s : S) → locked (os.make_parent s).1 ≡ locked s
    pub open_kept : (s : S) → locked (os.open_file s).1 ≡ locked s
    pub excludes :
        (s : S) (fd : ℕ)
        → (os.open_file s).0 ≡ ok fd
        → locked s ≡ true
        → (x : OsError) × ((os.lock_exclusive fd (os.open_file s).1).0 ≡ err x)
    pub admits :
        (s : S) (fd : ℕ)
        → (os.open_file s).0 ≡ ok fd
        → locked s ≡ false
        → (os.lock_exclusive fd (os.open_file s).1).0 ≡ ok tt
    pub removed : (s : S) → (os.unlink s).0 ≡ ok tt → locked (os.unlink s).1 ≡ false

  abbrev Holds : PidFileManager → Type 0
  Holds m = (m.is_locked ≡ true) × (m.fd ≢ none)

  abbrev IsRefusal : Result PidError (Unit {0}) → Type 0
  IsRefusal (err (running_error _)) = Unit
  IsRefusal _ = ⊥

  -- the outcome of an acquire by a manager `m`, where the file was locked or not before
  abbrev pub AcquireOutcome : Bool → PidFileManager → Outcome S → Type 0
  AcquireOutcome locked m (ok _, (m', _)) = (locked ≡ false) × Holds m'
  AcquireOutcome locked m (err (running_error _), (m', _)) = (locked ≡ true) × (m' ≡ m)
  AcquireOutcome locked m (err _, (m', _)) = m' ≡ m

  refusal-AcquireOutcome :
      (p : Option ℤ) (b : Bool) (m : PidFileManager) (s : S)
      → AcquireOutcome true m (err (refusal os p b), (m, s))
  refusal-AcquireOutcome none b m s = (refl, refl)
  refusal-AcquireOutcome (some p) true m s = (refl, refl)
  refusal-AcquireOutcome (some p) false m s = (refl, refl)

  refused_lock-AcquireOutcome :
      (m : PidFileManager) (fd : ℕ) (s : S) → AcquireOutcome true m (refused_lock os m fd s)
  refused_lock-AcquireOutcome m fd s = elim (Result-cases (os.close fd s).0) [
    | inl (_, e) ↦ rw (e, refused_lock) (refusal-AcquireOutcome _ _ m (os.close fd s).1)
    | inr (x, e) ↦ rw (e, refused_lock) refl
  ]

  record_pid-AcquireOutcome :
      (m : PidFileManager) (fd : ℕ) (s : S) → AcquireOutcome false m (record_pid os m fd s)
  record_pid-AcquireOutcome m fd s = elim (Result-cases (write_pid os fd s).0) [
    | inl (_, e) ↦ rw (e, record_pid) (refl, (refl, ground arith))
    | inr (x, e) ↦ rw (e, record_pid) refl
  ]

  module _ (locked : S → Bool) (law : IsAdvisory locked) where
    lock_opened-AcquireOutcome :
        (m : PidFileManager) (fd : ℕ) (s : S)
        → (os.open_file s).0 ≡ ok fd
        → (b : Bool) → locked s ≡ b
        → AcquireOutcome b m (lock_opened os m fd (os.open_file s).1)
    lock_opened-AcquireOutcome m fd s opened true held =
        rw ((law.excludes s fd opened held).1, lock_opened) (refused_lock-AcquireOutcome m fd _)
    lock_opened-AcquireOutcome m fd s opened false free =
        rw (law.admits s fd opened free, lock_opened) (record_pid-AcquireOutcome m fd _)

    open_pid-AcquireOutcome :
        (m : PidFileManager) (s : S) → AcquireOutcome (locked s) m (open_pid os m s)
    open_pid-AcquireOutcome m s = elim (Result-cases (os.open_file s).0) [
      | inl (fd, e) ↦ rw (e, open_pid) (lock_opened-AcquireOutcome m fd s e (locked s) refl)
      | inr (x, e) ↦ rw (e, open_pid) refl
    ]

    -- `acquire` gets the lock only where no descriptor held it, and then the manager holds it; it is
    -- refused with a DaemonRunningError only where one did; and wherever it raises, the manager is as
    -- before.
    pub acquire-AcquireOutcome :
        (m : PidFileManager) (s : S) → AcquireOutcome (locked s) m (acquire os m s)
    unfolding acquire
    acquire-AcquireOutcome m s = elim (Result-cases (os.make_parent s).0) [
      | inl (_, e) ↦
          rw (e, acquire, ← law.parent_kept s) (open_pid-AcquireOutcome m (os.make_parent s).1)
      | inr (x, e) ↦ rw (e, acquire) refl
    ]

    not_refused :
        (m : PidFileManager) (o : Outcome S) (p : Option ℤ)
        → AcquireOutcome false m o
        → o.0 ≢ err (running_error p)
    not_refused m (ok _, _) p outcome = ground arith
    not_refused m (err file_error, _) p outcome = ground arith
    not_refused m (err (raised x), _) p outcome = ground arith
    not_refused m (err (running_error q), _) p (e, _) = ground arith

    not_acquired : (m : PidFileManager) (o : Outcome S) → AcquireOutcome true m o → o.0 ≢ ok tt
    not_acquired m (ok _, _) (e, _) = ground arith
    not_acquired m (err x, _) outcome = ground arith

    -- While a descriptor holds the lock of the PID file no acquire succeeds. But a release by a manager
    -- that does not hold it, which is what a refused start ends with, unlinks the file all the same:
    -- where the unlink returns, no acquire after it is refused as a second instance.
    pub release-acquire :
        (m n : PidFileManager) (s : S)
        → locked s ≡ true
        → m.fd ≡ none
        → (os.unlink s).0 ≡ ok tt
        → ((acquire os n s).0 ≢ ok tt)
          × ((p : Option ℤ) → (acquire os n (release os m s).1).0 ≢ err (running_error p))
    unfolding release
    release-acquire m n s held unheld unlinked = (
      not_acquired n (acquire os n s) (rw (sym held) (acquire-AcquireOutcome n s)),
      λ p. not_refused n (acquire os n (release os m s).1) p (
          rw (unheld, release, sym (law.removed s unlinked))
            (acquire-AcquireOutcome n (os.unlink s).1)),
    )
