-- ===== src/Daemon/Pid/Owner/Acquiring.antt =====
-- Every way through `acquire` of the PID file.
use boostlock.Prelude.{
  ℕ, Bool, true, false, Option, none, some, ok, err, Bool-cases, Result-cases, ◌≡◌, ◌≢◌, refl, sym,
  ◌∙◌, ap, inl, inr, ◌==◌, ==_iff, if◌then◌else◌,
}
use boostlock.Prelude.Int.{ℤ}
use boostlock.Prelude.Descriptors.{Fds, with_fd, without_fd, without-with_fd}
use boostlock.Daemon.Subsystems.{Call, ◌then◌}
use boostlock.Daemon.Pid.{
  OsError, PidOs, file_error, running_error, raised, PidFileManager, Outcome, refusal, refused_lock,
  write_pid, record_pid, lock_opened, open_pid, acquire,
}
use boostlock.Daemon.Pid.Owner.{
  Owner, nobody, someone_else, ours, owner_after, Keeps, IsFlock, IsUntouched, Acquired,
}

module _ {S : Type 0} (os : PidOs S) (fds : S → Fds) (owner : S → Owner) where
  then-Keeps :
      (f g : Call OsError S)
      → Keeps os fds owner f
      → Keeps os fds owner g
      → Keeps os fds owner (f then g)
  then-Keeps f g keeps then_keeps s = elim (Result-cases (f s).0) [
    | inl (_, e) ↦
        let (a, b) = keeps s in let (c, d) = then_keeps (f s).1 in rw (e, ◌then◌) (c ∙ a, d ∙ b)
    | inr (x, e) ↦ rw (e, ◌then◌) (keeps s)
  ]

  unlock_close :
      (fd : ℕ) (t : S)
      → (os.unlock fd t).0 ≡ ok tt
      → ((os.unlock fd then os.close fd) t).1 ≡ (os.close fd (os.unlock fd t).1).1
  unlock_close fd t h = rw (h, ◌then◌) refl

  module _ (law : IsFlock os fds owner) where
    write_pid-Keeps : (fd : ℕ) → Keeps os fds owner (write_pid os fd)
    write_pid-Keeps fd =
        let start = os.truncate fd then os.seek_start fd in
        let moved =
          then-Keeps (os.truncate fd) (os.seek_start fd) (law.truncated fd) (law.sought fd) in
        let wrote = then-Keeps start (os.write_own_pid fd) moved (law.written fd) in
        then-Keeps (start then os.write_own_pid fd) (os.sync fd) wrote (law.synced fd)

    -- the state `o` once the file is open, in which a lock has been tried
    module _ (m : PidFileManager) (s : S) (fd : ℕ) (file : (os.open_file s).0 ≡ ok fd) where
      abbrev o : S
      o = (os.open_file s).1

      abbrev tried : S
      tried = (os.lock_exclusive fd o).1

      tried-fds : fds tried ≡ with_fd fd (fds s)
      tried-fds = law.lock_kept fd o ∙ law.opened s fd file

      -- `fd` is closed again and the owner is the one before
      closed_again : (t : S) → fds t ≡ with_fd fd (fds s) → fds (os.close fd t).1 ≡ fds s
      closed_again t h =
          law.closed fd t ∙ ap (without_fd fd) h ∙ without-with_fd fd (fds s) (law.unused s fd file)

      apart : (n : ℕ) → owner s ≡ ours n → (n == fd) ≡ false
      apart n held = elim (Bool-cases (n == fd)) [
        | inr differs ↦ differs
        | inl same ↦
            let e : n ≡ fd = (==_iff n fd).0 same in
            absurd (cc (law.holder_open s n held, law.unused s fd file, e))
      ]

      not_dropped : (w : Owner) → owner s ≡ w → owner_after fd w ≡ w
      not_dropped nobody held = refl
      not_dropped someone_else held = refl
      not_dropped (ours n) held = rw (apart n held) refl

      refusal-Acquired :
          (p : Option ℤ) (b : Bool) (t : S)
          → owner s ≢ nobody
          → IsUntouched os fds owner m s m t
          → Acquired os fds owner m s (err (refusal os p b), (m, t))
      refusal-Acquired none b t taken same = (taken, same)
      refusal-Acquired (some p) true t taken same = (taken, same)
      refusal-Acquired (some p) false t taken same = (taken, same)

      refused_lock-Acquired :
          (x : OsError)
          → (os.lock_exclusive fd o).0 ≡ err x
          → owner s ≢ nobody
          → Acquired os fds owner m s (refused_lock os m fd tried)
      refused_lock-Acquired x fails taken =
          let t = (os.close fd tried).1 in
          let same : IsUntouched os fds owner m s m t = record {
            same_manager = refl;
            same_fds = closed_again tried tried-fds;
            same_owner =
                law.close_drops fd tried
                ∙ ap (owner_after fd) (law.refused fd o x fails ∙ law.open_kept s)
                ∙ not_dropped (owner s) refl;
          } in
          elim (Result-cases (os.close fd tried).0) [
            | inl (_, e) ↦ rw (e, refused_lock) (refusal-Acquired _ _ t taken same)
            | inr (y, e) ↦ rw (e, refused_lock) same
          ]

      record_pid-Acquired :
          (os.lock_exclusive fd o).0 ≡ ok tt
          → owner s ≡ nobody
          → Acquired os fds owner m s (record_pid os m fd tried)
      record_pid-Acquired granted free =
          let t = (write_pid os fd tried).1 in
          let (kept, still) = write_pid-Keeps fd tried in
          let open_fds : fds t ≡ with_fd fd (fds s) = kept ∙ tried-fds in
          let held : owner t ≡ ours fd = still ∙ law.locked fd o granted in
          let u = (os.unlock fd t).1 in
          let same : IsUntouched os fds owner m s m (os.close fd u).1 = record {
            same_manager = refl;
            same_fds = closed_again u (law.unlock_kept fd t ∙ open_fds);
            same_owner =
                law.close_drops fd u ∙ ap (owner_after fd) (law.unlocked fd t held) ∙ sym free;
          } in
          elim (Result-cases (write_pid os fd tried).0) [
            | inl (_, e) ↦
                rw (e, record_pid)
                  (
                    free,
                    record {
                      fd = fd;
                      new = law.unused s fd file;
                      remembered = refl;
                      open_fds = open_fds;
                      held = held;
                    },
                  )
            | inr (y, e) ↦ rw (e, record_pid, unlock_close fd t (law.unlock_returns fd t held)) same
          ]

      lock_opened-Acquired :
          (w : Owner) → owner s ≡ w → Acquired os fds owner m s (lock_opened os m fd o)
      lock_opened-Acquired nobody e =
          rw (law.admits s fd file e, lock_opened) (record_pid-Acquired (law.admits s fd file e) e)
      lock_opened-Acquired someone_else e =
          let taken : owner s ≢ nobody = λ h. cc (h, e) in
          let (x, fails) = law.excludes s fd file taken in
          rw (fails, lock_opened) (refused_lock-Acquired x fails taken)
      lock_opened-Acquired (ours n) e =
          let taken : owner s ≢ nobody = λ h. cc (h, e) in
          let (x, fails) = law.excludes s fd file taken in
          rw (fails, lock_opened) (refused_lock-Acquired x fails taken)

    open_pid-Acquired : (m : PidFileManager) (s : S) → Acquired os fds owner m s (open_pid os m s)
    open_pid-Acquired m s = elim (Result-cases (os.open_file s).0) [
      | inl (fd, e) ↦ rw (e, open_pid) (lock_opened-Acquired m s fd e (owner s) refl)
      | inr (x, e) ↦
          rw (e, open_pid)
            (record {
              same_manager = refl;
              same_fds = law.unopened s x e;
              same_owner = law.open_kept s;
            })
    ]

    -- the outcome counts from the state before the parent was made
    Acquired-before :
        (m : PidFileManager) (s t : S) (r : Outcome S)
        → fds t ≡ fds s
        → owner t ≡ owner s
        → Acquired os fds owner m t r
        → Acquired os fds owner m s r
    Acquired-before m s t (ok _, (m', s')) f w (free, h) = (
      sym w ∙ free,
      record {
        fd = h.fd;
        new = rw (← f) h.new;
        remembered = h.remembered;
        open_fds = rw (← f) h.open_fds;
        held = h.held;
      },
    )
    Acquired-before m s t (err (running_error p), (m', s')) f w (taken, h) = (
      λ e. taken (w ∙ e),
      record {
        same_manager = h.same_manager;
        same_fds = h.same_fds ∙ f;
        same_owner = h.same_owner ∙ w;
      },
    )
    Acquired-before m s t (err file_error, (m', s')) f w h = record {
      same_manager = h.same_manager;
      same_fds = h.same_fds ∙ f;
      same_owner = h.same_owner ∙ w;
    }
    Acquired-before m s t (err (raised x), (m', s')) f w h = record {
      same_manager = h.same_manager;
      same_fds = h.same_fds ∙ f;
      same_owner = h.same_owner ∙ w;
    }

    -- `acquire` that returns got a lock that nobody held: the manager remembers the one descriptor that
    -- is open besides those before, and that one holds the lock. It raises a DaemonRunningError only
    -- where somebody held the lock. Wherever it raises, the manager, the open descriptors and the owner
    -- of the lock are as before.
    pub acquire-Acquired : (m : PidFileManager) (s : S) → Acquired os fds owner m s (acquire os m s)
    unfolding acquire
    acquire-Acquired m s = elim (Result-cases (os.make_parent s).0) [
      | inl (_, e) ↦
          let t = (os.make_parent s).1 in
          let (f, w) = law.parent_kept s in
          rw (e, acquire) (Acquired-before m s t (open_pid os m t) f w (open_pid-Acquired m t))
      | inr (x, e) ↦
          let (f, w) = law.parent_kept s in
          rw (e, acquire) (record { same_manager = refl; same_fds = f; same_owner = w })
    ]
