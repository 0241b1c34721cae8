-- ===== src/Examples/Owners.antt =====
-- The PID file of boostlock/daemon.py, held by another process.
use mathlib.Core.Path.{fun_ext}
use boostlock.Prelude.{
  ℕ, true, false, ◌≡◌, ◌≢◌, refl, none, some, Result, ok, err, arith, ◌==◌, if◌then◌else◌,
}
use boostlock.Prelude.Int.{pos}
use boostlock.Prelude.Descriptors.{Fds, with_fd, without_fd}
use boostlock.Daemon.Pid.{OsError, other_os, PidOs, PidFileManager, acquire}
use boostlock.Daemon.Pid.Owner.{Owner, nobody, someone_else, ours, IsFlock, owner_after, Acquired}
use boostlock.Daemon.Pid.Owner.Acquiring.{acquire-Acquired}

-- the file is closed, open or locked here, or locked elsewhere and here closed or open
data World : Type 0 where
  closed_here open_here locked_here locked_there both : World

abbrev fds : World → Fds
fds closed_here n = false
fds open_here n = n == 3
fds locked_here n = n == 3
fds locked_there n = false
fds both n = n == 3

abbrev owner : World → Owner
owner closed_here = nobody
owner open_here = nobody
owner locked_here = ours 3
owner locked_there = someone_else
owner both = someone_else

abbrev open_file : World → Result OsError ℕ × World
open_file closed_here = (ok 3, open_here)
open_file locked_there = (ok 3, both)
open_file w = (err other_os, w)

abbrev lock_3 : World → Result OsError (Unit {0}) × World
lock_3 open_here = (ok tt, locked_here)
lock_3 w = (err other_os, w)

abbrev unlock_3 : World → World
unlock_3 locked_here = open_here
unlock_3 w = w

abbrev close_3 : World → World
close_3 open_here = closed_here
close_3 locked_here = closed_here
close_3 both = locked_there
close_3 w = w

abbrev os : PidOs World
os = record {
  make_parent = λ w. (ok tt, w);
  open_file = open_file;
  lock_exclusive = λ fd w. if fd == 3 then lock_3 w else (err other_os, w);
  unlock = λ fd w. (ok tt, if fd == 3 then unlock_3 w else w);
  close = λ fd w. (ok tt, if fd == 3 then close_3 w else w);
  truncate = λ fd w. (ok tt, w);
  seek_start = λ fd w. (ok tt, w);
  write_own_pid = λ fd w. (err other_os, w);
  sync = λ fd w. (ok tt, w);
  unlink = λ w. (ok tt, w);
  is_file = λ w. true;
  read_text = λ w. ok "17";
  kill_0 = λ pid w. ok tt;
  strip = λ text. text;
  int = λ text. some (pos 17);
}

unused : (w : World) (fd : ℕ) → (os.open_file w).0 ≡ ok fd → fds w fd ≡ false
unused w fd h = ground arith

opened :
    (w : World) (fd : ℕ) → (os.open_file w).0 ≡ ok fd → fds (os.open_file w).1 ≡ with_fd fd (fds w)
opened w fd h = fun_ext λ n. ground arith

unopened : (w : World) (x : OsError) → (os.open_file w).0 ≡ err x → fds (os.open_file w).1 ≡ fds w
unopened w x h = fun_ext λ n. ground arith

open_kept : (w : World) → owner (os.open_file w).1 ≡ owner w
open_kept w = ground arith

excludes :
    (w : World) (fd : ℕ)
    → (os.open_file w).0 ≡ ok fd
    → owner w ≢ nobody
    → (x : OsError) × ((os.lock_exclusive fd (os.open_file w).1).0 ≡ err x)
excludes w fd h taken = (other_os, ground arith)

admits :
    (w : World) (fd : ℕ)
    → (os.open_file w).0 ≡ ok fd
    → owner w ≡ nobody
    → (os.lock_exclusive fd (os.open_file w).1).0 ≡ ok tt
admits w fd h free = ground arith

locked :
    (fd : ℕ) (w : World)
    → (os.lock_exclusive fd w).0 ≡ ok tt
    → owner (os.lock_exclusive fd w).1 ≡ ours fd
locked fd w h = ground arith

refused :
    (fd : ℕ) (w : World) (x : OsError)
    → (os.lock_exclusive fd w).0 ≡ err x
    → owner (os.lock_exclusive fd w).1 ≡ owner w
refused fd w x h = ground arith

lock_kept : (fd : ℕ) (w : World) → fds (os.lock_exclusive fd w).1 ≡ fds w
lock_kept fd w = fun_ext λ n. ground arith

unlocked : (fd : ℕ) (w : World) → owner w ≡ ours fd → owner (os.unlock fd w).1 ≡ nobody
unlocked fd w h = ground arith

unlock_kept : (fd : ℕ) (w : World) → fds (os.unlock fd w).1 ≡ fds w
unlock_kept fd w = fun_ext λ n. ground arith

closed : (fd : ℕ) (w : World) → fds (os.close fd w).1 ≡ without_fd fd (fds w)
closed fd w = fun_ext λ n. ground arith

close_drops : (fd : ℕ) (w : World) → owner (os.close fd w).1 ≡ owner_after fd (owner w)
close_drops fd w = ground arith

holder_open : (w : World) (n : ℕ) → owner w ≡ ours n → fds w n ≡ true
holder_open w n h = ground arith

flock : IsFlock os fds owner
flock = record {
  parent_kept = λ w. (refl, refl);
  unused = unused;
  opened = opened;
  unopened = unopened;
  open_kept = open_kept;
  excludes = excludes;
  admits = admits;
  locked = locked;
  refused = refused;
  lock_kept = lock_kept;
  unlock_returns = λ fd w h. refl;
  unlocked = unlocked;
  unlock_kept = unlock_kept;
  closed = closed;
  close_drops = close_drops;
  holder_open = holder_open;
  truncated = λ fd w. (refl, refl);
  sought = λ fd w. (refl, refl);
  written = λ fd w. (refl, refl);
  synced = λ fd w. (refl, refl);
}

abbrev fresh : PidFileManager
fresh = record { fd = none; is_locked = false }

acquire-Acquired_example : Acquired os fds owner fresh locked_there (acquire os fresh locked_there)
acquire-Acquired_example = acquire-Acquired os fds owner flock fresh locked_there
