-- ===== src/Examples/Locks.antt =====
-- Runs of boostlock/pm_qos.py on a device that can be opened once at a time.
use boostlock.Prelude.{
  ℕ, true, false, ◌≡◌, refl, Bool-cases, inl, inr, [], none, ok, err, ltb, if◌then◌else◌,
}
use boostlock.Prelude.Int.{pos}
use boostlock.PmQos.{OsError, other_os, Os, PmQosController, lock}
use boostlock.Prelude.Descriptors.{Fds, with_fd, without_fd}
use boostlock.PmQos.Counts.{IsDescriptorTable}
use boostlock.PmQos.Modes.{IsBalanced}
use boostlock.PmQos.Descriptors.{LockOutcome, lock-LockOutcome}

-- the state is the set of open descriptors
abbrev single_device : Os Fds
single_device = record {
  open_device = λ s. if s 3 then (err other_os, s) else (ok 3, with_fd 3 s);
  seek_start = λ fd s. s;
  write_device = λ fd v s. (ok tt, s);
  close_device = λ fd s. (ok tt, without_fd fd s);
  state_entries = λ s. ok [];
  read_file = λ path s. ok none;
  write_file = λ optional path value s. (ok tt, s);
}

abbrev unlocked : PmQosController
unlocked = record {
  enable_sysfs_fallback = true;
  min_fallback_state_index = pos 1;
  target_latency_us = pos 0;
  fd = none;
  is_locked = false;
  using_fallback = false;
  fallback_saved_states = [];
}

unused : (s : Fds) (fd : ℕ) → (single_device.open_device s).0 ≡ ok fd → s fd ≡ false
unused s fd h = elim (Bool-cases (s 3)) [
  | inl held ↦ absurd (cc (simp held at h))
  | inr free ↦ let same : 3 ≡ fd = cc (simp free at h) in rw (← same) free
]

opened :
    (s : Fds) (fd : ℕ)
    → (single_device.open_device s).0 ≡ ok fd
    → (single_device.open_device s).1 ≡ with_fd fd s
opened s fd h = elim (Bool-cases (s 3)) [
  | inl held ↦ absurd (cc (simp held at h))
  | inr free ↦ let same : 3 ≡ fd = cc (simp free at h) in rw (← same, free) refl
]

unopened :
    (s : Fds) (e : OsError)
    → (single_device.open_device s).0 ≡ err e
    → (single_device.open_device s).1 ≡ s
unopened s e h = elim (Bool-cases (s 3)) [
  | inl held ↦ rw held refl
  | inr free ↦ absurd (cc (simp free at h))
]

table : IsDescriptorTable single_device (λ s. s)
table = record {
  unused = unused;
  opened = opened;
  unopened = unopened;
  sought = λ fd s. refl;
  written = λ fd v s. refl;
  closed = λ fd s. refl;
  stored = λ optional path value s. refl;
}

-- the standard streams
abbrev streams : Fds
streams n = ltb n 3

lock-LockOutcome_example :
    IsBalanced single_device
      (λ s. s)
      table
      streams
      (lock single_device none true unlocked streams).1
    × LockOutcome single_device
        (λ s. s)
        table
        false
        (lock single_device none true unlocked streams).0
        (lock single_device none true unlocked streams).1.0.is_locked
lock-LockOutcome_example =
    lock-LockOutcome single_device (λ s. s) table streams none true unlocked streams (tt, tt, refl)
