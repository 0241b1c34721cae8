-- ===== src/PmQos/Descriptors.antt =====
-- The lock's modes, and the descriptors that are open on each path of `lock` and `_release`.
use boostlock.Prelude.{
  Bool, true, false, ◌≡◌, refl, sym, ◌∙◌, ap, Option, none, Result, ok, err, Bool-cases,
  Option-cases, inl, inr, arith,
}
use boostlock.Prelude.Int.{ℤ}
use boostlock.Prelude.Dict.{String_eq}
use boostlock.PmQos.{PmQosError, requested_latency, lock_again, Os, PmQosController, lock}
use boostlock.Prelude.Descriptors.{Fds}
use boostlock.PmQos.Counts.{with_remembered, IsDescriptorTable}
use boostlock.PmQos.Modes.{IsConsistent, IsUnlocked, Settled, IsBalanced, lock_device-IsLawful}

module _ {S : Type 0} (os : Os S) (fds : S → Fds) (table : IsDescriptorTable os fds) where
  -- a failed call leaves the controller as locked as it was, a call that returns leaves it locked
  abbrev pub LockOutcome : Bool → Result PmQosError Bool → Bool → Type 0
  LockOutcome before (ok _) after = after ≡ true
  LockOutcome before (err _) after = after ≡ before

  Settled-LockOutcome :
      (before after : Bool) (r : Result PmQosError Bool)
      → before ≡ false
      → Settled os fds table r after
      → LockOutcome before r after
  Settled-LockOutcome before after (ok _) h k = k
  Settled-LockOutcome before after (err _) h k = k ∙ sym h

  no_fd_of : (c : PmQosController) → c.is_locked ≡ false → IsConsistent c → c.fd ≡ none
  no_fd_of c h consistent = ground arith

  IsBalanced-IsUnlocked :
      (base : Fds) (c : PmQosController) (s : S)
      → c.is_locked ≡ false
      → IsBalanced os fds table base (c, s)
      → IsUnlocked os fds table base c s
  IsBalanced-IsUnlocked base c s h balanced = record {
    no_fd = no_fd_of c h balanced.0;
    unlocked = h;
    no_fallback = ground (arith, balanced.0);
    open_fds = balanced.2 ∙ ap (λ fd. with_remembered fd base) (no_fd_of c h balanced.0);
  }

  lock_again-fds : (c : PmQosController) (s : S) → fds (lock_again os c s) ≡ fds s
  lock_again-fds c s = elim (Option-cases c.fd) [
    | inl e ↦ rw e refl
    | inr (fd, e) ↦ elim (Bool-cases c.using_fallback) [
      | inl e1 ↦ rw (e, e1) refl
      | inr e1 ↦
          rw (e, e1) (table.written fd c.target_latency_us (os.seek_start fd s) ∙ table.sought fd s)
    ]
  ]

  -- `lock` that returns leaves the controller locked, `lock` that raises leaves it as locked as it
  -- was. Either way the controller is in one of its modes, and the open descriptors are those of
  -- `base` and the one that the controller remembers, if any, which is none of `base`.
  pub lock-LockOutcome :
      (base : Fds) (latency : Option ℤ) (allow : Bool) (c : PmQosController) (s : S)
      → IsBalanced os fds table base (c, s)
      → IsBalanced os fds table base (lock os latency allow c s).1
        × LockOutcome c.is_locked
            (lock os latency allow c s).0
            (lock os latency allow c s).1.0.is_locked
  unfolding lock
  lock-LockOutcome base latency allow c s balanced =
      elim (Option-cases (requested_latency latency c.target_latency_us)) [
        | inl e ↦ rw (e, lock) (balanced, refl)
        | inr (v, e) ↦ elim (Bool-cases c.is_locked) [
          | inl h ↦
              rw (e, h, lock)
                (
                  (
                    simp h at balanced.0,
                    balanced.1,
                    lock_again-fds (record c { target_latency_us = v }) s ∙ balanced.2,
                  ),
                  refl,
                )
          | inr h ↦
              let u = IsBalanced-IsUnlocked base c s h balanced in
              let c' = record c { target_latency_us = v; is_locked = false } in
              let u' : IsUnlocked os fds table base c' s = record {
                no_fd = u.no_fd;
                unlocked = refl;
                no_fallback = u.no_fallback;
                open_fds = u.open_fds;
              } in
              let lawful = lock_device-IsLawful os fds table base allow c' s u' in
              rw (e, h, lock) (lawful.0, Settled-LockOutcome false _ _ refl lawful.1)
        ]
      ]
