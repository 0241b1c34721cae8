-- ===== src/PmQos/Modes.antt =====
-- The lock's modes, and the descriptors that are open after each part of `lock` and `_release`.
use boostlock.Prelude.{
  ℕ, ap, Bool, true, false, ◌&&◌, ◌≡◌, refl, ◌∙◌, Option, none, some, [], Result, ok, err,
  Bool-cases, Result-cases, inl, inr,
}
use boostlock.Prelude.Dict.{String_eq}
use boostlock.PmQos.{
  OsError, NodeError, node_denied, node_other, PmQosError, qos_error, permission_error, refusal,
  close_fd, Os, PmQosController, disable_states, release, fallback_failed, lock_via_sysfs_fallback,
  refused, lock_device, Outcome,
}
use boostlock.Prelude.Descriptors.{Fds, with_fd, without_fd, without-with_fd}
use boostlock.PmQos.Counts.{
  with_remembered, IsFresh, IsDescriptorTable, disable_states-fds, restore_saved-fds, close_fd-fds,
}

-- unlocked, locked by a descriptor, or locked by cpuidle states
abbrev pub Mode : Option ℕ → Bool → Bool → Type 0
Mode none false false = Unit
Mode (some _) true false = Unit
Mode none true true = Unit
Mode _ _ _ = ⊥

abbrev pub IsConsistent : PmQosController → Type 0
IsConsistent c = Mode c.fd c.is_locked c.using_fallback

module _ {S : Type 0} (os : Os S) (fds : S → Fds) (table : IsDescriptorTable os fds) where
  -- an unlocked controller, beside the open descriptors `base`
  pub record IsUnlocked (base : Fds) (c : PmQosController) (s : S) : Type 0 where
    pub no_fd : c.fd ≡ none
    pub unlocked : c.is_locked ≡ false
    pub no_fallback : c.using_fallback ≡ false
    pub open_fds : fds s ≡ base

  abbrev pub Settled : Result PmQosError Bool → Bool → Type 0
  Settled (ok _) locked = locked ≡ true
  Settled (err _) locked = locked ≡ false

  -- consistent, and open are those of `base` and the one that the controller remembers, which is none
  -- of them
  abbrev pub IsBalanced : Fds → PmQosController × S → Type 0
  IsBalanced base p =
      IsConsistent p.0 × IsFresh p.0.fd base × (fds p.1 ≡ with_remembered p.0.fd base)

  abbrev IsLawful : Fds → Outcome Bool S → Type 0
  IsLawful base o = IsBalanced base o.1 × Settled o.0 o.1.0.is_locked

  pub refuse-IsLawful :
      (base : Fds) (e : PmQosError) (c : PmQosController) (s : S)
      → IsUnlocked base c s
      → IsLawful base (err e, (c, s))
  refuse-IsLawful base e c s u =
      rw (u.no_fd, u.unlocked, u.no_fallback) ((tt, tt, u.open_fds), refl)

  pub release-IsUnlocked :
      (base : Fds) (strict : Bool) (c : PmQosController) (s : S)
      → IsBalanced base (c, s)
      → IsUnlocked base (release os strict c s).1.0 (release os strict c s).1.1
  unfolding release
  release-IsUnlocked base strict c s balanced = record {
    no_fd = refl;
    unlocked = refl;
    no_fallback = refl;
    open_fds =
        let closed = close_fd-fds os fds table base c.fd s balanced.1 balanced.2 in
        elim (Bool-cases c.using_fallback) [
          | inl e ↦ rw e (
              restore_saved-fds os fds table c.fallback_saved_states (close_fd os c.fd s).1
              ∙ closed)
          | inr e ↦ rw e closed
        ];
  }

  fallback_failed-IsLawful :
      (base : Fds) (x : NodeError) (c : PmQosController) (s : S)
      → IsUnlocked base c s
      → IsLawful base (fallback_failed os x c s)
  unfolding fallback_failed
  fallback_failed-IsLawful base node_denied c s u = refuse-IsLawful base permission_error c s u
  fallback_failed-IsLawful base node_other c s u =
      let balanced : IsBalanced base (c, s) = (refuse-IsLawful base qos_error c s u).0 in
      refuse-IsLawful base qos_error _ _ (release-IsUnlocked base false c s balanced)

  lock_via_sysfs_fallback-IsLawful :
      (base : Fds) (c : PmQosController) (s : S)
      → IsUnlocked base c s
      → IsLawful base (lock_via_sysfs_fallback os c s)
  unfolding lock_via_sysfs_fallback
  lock_via_sysfs_fallback-IsLawful base c s u = elim (Result-cases (os.state_entries s)) [
    | inr (x, e) ↦
        rw (e, lock_via_sysfs_fallback)
          (fallback_failed-IsLawful base x _ s (record {
            no_fd = u.no_fd;
            unlocked = u.unlocked;
            no_fallback = u.no_fallback;
            open_fds = u.open_fds;
          }))
    | inl (entries, e) ↦
        let kept =
          disable_states-fds os fds table c.min_fallback_state_index entries [] s ∙ u.open_fds in
        elim (Result-cases (disable_states os c.min_fallback_state_index entries [] s).0) [
          | inl (_, e1) ↦ rw (e, e1, u.no_fd, lock_via_sysfs_fallback) ((tt, tt, kept), refl)
          | inr (x, e1) ↦
              rw (e, e1, lock_via_sysfs_fallback)
                (fallback_failed-IsLawful base x _ _ (record {
                  no_fd = u.no_fd;
                  unlocked = u.unlocked;
                  no_fallback = u.no_fallback;
                  open_fds = kept;
                }))
        ]
  ]

  refused-IsLawful :
      (base : Fds) (allow : Bool) (e : OsError) (c : PmQosController) (s : S)
      → IsUnlocked base c s
      → IsLawful base (refused os allow e c s)
  unfolding refused
  refused-IsLawful base allow e c s u = elim (Bool-cases (c.enable_sysfs_fallback && allow)) [
    | inl falls ↦ rw falls (lock_via_sysfs_fallback-IsLawful base c s u)
    | inr stays ↦ rw stays (refuse-IsLawful base (refusal e) c s u)
  ]

  pub lock_device-IsLawful :
      (base : Fds) (allow : Bool) (c : PmQosController) (s : S)
      → IsUnlocked base c s
      → IsLawful base (lock_device os allow c s)
  unfolding lock_device
  lock_device-IsLawful base allow c s u =
      let s1 = (os.open_device s).1 in
      elim (Result-cases (os.open_device s).0) [
        | inr (e, h) ↦
            rw (h, lock_device)
              (refused-IsLawful base allow e c s1 (record {
                no_fd = u.no_fd;
                unlocked = u.unlocked;
                no_fallback = u.no_fallback;
                open_fds = table.unopened s e h ∙ u.open_fds;
              }))
        | inl (fd, h) ↦
            let s2 = (os.write_device fd c.target_latency_us s1).1 in
            let new : base fd ≡ false = rw (← u.open_fds) (table.unused s fd h) in
            let up : fds s2 ≡ with_fd fd base =
              table.written fd c.target_latency_us s1
              ∙ table.opened s fd h
              ∙ ap (with_fd fd) u.open_fds in
            elim (Result-cases (os.write_device fd c.target_latency_us s1).0) [
              | inl (_, h1) ↦ rw (h, h1, lock_device) ((tt, new, up), refl)
              | inr (e, h1) ↦
                  let s3 = (os.close_device fd s2).1 in
                  let down : fds s3 ≡ base =
                    table.closed fd s2 ∙ ap (without_fd fd) up ∙ without-with_fd fd base new in
                  let u3 : IsUnlocked base c s3 = record {
                    no_fd = u.no_fd;
                    unlocked = u.unlocked;
                    no_fallback = u.no_fallback;
                    open_fds = down;
                  } in
                  elim (Result-cases (os.close_device fd s2).0) [
                    | inl (_, h2) ↦
                        rw (h, h1, h2, lock_device) (refused-IsLawful base allow e c s3 u3)
                    | inr (_, h2) ↦
                        rw (h, h1, h2, lock_device) (refuse-IsLawful base qos_error c s3 u3)
                  ]
            ]
      ]
