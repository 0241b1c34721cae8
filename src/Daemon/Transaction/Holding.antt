-- ===== src/Daemon/Transaction/Holding.antt =====
-- What each write of a policy transaction leaves of the latency lock.
use boostlock.Prelude.{
  String, Bool, true, false, Option, none, some, List, [], ◌∷◌, All, Result, ok, err, Result-cases,
  Bool-cases, inl, inr, str_eq, eq_iff, map, ◌≡◌, refl,
}
use boostlock.Prelude.Int.{ℤ}
use boostlock.Prelude.Decimal.{str_ℤ, str_ℤ-other_word}
use boostlock.Prelude.Dict.{Dict}
use boostlock.Sysfs.Policy.{PolicyApplyAction}
use boostlock.Sysfs.Plan.{elem}
use boostlock.PmQos
use boostlock.PmQos.{
  PmQosError, NodeError, OsError, Os, PmQosController, validate_latency, requested_latency,
}
use boostlock.PmQos.Planned.{PlannedRoute, device, no_route, cpuidle}
use boostlock.Daemon.Transaction.{
  Files, State, give_back, lock_or_release, lock_at, write_device, write_node, transaction_writer,
}

module _ {X S : Type 0} (os : Os S) (files : Files X S) where
  open files use {device_path, resolve}

  abbrev pub St : Type 0
  St = State os files

  abbrev pub IsUnlocked : St → Type 0
  IsUnlocked after = after.0.is_locked ≡ false

  -- what a write of the lock leaves
  abbrev pub IsSettled {ℓ} : {E : Type ℓ} → Result E (Unit {0}) × St → Type 0
  IsSettled (ok _, after) = after.0.is_locked ≡ true
  IsSettled (err _, after) = IsUnlocked after

  abbrev Returns : PmQos.Outcome Bool S → Type 0
  Returns (ok _, after) = after.0.is_locked ≡ true
  Returns (err _, after) = Unit

  release_unlocks :
      (c : PmQosController) (s : S) → (PmQos.release os true c s).1.0.is_locked ≡ false
  unfolding PmQos.release
  release_unlocks c s = refl

  give_back-IsSettled :
      (e : Option PmQosError) (after : St) → IsSettled (give_back os files e after)
  give_back-IsSettled e (c, s) = elim (Result-cases (PmQos.release os true c s).0) [
    | inl (_, h) ↦ rw (h, give_back) (release_unlocks c s)
    | inr (x, h) ↦ rw (h, give_back) (release_unlocks c s)
  ]

  lock_or_release-IsSettled :
      (o : PmQos.Outcome Bool S) → Returns o → IsSettled (lock_or_release os files o)
  lock_or_release-IsSettled (ok _, after) locked = locked
  lock_or_release-IsSettled (err e, after) _ = give_back-IsSettled (some e) after

  refused-Returns :
      (e : OsError) (c : PmQosController) (s : S) → Returns (PmQos.refused os false e c s)
  unfolding PmQos.refused
  refused-Returns e c s = elim (Bool-cases c.enable_sysfs_fallback) [
    | inl h ↦ rw (h, PmQos.refused) tt
    | inr h ↦ rw (h, PmQos.refused) tt
  ]

  lock_device-Returns : (c : PmQosController) (s : S) → Returns (PmQos.lock_device os false c s)
  unfolding PmQos.lock_device
  lock_device-Returns c s = elim (Result-cases (os.open_device s).0) [
    | inl (fd, h1) ↦
        let s1 = (os.open_device s).1 in
        elim (Result-cases (os.write_device fd c.target_latency_us s1).0) [
          | inl (_, h2) ↦ rw (h1, h2, PmQos.lock_device) refl
          | inr (e, h2) ↦
              let s2 = (os.write_device fd c.target_latency_us s1).1 in
              elim (Result-cases (os.close_device fd s2).0) [
                | inl (_, h3) ↦
                    rw (h1, h2, h3, PmQos.lock_device)
                      (refused-Returns e c (os.close_device fd s2).1)
                | inr (x, h3) ↦ rw (h1, h2, h3, PmQos.lock_device) tt
              ]
        ]
    | inr (e, h1) ↦ rw (h1, PmQos.lock_device) (refused-Returns e c (os.open_device s).1)
  ]

  lock-Returns :
      (latency_us : ℤ) (c : PmQosController) (s : S)
      → c.is_locked ≡ false
      → Returns (PmQos.lock os (some latency_us) false c s)
  unfolding PmQos.lock
  lock-Returns latency_us c s h = elim (Bool-cases (validate_latency latency_us)) [
    | inl v ↦
        rw (v, h, PmQos.lock)
          (lock_device-Returns (record c { target_latency_us = latency_us; is_locked = false }) s)
    | inr v ↦ rw (v, PmQos.lock) tt
  ]

  lock_at-IsSettled :
      (latency_us : Option ℤ) (after : St)
      → IsUnlocked after
      → IsSettled (lock_at os files latency_us after)
  lock_at-IsSettled none after h = give_back-IsSettled none after
  lock_at-IsSettled (some latency_us) (c, s) h =
      lock_or_release-IsSettled (PmQos.lock os (some latency_us) false c s)
        (lock-Returns latency_us c s h)

  -- the release is told from a latency by its text
  write_device-IsSettled :
      (value : String) (after : St)
      → str_eq value "release" ≡ false
      → IsUnlocked after
      → IsSettled (write_device os files value after)
  unfolding write_device
  write_device-IsSettled value (c, s) other h =
      rw (other, write_device) (lock_at-IsSettled (files.int value) (c, s) h)

  write_node_keeps :
      (write : S → Result X (Unit {0}) × S) (after : St)
      → (write_node os files write after).1.0 ≡ after.0
  write_node_keeps write (c, s) = refl

  abbrev pub Kept : PlannedRoute → Dict String String → PolicyApplyAction → Type 0
  Kept route snapshots a =
      (value : String) (after : St)
      → (transaction_writer os files route snapshots a.path value after).1.0 ≡ after.0

  -- the writes of files leave the controller
  pub no_route-Kept :
      (snapshots : Dict String String) (a : PolicyApplyAction) → Kept no_route snapshots a
  unfolding transaction_writer
  no_route-Kept snapshots a value after = refl

  pub cpuidle-Kept :
      (paths : List String) (snapshots : Dict String String) (a : PolicyApplyAction)
      → Kept (cpuidle paths) snapshots a
  unfolding transaction_writer
  cpuidle-Kept paths snapshots a value after =
      elim (Bool-cases (elem (resolve a.path) (map (λ entry. entry.0) snapshots))) [
        | inl h ↦ rw (h, transaction_writer) refl
        | inr h ↦ rw (h, transaction_writer) refl
      ]

  device-Kept :
      (snapshots : Dict String String) (a : PolicyApplyAction)
      → str_eq (resolve a.path) device_path ≡ false
      → Kept device snapshots a
  unfolding transaction_writer
  device-Kept snapshots a h value after = rw (h, transaction_writer) refl

  pub all_Kept :
      (route : PlannedRoute) (snapshots : Dict String String)
      → ((a : PolicyApplyAction) → Kept route snapshots a)
      → (actions : List PolicyApplyAction) → All (Kept route snapshots) actions
  all_Kept route snapshots kept [] = tt
  all_Kept route snapshots kept (a ∷ rest) = (kept a, all_Kept route snapshots kept rest)

  abbrev pub OffDevice : List PolicyApplyAction → Type 0
  OffDevice actions = All (λ a. str_eq (resolve a.path) device_path ≡ false) actions

  pub OffDevice-Kept :
      (snapshots : Dict String String) (actions : List PolicyApplyAction)
      → OffDevice actions
      → All (Kept device snapshots) actions
  OffDevice-Kept snapshots [] off = tt
  OffDevice-Kept snapshots (a ∷ rest) (first, others) =
      (device-Kept snapshots a first, OffDevice-Kept snapshots rest others)

  on_device : resolve device_path ≡ device_path → str_eq (resolve device_path) device_path ≡ true
  on_device resolved = (eq_iff (resolve device_path) device_path).1 resolved

  -- the action on the device takes the lock or leaves it free
  pub device_action-IsSettled :
      (latency_us : ℤ) (snapshots : Dict String String) (after : St)
      → resolve device_path ≡ device_path
      → IsUnlocked after
      → IsSettled
          (transaction_writer os files device snapshots device_path (str_ℤ latency_us) after)
  unfolding transaction_writer
  device_action-IsSettled latency_us snapshots after resolved h =
      rw (on_device resolved, transaction_writer)
        (write_device-IsSettled (str_ℤ latency_us) after
          (str_ℤ-other_word latency_us "release" refl) h)
