-- ===== src/Engine/Controller/Busy.antt =====
-- The workers of a policy that have pulses after one `set_duty_cycle` on each.
use boostlock.Prelude.{
  ℕ, suc, ◌+◌, ◌≤◌, ◌<◌, String, Bool, true, false, ◌≡◌, refl, Option, none, some, List, [], ◌∷◌,
  arith, str_eq, eq_iff, Bool-cases, inl, inr, length, ◌==◌,
}
use boostlock.Prelude.Float
use boostlock.Prelude.Float.{Float}
use boostlock.Prelude.Dict.{Dict, String_eq}
use boostlock.Engine.Controller.{PulseWorker, set_duty_cycle, owner, workers_of, drive}

module _ (F : Float) where
  open F use {Num, le, lit}

  -- 1 for a worker of the policy that has pulses
  abbrev one_busy : Bool → Bool → ℕ
  one_busy true false = 1
  one_busy true true = 0
  one_busy false _ = 0

  -- the number of the policy's workers that have pulses
  abbrev pub busy : Dict ℕ String → String → List (PulseWorker F) → ℕ
  busy ids p [] = 0
  busy ids p (w ∷ ws) =
      one_busy (str_eq (owner F ids w) p) (le w.duty_cycle_pct (lit 0)) + busy ids p ws

  owner_kept :
      (ids : Dict ℕ String) (duty : Num) (w : PulseWorker F)
      → owner F ids (set_duty_cycle F duty w) ≡ owner F ids w
  unfolding owner set_duty_cycle
  owner_kept ids duty w = refl

  zero_quiet : (w : PulseWorker F) → le (set_duty_cycle F (lit 0) w).duty_cycle_pct (lit 0) ≡ true
  unfolding set_duty_cycle
  zero_quiet w =
      let m = Float.min F (lit 1000000) (lit 0) in
      Float.max-le F (lit 0) m (lit 0) (F.le_refl (lit 0))
        (Float.min_le_right F (lit 1000000) (lit 0))

  own_kept :
      (ids : Dict ℕ String) (p : String) (duty : Num) (w : PulseWorker F)
      → str_eq (owner F ids w) p ≡ true
      → str_eq (owner F ids (set_duty_cycle F duty w)) p ≡ true
  own_kept ids p duty w own = rw (owner_kept ids duty w) own

  -- past the active place no worker of the policy has pulses
  busy-drive_past :
      (ids : Dict ℕ String) (p : String) (active : ℕ) (duty : Num) (i : ℕ)
      (ws : List (PulseWorker F))
      → active < i
      → busy ids p (drive F ids p (some active) duty i ws) ≡ 0
  unfolding drive
  busy-drive_past ids p active duty i [] past = refl
  busy-drive_past ids p active duty i (w ∷ ws) past = elim (Bool-cases (str_eq (owner F ids w) p)) [
    | inl own ↦
        let other : (i == active) ≡ false = ground (arith, past) in
        rw (own, drive, other, own_kept ids p (lit 0) w own, zero_quiet w)
          (omega (arith, busy-drive_past ids p active duty (suc i) ws (omega (arith, past))))
    | inr foreign ↦
        rw (foreign, drive, foreign) (omega (arith, busy-drive_past ids p active duty i ws past))
  ]

  one_busy-le : (a b : Bool) → one_busy a b ≤ 1
  one_busy-le a b = ground arith

  pub busy-drive-some :
      (ids : Dict ℕ String) (p : String) (active : ℕ) (duty : Num) (i : ℕ)
      (ws : List (PulseWorker F))
      → busy ids p (drive F ids p (some active) duty i ws) ≤ 1
  unfolding drive
  busy-drive-some ids p active duty i [] = omega arith
  busy-drive-some ids p active duty i (w ∷ ws) = elim (Bool-cases (str_eq (owner F ids w) p)) [
    | inr foreign ↦
        rw (foreign, drive, foreign) (omega (arith, busy-drive-some ids p active duty i ws))
    | inl own ↦ elim (Bool-cases (i == active)) [
      | inr other ↦
          rw (own, drive, other, own_kept ids p (lit 0) w own, zero_quiet w)
            (omega (arith, busy-drive-some ids p active duty (suc i) ws))
      | inl here ↦
          let past : active < suc i = ground (arith, here) in
          let first =
            one_busy-le (str_eq (owner F ids (set_duty_cycle F duty w)) p)
              (le (set_duty_cycle F duty w).duty_cycle_pct (lit 0)) in
          rw (own, drive, here)
            (omega (arith, first, busy-drive_past ids p active duty (suc i) ws past))
    ]
  ]

  pub busy-drive-none :
      (ids : Dict ℕ String) (p : String) (duty : Num) (i : ℕ) (ws : List (PulseWorker F))
      → length (workers_of F ids p ws) ≡ 0
      → busy ids p (drive F ids p none duty i ws) ≡ 0
  unfolding drive workers_of
  busy-drive-none ids p duty i [] h = refl
  busy-drive-none ids p duty i (w ∷ ws) h = elim (Bool-cases (str_eq (owner F ids w) p)) [
    | inl own ↦ absurd (ground (arith, own))
    | inr foreign ↦
        rw (foreign, drive, foreign)
          (omega (arith, busy-drive-none ids p duty i ws (ground (arith, foreign))))
  ]

  -- driving another policy leaves the policy's workers as they are
  pub busy-drive_other :
      (ids : Dict ℕ String) (p q : String) (active : Option ℕ) (duty : Num) (i : ℕ)
      (ws : List (PulseWorker F))
      → str_eq q p ≡ false
      → busy ids p (drive F ids q active duty i ws) ≡ busy ids p ws
  unfolding drive
  busy-drive_other ids p q active duty i [] differ = refl
  busy-drive_other ids p q active duty i (w ∷ ws) differ =
      elim (Bool-cases (str_eq (owner F ids w) q)) [
        | inr foreign ↦
            rw (foreign, drive) (omega (arith, busy-drive_other ids p q active duty i ws differ))
        | inl own ↦
            let is_q : owner F ids w ≡ q = (eq_iff (owner F ids w) q).0 own in
            let before : str_eq (owner F ids w) p ≡ false = rw is_q differ in
            rw (own, drive, before)
              (omega (arith, busy-drive_other ids p q active duty (suc i) ws differ))
      ]
