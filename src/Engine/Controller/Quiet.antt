-- ===== src/Engine/Controller/Quiet.antt =====
-- A full thermal clamp leaves every worker of every policy without pulses.
use boostlock.Prelude.{
  ℕ, suc, String, Bool, true, false, ◌≡◌, refl, ◌⊎◌, inl, inr, Option, none, some, List, [], ◌∷◌,
  All, arith, str_eq, eq_iff, Bool-cases,
}
use boostlock.Prelude.Int.{ℤ}
use boostlock.Prelude.Float
use boostlock.Prelude.Float.{Float}
use boostlock.Prelude.Dict.{Dict, keys, String_eq, get_or}
use boostlock.Sysfs.Plan.{elem}
use boostlock.Engine.Duty.{
  PolicyDutyState, AdaptiveDutyController, state_for_policy, update_policy, update_samples,
}
use boostlock.Engine.Controller.{
  PulseWorker, PulseEngine, Turn, set_duty_cycle, owner, turn_duty, drive, samples_of, policy_clamp,
  drive_policy, drive_policies, first_turn, controller_turn,
}

module _ (F : Float) where
  open F use {Num, le, lit}

  -- the worker has no pulses, or belongs to another policy
  abbrev pub Quiet : Dict ℕ String → String → PulseWorker F → Type 0
  Quiet ids p w = (le w.duty_cycle_pct (lit 0) ≡ true) ⊎ (str_eq (owner F ids w) p ≡ false)

  set_duty_cycle-quiet :
      (duty : Num) (w : PulseWorker F)
      → le duty (lit 0) ≡ true
      → le (set_duty_cycle F duty w).duty_cycle_pct (lit 0) ≡ true
  unfolding set_duty_cycle
  set_duty_cycle-quiet duty w h =
      let m = Float.min F (lit 1000000) duty in
      Float.max-le F (lit 0) m (lit 0) (F.le_refl (lit 0))
        (F.le_trans m duty (lit 0) (Float.min_le_right F (lit 1000000) duty) h)

  turn_duty-quiet :
      (active : Option ℕ) (i : ℕ) (duty : Num)
      → le duty (lit 0) ≡ true
      → le (turn_duty F active i duty) (lit 0) ≡ true
  turn_duty-quiet none i duty h = h
  turn_duty-quiet (some active) i duty h = ground (arith, F.le_refl (lit 0))

  -- driving any policy with duty 0.0 keeps what is quiet
  drive_keeps :
      (ids : Dict ℕ String) (p q : String) (active : Option ℕ) (duty : Num) (i : ℕ)
      (ws : List (PulseWorker F))
      → le duty (lit 0) ≡ true
      → All (Quiet ids q) ws
      → All (Quiet ids q) (drive F ids p active duty i ws)
  unfolding drive
  drive_keeps ids p q active duty i [] h all = tt
  drive_keeps ids p q active duty i (w ∷ ws) h all = elim (Bool-cases (str_eq (owner F ids w) p)) [
    | inl own ↦
        rw (own, drive)
          (
            inl (
                set_duty_cycle-quiet (turn_duty F active i duty) w
                  (turn_duty-quiet active i duty h)),
            drive_keeps ids p q active duty (suc i) ws h all.1,
          )
    | inr foreign ↦ rw (foreign, drive) (all.0, drive_keeps ids p q active duty i ws h all.1)
  ]

  -- and the policy's own workers are quiet after it
  drive-Quiet :
      (ids : Dict ℕ String) (p : String) (active : Option ℕ) (duty : Num) (i : ℕ)
      (ws : List (PulseWorker F))
      → le duty (lit 0) ≡ true
      → All (Quiet ids p) (drive F ids p active duty i ws)
  unfolding drive
  drive-Quiet ids p active duty i [] h = tt
  drive-Quiet ids p active duty i (w ∷ ws) h = elim (Bool-cases (str_eq (owner F ids w) p)) [
    | inl own ↦
        rw (own, drive)
          (
            inl (
                set_duty_cycle-quiet (turn_duty F active i duty) w
                  (turn_duty-quiet active i duty h)),
            drive-Quiet ids p active duty (suc i) ws h,
          )
    | inr foreign ↦ rw (foreign, drive) (inr foreign, drive-Quiet ids p active duty i ws h)
  ]

  policy_clamp-le :
      (clamp local : Num) → le clamp (lit 0) ≡ true → le (policy_clamp F clamp local) (lit 0) ≡ true
  unfolding policy_clamp
  policy_clamp-le clamp local h =
      let m = Float.min F (lit 10000) clamp in
      let low = F.le_trans m clamp (lit 0) (Float.min_le_right F (lit 10000) clamp) h in
      F.le_trans _ _ (lit 0) (Float.min_le_left F (Float.max F (lit 0) m) local)
        (Float.max-le F (lit 0) m (lit 0) (F.le_refl (lit 0)) low)

  update_policy-quiet :
      (c : AdaptiveDutyController F) (target : ℤ) (xs : List ℤ) (clamp load : Num)
      (state : PolicyDutyState F)
      → le clamp (lit 0) ≡ true
      → le (update_policy F c target xs clamp load state).1 (lit 0) ≡ true
  unfolding update_policy
  update_policy-quiet c target xs clamp load state h = ground (arith, F.le_refl (lit 0))

  update_samples-quiet :
      (p : String) (xs : List ℤ) (clamp load : Num) (c : AdaptiveDutyController F)
      → le clamp (lit 0) ≡ true
      → le (update_samples F p xs clamp load c).1 (lit 0) ≡ true
  unfolding update_samples
  update_samples-quiet p xs clamp load c h =
      let (c', state) = state_for_policy F p c in
      update_policy-quiet c' (get_or p c'.target_freq_khz c'.policy_targets) xs clamp load state h

  module _ (read_freq : ℕ → Option ℤ) (clamp load : Num) (low : le clamp (lit 0) ≡ true) where
    abbrev AllQuiet : String → Turn F → Type 0
    AllQuiet q turn = All (Quiet turn.engine.cpu_policy_ids q) turn.engine.workers

    drive_policy_keeps :
        (p q : String) (turn : Turn F)
        → AllQuiet q turn
        → AllQuiet q (drive_policy F read_freq clamp load p turn)
    unfolding drive_policy
    drive_policy_keeps p q turn all =
        let e = turn.engine in
        let clamped = policy_clamp F clamp (get_or p (lit 10000) e.policy_clamp_factors) in
        let samples = samples_of F read_freq e.cpu_policy_ids p e.workers in
        drive_keeps e.cpu_policy_ids p q _ _ 0 e.workers
          (update_samples-quiet p samples clamped load e.duty_controller
            (policy_clamp-le clamp (get_or p (lit 10000) e.policy_clamp_factors) low))
          all

    drive_policy-Quiet :
        (p : String) (turn : Turn F) → AllQuiet p (drive_policy F read_freq clamp load p turn)
    unfolding drive_policy
    drive_policy-Quiet p turn =
        let e = turn.engine in
        let clamped = policy_clamp F clamp (get_or p (lit 10000) e.policy_clamp_factors) in
        let samples = samples_of F read_freq e.cpu_policy_ids p e.workers in
        drive-Quiet e.cpu_policy_ids p _ _ 0 e.workers (
          update_samples-quiet p samples clamped load e.duty_controller
            (policy_clamp-le clamp (get_or p (lit 10000) e.policy_clamp_factors) low))

    drive_policies_keeps :
        (ps : List String) (q : String) (turn : Turn F)
        → AllQuiet q turn
        → AllQuiet q (drive_policies F read_freq clamp load ps turn)
    unfolding drive_policies
    drive_policies_keeps [] q turn all = all
    drive_policies_keeps (p ∷ ps) q turn all =
        drive_policies_keeps ps q (drive_policy F read_freq clamp load p turn)
          (drive_policy_keeps p q turn all)

    drive_policies-Quiet :
        (ps : List String) (q : String) (turn : Turn F)
        → elem q ps ≡ true
        → AllQuiet q (drive_policies F read_freq clamp load ps turn)
    unfolding drive_policies elem
    drive_policies-Quiet [] q turn member = cc
    drive_policies-Quiet (p ∷ ps) q turn member =
        let next = drive_policy F read_freq clamp load p turn in
        elim (Bool-cases (str_eq q p)) [
          | inl same ↦
              let eq : q ≡ p = (eq_iff q p).0 same in
              drive_policies_keeps ps q next (rw eq (drive_policy-Quiet p turn))
          | inr differs ↦ drive_policies-Quiet ps q next (simp differs at member)
        ]

    drive_policies_ids :
        (ps : List String) (turn : Turn F)
        → (drive_policies F read_freq clamp load ps turn).engine.cpu_policy_ids
          ≡ turn.engine.cpu_policy_ids
    unfolding drive_policies drive_policy
    drive_policies_ids [] turn = refl
    drive_policies_ids (p ∷ ps) turn =
        drive_policies_ids ps (drive_policy F read_freq clamp load p turn)

  -- A turn under a clamp of 0.0 leaves every worker of every policy with a duty of 0.0, in round
  -- robin too, whatever the samples, the load and the local clamps.
  pub controller_turn-Quiet :
      (read_freq : ℕ → Option ℤ) (clamp : Num) (tripped : Bool) (load : Num) (idx : Dict String ℕ)
      (e : PulseEngine F) (p : String)
      → le clamp (lit 0) ≡ true
      → elem p (keys e.policy_targets) ≡ true
      → All
          (Quiet e.cpu_policy_ids p)
          (controller_turn F read_freq clamp tripped load idx e).1.workers
  unfolding controller_turn
  controller_turn-Quiet read_freq clamp tripped load idx e p low member =
      let turn = first_turn F read_freq clamp tripped load idx e in
      let quiet =
        drive_policies-Quiet read_freq clamp load low (keys e.policy_targets) p turn member in
      rw (drive_policies_ids read_freq clamp load low (keys e.policy_targets) turn) at quiet
