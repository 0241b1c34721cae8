-- ===== src/Engine/Controller/Turns.antt =====
-- In round robin a turn leaves at most one worker of a policy with pulses.
use boostlock.Prelude.{
  ℕ, zero, suc, ◌≤◌, ◌%◌, String, Bool, true, ◌≡◌, refl, Option, none, some, List, [], ◌∷◌, arith,
  str_eq, eq_iff, Bool-cases, inl, inr, ◌⊎◌, length, sym,
}
use boostlock.Prelude.Int.{ℤ}
use boostlock.Prelude.Float.{Float}
use boostlock.Prelude.Dict.{Dict, keys, String_eq, get_or}
use boostlock.Sysfs.Plan.{elem}
use boostlock.Engine.Policies.{round_robin}
use boostlock.Engine.Controller.{
  PulseEngine, Turn, workers_of, active_index, drive_policy, drive_policies, first_turn,
  controller_turn,
}
use boostlock.Engine.Controller.Busy.{busy, busy-drive-some, busy-drive-none, busy-drive_other}

module _ (F : Float) where
  open F use {Num, le, lit}

  ℕ-cases : (n : ℕ) → (n ≡ 0) ⊎ ((m : ℕ) × (n ≡ suc m))
  ℕ-cases zero = inl refl
  ℕ-cases (suc m) = inr (m, refl)

  module _ (read_freq : ℕ → Option ℤ) (clamp load : Num) where
    abbrev busy_in : String → Turn F → ℕ
    busy_in p turn = busy F turn.engine.cpu_policy_ids p turn.engine.workers

    busy-drive_policy :
        (p : String) (turn : Turn F)
        → turn.engine.targeting_mode ≡ round_robin
        → busy_in p (drive_policy F read_freq clamp load p turn) ≤ 1
    unfolding drive_policy
    busy-drive_policy p turn robin =
        let e = turn.engine in
        let last = get_or p 0 turn.round_robin_idx in
        let n = length (workers_of F e.cpu_policy_ids p e.workers) in
        elim (ℕ-cases n) [
          | inl empty ↦
              let idle : active_index F true last n ≡ none = ground (arith, empty) in
              rw (drive_policy, robin, idle)
                (omega (arith, busy-drive-none F e.cpu_policy_ids p _ 0 e.workers empty))
          | inr (m, some_workers) ↦
              let turns : active_index F true last n ≡ some (last % suc m) =
                ground (arith, some_workers) in
              rw (drive_policy, robin, turns)
                (busy-drive-some F e.cpu_policy_ids p (last % suc m) _ 0 e.workers)
        ]

    drive_policy-keeps :
        (q p : String) (turn : Turn F)
        → turn.engine.targeting_mode ≡ round_robin
        → busy_in p turn ≤ 1
        → busy_in p (drive_policy F read_freq clamp load q turn) ≤ 1
    unfolding drive_policy
    drive_policy-keeps q p turn robin one = elim (Bool-cases (str_eq q p)) [
      | inl same ↦
          let eq : p ≡ q = sym ((eq_iff q p).0 same) in rw eq (busy-drive_policy q turn robin)
      | inr differ ↦
          let e = turn.engine in
          rw (busy-drive_other F e.cpu_policy_ids p q _ _ 0 e.workers differ) one
    ]

    drive_policies-keeps :
        (ps : List String) (p : String) (turn : Turn F)
        → turn.engine.targeting_mode ≡ round_robin
        → busy_in p turn ≤ 1
        → busy_in p (drive_policies F read_freq clamp load ps turn) ≤ 1
    unfolding drive_policies drive_policy
    drive_policies-keeps [] p turn robin one = one
    drive_policies-keeps (q ∷ ps) p turn robin one =
        drive_policies-keeps ps p (drive_policy F read_freq clamp load q turn) robin
          (drive_policy-keeps q p turn robin one)

    busy-drive_policies :
        (ps : List String) (p : String) (turn : Turn F)
        → turn.engine.targeting_mode ≡ round_robin
        → elem p ps ≡ true
        → busy_in p (drive_policies F read_freq clamp load ps turn) ≤ 1
    unfolding drive_policies drive_policy elem
    busy-drive_policies [] p turn robin member = cc
    busy-drive_policies (q ∷ ps) p turn robin member =
        let next = drive_policy F read_freq clamp load q turn in
        elim (Bool-cases (str_eq p q)) [
          | inl same ↦
              let eq : p ≡ q = (eq_iff p q).0 same in
              drive_policies-keeps ps p next robin (rw eq (busy-drive_policy q turn robin))
          | inr differ ↦ busy-drive_policies ps p next robin (simp differ at member)
        ]

    drive_policies_ids :
        (ps : List String) (turn : Turn F)
        → (drive_policies F read_freq clamp load ps turn).engine.cpu_policy_ids
          ≡ turn.engine.cpu_policy_ids
    unfolding drive_policies drive_policy
    drive_policies_ids [] turn = refl
    drive_policies_ids (p ∷ ps) turn =
        drive_policies_ids ps (drive_policy F read_freq clamp load p turn)

  -- In round robin a turn leaves at most one worker of each policy with a duty above 0.0, whatever the
  -- duties before, the samples, the clamp and the load.
  pub busy-controller_turn :
      (read_freq : ℕ → Option ℤ) (clamp : Num) (tripped : Bool) (load : Num) (idx : Dict String ℕ)
      (e : PulseEngine F) (p : String)
      → e.targeting_mode ≡ round_robin
      → elem p (keys e.policy_targets) ≡ true
      → busy F e.cpu_policy_ids p (controller_turn F read_freq clamp tripped load idx e).1.workers
        ≤ 1
  unfolding controller_turn
  busy-controller_turn read_freq clamp tripped load idx e p robin member =
      let turn = first_turn F read_freq clamp tripped load idx e in
      let one =
        busy-drive_policies read_freq clamp load (keys e.policy_targets) p turn robin member in
      rw (drive_policies_ids read_freq clamp load (keys e.policy_targets) turn) at one
