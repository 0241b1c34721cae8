-- ===== src/Engine/Controller.antt =====
-- `PulseEngine` of boostlock/engine.py: its states, and one turn of `_controller_loop` over the
-- policies and their workers.
--
-- `read_freq` is `get_scaling_cur_freq`, `none` where it raises or gives no number.
pub mod Quiet
pub mod Busy
pub mod Turns
use boostlock.Prelude.{
  ℕ, zero, suc, ◌+◌, ◌%◌, String, Bool, true, false, ◌||◌, Option, none, some, List, [], ◌∷◌, ◌++◌,
  length, ◌==◌, str_eq, if◌then◌else◌,
}
use boostlock.Prelude.Int.{ℤ, pos}
use boostlock.Prelude.Float
use boostlock.Prelude.Float.{Float}
use boostlock.Prelude.Dict.{Dict, String_eq, ℕ_eq, get_or, set, keys}
use boostlock.Config.{BoostLockConfig}
use boostlock.Sysfs.Policy.{CpufreqPolicy}
use boostlock.Engine.Policies.{TargetingMode, round_robin}
use boostlock.Engine.Duty.{AdaptiveDutyController, update_samples}

pub data EngineState : Type 0 where
  stopped starting running paused throttled : EngineState

pub record PulseWorker (F : Float) : Type 0 where
  pub cpu_id : ℕ
  pub policy_id : Option String
  pub duty_cycle_pct : F.Num
  pub cur_freq_khz : Option ℤ
  pub target_freq_khz : ℤ
  pub is_paused : Bool

-- without the threads, their events and locks, and the objects that the engine only calls
pub record PulseEngine (F : Float) : Type 0 where
  pub config : BoostLockConfig F
  pub targeting_mode : TargetingMode
  pub state : EngineState
  pub workers : List (PulseWorker F)
  pub target_cores : List ℕ
  pub configured_policy_targets : Dict String ℤ
  pub policy_members : Dict String (List ℤ)
  pub policy_drivers : Dict String (Option String)
  pub policy_records : Dict String CpufreqPolicy
  pub cpu_policy_ids : Dict ℕ String
  pub policy_targets : Dict String ℤ
  pub policy_clamp_factors : Dict String F.Num
  pub duty_controller : AdaptiveDutyController F
  pub overall_duty_pct : F.Num
  pub external_load_pct : F.Num
  pub thermal_clamped : Bool

abbrev is_round_robin : TargetingMode → Bool
is_round_robin round_robin = true
is_round_robin _ = false

module _ (F : Float) where
  open F use {Num, le, lit}

  unfoldable pub set_duty_cycle : Num → PulseWorker F → PulseWorker F
  set_duty_cycle duty w = record w {
    duty_cycle_pct = Float.max F (lit 0) (Float.min F (lit 1000000) duty);
  }

  -- `worker.policy_id or cpu_policy_ids.get(cpu, "default")`
  abbrev owner_or : Option String → Dict ℕ String → ℕ → String
  owner_or none ids cpu = get_or cpu "default" ids
  owner_or (some id) ids cpu = if str_eq id "" then get_or cpu "default" ids else id

  unfoldable pub owner : Dict ℕ String → PulseWorker F → String
  owner ids w = owner_or w.policy_id ids w.cpu_id

  abbrev pub with_freq : Option ℤ → PulseWorker F → PulseWorker F
  with_freq none w = w
  with_freq (some freq) w = record w { cur_freq_khz = some freq }

  -- the loop that reads each worker's frequency
  unfoldable pub read_workers : (ℕ → Option ℤ) → List (PulseWorker F) → List (PulseWorker F)
  read_workers read_freq [] = []
  read_workers read_freq (w ∷ ws) = with_freq (read_freq w.cpu_id) w ∷ read_workers read_freq ws

  abbrev cons_some : Option ℤ → List ℤ → List ℤ
  cons_some none xs = xs
  cons_some (some x) xs = x ∷ xs

  -- `samples_by_policy[policy_id]`
  unfoldable pub samples_of :
      (ℕ → Option ℤ) → Dict ℕ String → String → List (PulseWorker F) → List ℤ
  unfolding owner
  samples_of read_freq ids p [] = []
  samples_of read_freq ids p (w ∷ ws) =
      let rest = samples_of read_freq ids p ws in
      if str_eq (owner ids w) p then cons_some (read_freq w.cpu_id) rest else rest

  -- `workers_by_policy[policy_id]`
  unfoldable pub workers_of : Dict ℕ String → String → List (PulseWorker F) → List (PulseWorker F)
  unfolding owner
  workers_of ids p [] = []
  workers_of ids p (w ∷ ws) =
      let rest = workers_of ids p ws in if str_eq (owner ids w) p then w ∷ rest else rest

  -- the duty for the worker at a place: in round robin only the active one gets it
  abbrev turn_duty : Option ℕ → ℕ → Num → Num
  turn_duty none i duty = duty
  turn_duty (some active) i duty = if i == active then duty else lit 0

  -- `set_duty_cycle` on each worker of the policy, the first of which stands at place `i`
  unfoldable pub drive :
      Dict ℕ String → String → Option ℕ → Num → ℕ → List (PulseWorker F) → List (PulseWorker F)
  unfolding owner set_duty_cycle
  drive ids p active duty i [] = []
  drive ids p active duty i (w ∷ ws) =
      let own = set_duty_cycle (turn_duty active i duty) w ∷ drive ids p active duty (suc i) ws in
      let others = w ∷ drive ids p active duty i ws in
      if str_eq (owner ids w) p then own else others

  -- `active_index`, where the policy has workers and the mode is round robin
  abbrev active_index : Bool → ℕ → ℕ → Option ℕ
  active_index false last n = none
  active_index true last zero = none
  active_index true last (suc n) = some (last % suc n)

  abbrev advance : String → Option ℕ → Dict String ℕ → Dict String ℕ
  advance p none idx = idx
  advance p (some active) idx = set p (suc active) idx

  -- `round_robin_idx`, `policy_duties` and the engine
  pub record Turn : Type 0 where
    pub round_robin_idx : Dict String ℕ
    pub policy_duties : List Num
    pub engine : PulseEngine F

  -- `policy_clamp`
  unfoldable pub policy_clamp : Num → Num → Num
  policy_clamp clamp local = Float.min F (Float.max F (lit 0) (Float.min F (lit 10000) clamp)) local

  -- the body of the loop over the policies
  unfoldable pub drive_policy : (ℕ → Option ℤ) → Num → Num → String → Turn → Turn
  unfolding samples_of workers_of drive policy_clamp
  drive_policy read_freq clamp load p turn =
      let e = turn.engine in
      let clamped = policy_clamp clamp (get_or p (lit 10000) e.policy_clamp_factors) in
      let samples = samples_of read_freq e.cpu_policy_ids p e.workers in
      let (controller, duty) = update_samples F p samples clamped load e.duty_controller in
      let own = workers_of e.cpu_policy_ids p e.workers in
      let active =
        active_index (is_round_robin e.targeting_mode) (get_or p 0 turn.round_robin_idx)
          (length own) in
      record {
        round_robin_idx = advance p active turn.round_robin_idx;
        policy_duties = turn.policy_duties ++ duty ∷ [];
        engine = record e {
          duty_controller = controller;
          workers = drive e.cpu_policy_ids p active duty 0 e.workers;
        };
      }

  unfoldable pub drive_policies : (ℕ → Option ℤ) → Num → Num → List String → Turn → Turn
  unfolding drive_policy
  drive_policies read_freq clamp load [] turn = turn
  drive_policies read_freq clamp load (p ∷ ps) turn =
      drive_policies read_freq clamp load ps (drive_policy read_freq clamp load p turn)

  abbrev any_clamped : Dict String Num → Bool
  any_clamped [] = false
  any_clamped ((_, clamp) ∷ rest) = Float.lt F clamp (lit 10000) || any_clamped rest

  abbrev total : Num → List Num → Num
  total sum [] = sum
  total sum (x ∷ xs) = total (F.add sum x) xs

  abbrev mean_duty : List Num → Num
  mean_duty [] = lit 0
  mean_duty (x ∷ xs) = F.div (total (lit 0) (x ∷ xs)) (F.of_ℤ (pos (length (x ∷ xs))))

  -- the state in which the loop over the policies starts
  unfoldable pub first_turn :
      (ℕ → Option ℤ) → Num → Bool → Num → Dict String ℕ → PulseEngine F → Turn
  unfolding read_workers
  first_turn read_freq clamp tripped load idx e =
      let clamped =
        Float.lt F clamp (lit 10000) || (tripped || any_clamped e.policy_clamp_factors) in
      record {
        round_robin_idx = idx;
        policy_duties = [];
        engine = record e {
          external_load_pct = load;
          thermal_clamped = clamped;
          workers = read_workers read_freq e.workers;
        };
      }

  -- One turn of the loop: `clamp` and `tripped` are what the thermal guard shows, 1.0 and False where
  -- there is none, and `load` is what the load monitor returns.
  unfoldable pub controller_turn :
      (ℕ → Option ℤ)
      → Num
      → Bool
      → Num
      → Dict String ℕ
      → PulseEngine F
      → Dict String ℕ × PulseEngine F
  unfolding first_turn drive_policies
  controller_turn read_freq clamp tripped load idx e =
      let turn =
        drive_policies read_freq clamp load (keys e.policy_targets)
          (first_turn read_freq clamp tripped load idx e) in
      (turn.round_robin_idx, record turn.engine { overall_duty_pct = mean_duty turn.policy_duties })
