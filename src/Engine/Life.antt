-- ===== src/Engine/Life.antt =====
-- The life of `PulseEngine` of boostlock/engine.py: its construction, `start`, `stop`, `pause`,
-- `resume`, `reconfigure` and `set_policy_thermal_clamp`.
pub mod Invariant
pub mod Workers
pub mod Kept
pub mod Calls
pub mod Reconfigure
pub mod Reach
pub mod Pauses
use boostlock.Prelude.{
  ℕ, String, Bool, true, false, Option, none, some, List, [], ◌∷◌, Result, ok, err, if◌then◌else◌,
}
use boostlock.Prelude.Int.{ℤ}
use boostlock.Prelude.Float
use boostlock.Prelude.Float.{Float}
use boostlock.Prelude.Dict.{Dict, String_eq, ℕ_eq, get, get_or, set, contains}
use boostlock.Config.{BoostLockConfig, target_frequency_khz}
use boostlock.Sysfs.Policy.{CpufreqPolicy}
use boostlock.Engine.Duty.{AdaptiveDutyController, ValueError, new_controller, set_policy_targets}
use boostlock.Engine.Target.{configured_target_khz}
use boostlock.Engine.Policies.{TargetingMode, PolicyMap, resolve_policy_targets}
use boostlock.Engine.Controller.{
  PulseEngine, PulseWorker, stopped, starting, running, paused, throttled,
}

pub data EngineError : Type 0 where
  value_error : ValueError → EngineError
  -- "Unknown policy ...", or a missing key
  key_error : String → EngineError

module _ (F : Float) where
  open F use {Num, lit}

  -- the exception, and the engine as the call leaves it
  abbrev pub Outcome : Type 0
  Outcome = Result (EngineError × PulseEngine F) (PulseEngine F)

  -- {policy_id: 1.0 for policy_id in targets}, with the previous factor of a policy that has one
  unfoldable pub carry_factors : Dict String Num → Dict String ℤ → Dict String Num
  carry_factors previous [] = []
  carry_factors previous ((id, _) ∷ rest) =
      (id, get_or id (lit 10000) previous) ∷ carry_factors previous rest

  -- `__init__`, on the cores that `_resolve_target_cores` chose. The controller's `target_freq_khz` is
  -- the setting as it is, "auto" too, which only a policy without a target would read.
  unfoldable pub new_engine :
      BoostLockConfig F
      → TargetingMode
      → List ℕ
      → Dict String ℤ
      → List CpufreqPolicy
      → PulseEngine F
  unfolding carry_factors
  new_engine config mode cores configured discovered =
      let m = resolve_policy_targets config.target_frequency_khz configured cores discovered in
      record {
        config = config;
        targeting_mode = mode;
        state = stopped;
        workers = [];
        target_cores = cores;
        configured_policy_targets = configured;
        policy_members = m.policy_members;
        policy_drivers = m.policy_drivers;
        policy_records = m.policy_records;
        cpu_policy_ids = m.cpu_policy_ids;
        policy_targets = m.policy_targets;
        policy_clamp_factors = carry_factors [] m.policy_targets;
        duty_controller =
            new_controller F (configured_target_khz config.target_frequency_khz)
              config.min_pulse_duty_pct config.max_pulse_duty_pct config.duty_step_pct (lit 250000)
              none m.policy_targets;
        overall_duty_pct = config.min_pulse_duty_pct;
        external_load_pct = lit 0;
        thermal_clamped = false;
      }

  -- `self._cpu_policy_ids.get(cpu_id, "default")`
  abbrev pub policy_of_cpu : Dict ℕ String → ℕ → String
  policy_of_cpu ids cpu = get_or cpu "default" ids

  unfoldable pub new_worker : PulseEngine F → ℕ → PulseWorker F
  new_worker e cpu =
      let id = policy_of_cpu e.cpu_policy_ids cpu in
      record {
        cpu_id = cpu;
        policy_id = some id;
        duty_cycle_pct = e.overall_duty_pct;
        cur_freq_khz = none;
        target_freq_khz =
            get_or id (configured_target_khz e.config.target_frequency_khz) e.policy_targets;
        is_paused = false;
      }

  unfoldable pub new_workers : PulseEngine F → List ℕ → List (PulseWorker F)
  unfolding new_worker
  new_workers e [] = []
  new_workers e (cpu ∷ rest) = new_worker e cpu ∷ new_workers e rest

  abbrev launched : PulseEngine F → PulseEngine F
  launched e = record e { state = running; workers = new_workers e e.target_cores }

  -- a paused engine, too, gets new workers
  unfoldable pub start : PulseEngine F → PulseEngine F
  unfolding new_workers
  start e = elim e.state [
    | running ↦ e
    | stopped ↦ launched e
    | starting ↦ launched e
    | paused ↦ launched e
    | throttled ↦ launched e
  ]

  abbrev halted : PulseEngine F → PulseEngine F
  halted e = record e { state = stopped; workers = [] }

  unfoldable pub stop : PulseEngine F → PulseEngine F
  stop e = elim e.state [
    | stopped ↦ e
    | running ↦ halted e
    | starting ↦ halted e
    | paused ↦ halted e
    | throttled ↦ halted e
  ]

  abbrev set_paused : Bool → List (PulseWorker F) → List (PulseWorker F)
  set_paused b [] = []
  set_paused b (w ∷ ws) = record w { is_paused = b } ∷ set_paused b ws

  unfoldable pub pause : PulseEngine F → PulseEngine F
  pause e = elim e.state [
    | running ↦ record e { state = paused; workers = set_paused true e.workers }
    | stopped ↦ e
    | starting ↦ e
    | paused ↦ e
    | throttled ↦ e
  ]

  unfoldable pub resume : PulseEngine F → PulseEngine F
  resume e = elim e.state [
    | paused ↦ record e { state = running; workers = set_paused false e.workers }
    | stopped ↦ e
    | starting ↦ e
    | running ↦ e
    | throttled ↦ e
  ]

  unfoldable pub set_policy_thermal_clamp : String → Num → PulseEngine F → Outcome
  set_policy_thermal_clamp id factor e =
      let clamped = Float.max F (lit 0) (Float.min F (lit 10000) factor) in
      if contains id e.policy_targets
      then ok (record e { policy_clamp_factors = set id clamped e.policy_clamp_factors })
      else err (key_error id, e)

  -- the workers after the loop; a failed loop gives the key that it missed and the workers as it
  -- leaves them
  abbrev Retargeted : Type 0
  Retargeted = Result (String × List (PulseWorker F)) (List (PulseWorker F))

  abbrev retargeted_then : PulseWorker F → Retargeted → Retargeted
  retargeted_then w (err (id, ws)) = err (id, w ∷ ws)
  retargeted_then w (ok ws) = ok (w ∷ ws)

  -- `worker.policy_id` is set before the target is looked up
  abbrev retarget_worker :
      String → Option ℤ → PulseWorker F → List (PulseWorker F) → Retargeted → Retargeted
  retarget_worker id none w ws rest = err (id, record w { policy_id = some id } ∷ ws)
  retarget_worker id (some target) w ws rest =
      retargeted_then (record w { policy_id = some id; target_freq_khz = target }) rest

  -- the loop over the workers
  unfoldable pub retarget_workers :
      Dict ℕ String → Dict String ℤ → List (PulseWorker F) → Retargeted
  retarget_workers ids targets [] = ok []
  retarget_workers ids targets (w ∷ ws) =
      let id = policy_of_cpu ids w.cpu_id in
      retarget_worker id (get id targets) w ws (retarget_workers ids targets ws)

  abbrev with_workers : PulseEngine F → Retargeted → Outcome
  with_workers e (ok ws) = ok (record e { workers = ws })
  with_workers e (err (id, ws)) = err (key_error id, record e { workers = ws })

  abbrev with_controller :
      BoostLockConfig F → PulseEngine F → Result ValueError (AdaptiveDutyController F) → Outcome
  with_controller config e (err x) = err (value_error x, e)
  with_controller config e (ok c) =
      let c' = record c {
        min_duty_pct = config.min_pulse_duty_pct;
        max_duty_pct = config.max_pulse_duty_pct;
        duty_step_pct = config.duty_step_pct;
      } in
      with_workers (record e { duty_controller = c' })
        (retarget_workers e.cpu_policy_ids e.policy_targets e.workers)

  unfoldable pub reconfigure : List CpufreqPolicy → BoostLockConfig F → PulseEngine F → Outcome
  unfolding carry_factors retarget_workers
  reconfigure discovered config e0 =
      let m =
        resolve_policy_targets config.target_frequency_khz e0.configured_policy_targets
          e0.target_cores discovered in
      let e = record e0 {
        config = config;
        policy_members = m.policy_members;
        policy_drivers = m.policy_drivers;
        policy_records = m.policy_records;
        cpu_policy_ids = m.cpu_policy_ids;
        policy_targets = m.policy_targets;
        policy_clamp_factors = carry_factors e0.policy_clamp_factors m.policy_targets;
      } in
      with_controller config e (set_policy_targets F m.policy_targets e.duty_controller)
