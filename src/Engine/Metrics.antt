-- ===== src/Engine/Metrics.antt =====
-- `PulseWorker.get_metrics` and `PulseEngine.get_metrics` of boostlock/engine.py, without the rounded
-- times and duties.

pub mod Totals
use boostlock.Prelude.{
  ℕ, suc, ◌+◌, String, Bool, true, false, not, ◌&&◌, Option, none, some, List, [], ◌∷◌, length,
  str_eq, if◌then◌else◌,
}
use boostlock.Prelude.Int.{ℤ, pos, ◌+ℤ◌}
use boostlock.Prelude.Float.{Float}
use boostlock.Prelude.Dict.{Dict, String_eq, ℕ_eq, get, get_or}
use boostlock.Engine.Duty.{PolicyDutyState}
use boostlock.Engine.Controller.{EngineState, running, stopped, paused}

-- what a worker shows
pub record PulseMetrics : Type 0 where
  pub cpu_id : ℕ
  pub policy_id : Option String
  pub pulses_executed : ℕ
  pub cur_freq_khz : Option ℤ
  pub is_running : Bool
  pub is_paused : Bool

-- the state in the metrics of a worker: PAUSED also where the thread does not run
unfoldable pub worker_state : PulseMetrics → EngineState
worker_state m = if m.is_paused then paused else (if m.is_running then running else stopped)

abbrev pub is_running_state : EngineState → Bool
is_running_state running = true
is_running_state _ = false

pub record PolicyPulseMetrics (F : Float) : Type 0 where
  pub policy_id : String
  pub member_cpus : List ℤ
  pub target_frequency_khz : ℤ
  pub sample_average_khz : Option F.Num
  pub sample_count : ℕ
  pub active_workers : ℕ
  pub total_pulses : ℕ
  pub driver : Option String

pub record EngineMetrics (F : Float) : Type 0 where
  pub state : EngineState
  pub average_frequency_khz : Option F.Num
  pub active_workers : ℕ
  pub total_pulses : ℕ
  pub policy_metrics : List (PolicyPulseMetrics F)

-- the dicts of the engine that the metrics read
pub record Books (F : Float) : Type 0 where
  pub state : EngineState
  pub cpu_policy_ids : Dict ℕ String
  pub policy_targets : Dict String ℤ
  pub policy_members : Dict String (List ℤ)
  pub policy_drivers : Dict String (Option String)
  pub policy_states : Dict String (PolicyDutyState F)

-- `m.policy_id or cpu_policy_ids.get(cpu, "default")`
abbrev named_or : Option String → String → String
named_or none other = other
named_or (some id) other = if str_eq id "" then other else id

unfoldable pub metric_owner : Dict ℕ String → PulseMetrics → String
metric_owner ids m = named_or m.policy_id (get_or m.cpu_id "default" ids)

-- `policy_worker_metrics[policy_id]`
unfoldable pub metrics_of : Dict ℕ String → String → List PulseMetrics → List PulseMetrics
unfolding metric_owner
metrics_of ids p [] = []
metrics_of ids p (m ∷ ms) =
    let rest = metrics_of ids p ms in if str_eq (metric_owner ids m) p then m ∷ rest else rest

abbrev pub pulses : List PulseMetrics → ℕ
pulses [] = 0
pulses (m ∷ ms) = m.pulses_executed + pulses ms

-- the metrics whose state is RUNNING
unfoldable pub running_count : List PulseMetrics → ℕ
unfolding worker_state
running_count [] = 0
running_count (m ∷ ms) = (if is_running_state (worker_state m) then 1 else 0) + running_count ms

-- len([w for w in workers if w.is_running and not w.is_paused])
unfoldable pub awake_count : List PulseMetrics → ℕ
awake_count [] = 0
awake_count (m ∷ ms) = (if m.is_running && not m.is_paused then 1 else 0) + awake_count ms

abbrev frequencies : List PulseMetrics → List ℤ
frequencies [] = []
frequencies (m ∷ ms) = elim m.cur_freq_khz [
  | none ↦ frequencies ms
  | some freq ↦ freq ∷ frequencies ms
]

abbrev sum_khz : List ℤ → ℤ
sum_khz [] = pos 0
sum_khz (x ∷ xs) = x +ℤ sum_khz xs

abbrev cpu_ids : List PulseMetrics → List ℤ
cpu_ids [] = []
cpu_ids (m ∷ ms) = pos m.cpu_id ∷ cpu_ids ms

module _ (F : Float) where
  open F use {Num}

  abbrev mean_khz : List ℤ → Option Num
  mean_khz [] = none
  mean_khz (x ∷ xs) = some (F.div (F.of_ℤ (sum_khz (x ∷ xs))) (F.of_ℤ (pos (length (x ∷ xs)))))

  abbrev average_of : Option (PolicyDutyState F) → Option Num
  average_of none = none
  average_of (some s) = s.sample_average_khz

  abbrev count_of : Option (PolicyDutyState F) → ℕ
  count_of none = 0
  count_of (some s) = s.sample_count

  unfoldable pub policy_metric : Books F → List PulseMetrics → String → ℤ → PolicyPulseMetrics F
  unfolding metrics_of running_count
  policy_metric e ms p target =
      let own = metrics_of e.cpu_policy_ids p ms in
      record {
        policy_id = p;
        member_cpus = get_or p (cpu_ids own) e.policy_members;
        target_frequency_khz = target;
        sample_average_khz = average_of (get p e.policy_states);
        sample_count = count_of (get p e.policy_states);
        active_workers = running_count own;
        total_pulses = pulses own;
        driver = get_or p none e.policy_drivers;
      }

  unfoldable pub policy_metrics :
      Books F → List PulseMetrics → Dict String ℤ → List (PolicyPulseMetrics F)
  unfolding policy_metric
  policy_metrics e ms [] = []
  policy_metrics e ms ((p, target) ∷ rest) = policy_metric e ms p target ∷ policy_metrics e ms rest

  unfoldable pub get_metrics : Books F → List PulseMetrics → EngineMetrics F
  unfolding policy_metrics awake_count
  get_metrics e ms = record {
    state = e.state;
    average_frequency_khz = mean_khz (frequencies ms);
    active_workers = awake_count ms;
    total_pulses = pulses ms;
    policy_metrics = policy_metrics e ms e.policy_targets;
  }
