-- ===== src/Examples/Turns.antt =====
-- Turns of the controller of boostlock/engine.py over two workers of one policy.
use boostlock.Prelude.{ℕ, ◌≡◌, ◌≤◌, refl, true, false, [], ◌∷◌, All, Option, none, some}
use boostlock.Prelude.Fixed.{fixed}
use boostlock.Prelude.Int.{ℤ, pos}
use boostlock.Sysfs.Plan.{elem}
use boostlock.Engine.Duty.{AdaptiveDutyController}
use boostlock.Config.{default}
use boostlock.Engine.Policies.{round_robin}
use boostlock.Engine.Controller.{running, PulseWorker, PulseEngine, controller_turn}
use boostlock.Engine.Controller.Quiet.{Quiet, controller_turn-Quiet}
use boostlock.Engine.Controller.Turns.{busy-controller_turn}
use boostlock.Engine.Controller.Busy.{busy}

abbrev feedback : AdaptiveDutyController fixed
feedback = record {
  target_freq_khz = pos 4000000;
  min_duty_pct = 50000;
  max_duty_pct = 500000;
  duty_step_pct = 20000;
  load_yield_threshold_pct = 800000;
  initial_duty_pct = 50000;
  policy_targets = ("policy0", pos 4000000) ∷ [];
  legacy_policy_id = "policy0";
  policy_states = [];
}

abbrev worker : ℕ → PulseWorker fixed
worker cpu = record {
  cpu_id = cpu;
  policy_id = some "policy0";
  duty_cycle_pct = 50000;
  cur_freq_khz = none;
  target_freq_khz = pos 4000000;
  is_paused = false;
}

abbrev engine : PulseEngine fixed
engine = record {
  config = default fixed;
  target_cores = 0 ∷ 1 ∷ [];
  configured_policy_targets = [];
  policy_members = ("policy0", pos 0 ∷ pos 1 ∷ []) ∷ [];
  policy_drivers = ("policy0", none) ∷ [];
  policy_records = [];
  state = running;
  targeting_mode = round_robin;
  workers = worker 0 ∷ worker 1 ∷ [];
  cpu_policy_ids = (0, "policy0") ∷ (1, "policy0") ∷ [];
  policy_targets = ("policy0", pos 4000000) ∷ [];
  policy_clamp_factors = ("policy0", 10000) ∷ [];
  duty_controller = feedback;
  overall_duty_pct = 50000;
  external_load_pct = 0;
  thermal_clamped = false;
}

abbrev slow : ℕ → Option ℤ
slow cpu = some (pos 3000000)

is_policy : elem "policy0" ("policy0" ∷ []) ≡ true
unfolding elem
is_policy = refl

controller_turn-Quiet_example :
    All
      (Quiet fixed engine.cpu_policy_ids "policy0")
      (controller_turn fixed slow 0 true 0 [] engine).1.workers
controller_turn-Quiet_example =
    controller_turn-Quiet fixed slow 0 true 0 [] engine "policy0" refl is_policy

busy-controller_turn_example :
    busy fixed engine.cpu_policy_ids "policy0"
      (controller_turn fixed slow 10000 false 0 [] engine).1.workers
    ≤ 1
busy-controller_turn_example =
    busy-controller_turn fixed slow 10000 false 0 [] engine "policy0" refl is_policy
