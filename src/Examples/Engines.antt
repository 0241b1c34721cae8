-- ===== src/Examples/Engines.antt =====
-- Runs of boostlock/engine.py: one policy below its target.
use boostlock.Prelude.{refl, arith, List, [], ◌∷◌, none, some, String}
use boostlock.Prelude.Fixed.{fixed}
use boostlock.Prelude.Int.{ℤ, pos}
use boostlock.Engine.Duty.{PolicyDutyState, AdaptiveDutyController, update_policy}
use boostlock.Engine.Duty.Bounds.{HasLimits, IsBounded, update_policy-IsBounded}
use boostlock.Engine.Duty.Isolation.{Feed, Agree, fed_all, own_feeds, update_samples-Agree}
use boostlock.Engine.Load.{ExternalLoadMonitor}
use boostlock.Engine.Waveform.{sine, WaveformGenerator, Signals}

abbrev controller : AdaptiveDutyController fixed
controller = record {
  target_freq_khz = pos 4000000;
  min_duty_pct = 50000;
  max_duty_pct = 500000;
  duty_step_pct = 20000;
  load_yield_threshold_pct = 800000;
  initial_duty_pct = 50000;
  policy_targets = ("policy0", pos 4000000) ∷ [];
  legacy_policy_id = "policy0";
  policy_states = [];
}

abbrev state : PolicyDutyState fixed
state = record {
  current_duty_pct = 50000;
  sample_count = 0;
  compliant_sample_count = 0;
  sample_average_khz = none;
  thermal_clamp_factor = 10000;
  external_load_pct = 0;
}

abbrev samples : List ℤ
samples = pos 3000000 ∷ pos 3200000 ∷ []

limits : HasLimits fixed controller
limits = record { min_low = refl; duties = refl; step_low = refl }

update_policy-IsBounded_example :
    IsBounded fixed controller
      (update_policy fixed controller (pos 4000000) samples 10000 0 state).0
update_policy-IsBounded_example =
    update_policy-IsBounded fixed controller (pos 4000000) samples 10000 0 state limits
      (record { low = refl; high = refl; counted = omega arith })

abbrev feed : String → Feed fixed
feed id = record { policy_id = id; samples = samples; clamp = 10000; load = 0 }

abbrev feeds : List (Feed fixed)
feeds = feed "policy0" ∷ feed "policy1" ∷ feed "policy0" ∷ []

update_samples-Agree_example :
    Agree fixed "policy1"
      (fed_all fixed feeds controller)
      (fed_all fixed (own_feeds fixed "policy1" feeds) controller)
update_samples-Agree_example = update_samples-Agree fixed "policy1" feeds controller

abbrev load_monitor : ExternalLoadMonitor
load_monitor = record { prev_idle = some 900; prev_total = some 1000 }

abbrev generator : WaveformGenerator fixed
generator = record {
  waveform_type = sine;
  min_duty_pct = 50000;
  max_duty_pct = 500000;
  period_s = 1000;
  jitter_pct = 50000;
}

abbrev signals : Signals fixed
signals = record { sine_turn = λ t. 5000; rem = λ a b. 0; uniform = λ j. 0 }
