-- ===== src/Examples/Meters.antt =====
-- The metrics of boostlock/engine.py for three workers of two policies.
use boostlock.Prelude.{ℕ, String, Bool, true, false, ◌≡◌, refl, some, [], ◌∷◌, List}
use boostlock.Prelude.Fixed.{fixed}
use boostlock.Prelude.Int.{pos}
use boostlock.Prelude.Dict.{ℕ_eq, get, get_or}
use boostlock.Sysfs.Plan.{elem}
use boostlock.Engine.Controller.{running}
use boostlock.Engine.Metrics.{PulseMetrics, Books, metric_owner, get_metrics}
use boostlock.Engine.Metrics.Totals.{policy_pulses, policy_workers, get_metrics-totals}

abbrev meter : ℕ → String → Bool → PulseMetrics
meter cpu policy resting = record {
  cpu_id = cpu;
  policy_id = some policy;
  pulses_executed = 7;
  cur_freq_khz = some (pos 3000000);
  is_running = true;
  is_paused = resting;
}

abbrev meters : List PulseMetrics
meters = meter 0 "policy0" false ∷ meter 1 "policy1" true ∷ meter 2 "" false ∷ []

abbrev books : Books fixed
books = record {
  state = running;
  cpu_policy_ids = (0, "policy0") ∷ (1, "policy1") ∷ (2, "policy0") ∷ [];
  policy_targets = ("policy0", pos 4000000) ∷ ("policy1", pos 3600000) ∷ [];
  policy_members = [];
  policy_drivers = [];
  policy_states = [];
}

get_metrics-totals_example :
    (policy_pulses fixed (get_metrics fixed books meters).policy_metrics
      ≡ (get_metrics fixed books meters).total_pulses)
    × (policy_workers fixed (get_metrics fixed books meters).policy_metrics
        ≡ (get_metrics fixed books meters).active_workers)
unfolding elem metric_owner get get_or
get_metrics-totals_example =
    get_metrics-totals fixed books meters (refl, (refl, tt)) (refl, (refl, (refl, tt)))
