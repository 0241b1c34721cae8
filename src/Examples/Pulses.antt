-- ===== src/Examples/Pulses.antt =====
-- A worker of boostlock/engine.py over a pulse, a paused round and a stop.
use boostlock.Prelude.{Bool, true, false, ◌≡◌, refl, none, some, List, [], ◌∷◌}
use boostlock.Prelude.Fixed.{fixed}
use boostlock.Prelude.Int.{pos}
use boostlock.Engine.Waveform.{Signals}
use boostlock.Engine.Pulses.{Round, WorkerThread, run_worker}
use boostlock.Engine.Pulses.Ends.{Ended, run_worker-Ended}

abbrev signals : Signals fixed
signals = record { sine_turn = λ t. 0; rem = λ a b. 0; uniform = λ j. 0 }

abbrev round : Bool → Bool → Round fixed
round stopping resting = record {
  stop_event = stopping;
  pause_event = resting;
  base_duty = 50000;
  now = 0;
  t0 = 0;
  t1 = 1;
  t2 = 1;
  t3 = 20;
}

abbrev worker : WorkerThread fixed
worker = record {
  pulse_period_us = pos 2000;
  waveform_generator = none;
  is_running = false;
  affinity_error = false;
  pulses_executed = 0;
  active_time_s = 0;
  sleep_time_s = 0;
}

abbrev rounds : List (Round fixed)
rounds = round false false ∷ round false true ∷ round true false ∷ []

run_worker-Ended_example :
    (w : WorkerThread fixed) × (run_worker fixed signals true rounds worker ≡ some w)
    × Ended fixed signals w 1
run_worker-Ended_example = run_worker-Ended fixed signals true rounds worker refl
