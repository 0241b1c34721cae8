-- ===== src/Engine/Pulses.antt =====
-- `PulseWorker.run` of boostlock/engine.py: the loop of a worker's thread.
--
-- A round has what the loop reads in it: the events, the duty and the clock. How long the burst and the
-- sleep of `durations` take is the machine's, so the clock of a round may show anything.
pub mod Ends
use boostlock.Prelude.{ℕ, suc, Bool, true, false, Option, none, some, List, [], ◌∷◌, if◌then◌else◌}
use boostlock.Prelude.Int.{ℤ, pos}
use boostlock.Prelude.Float
use boostlock.Prelude.Float.{Float}
use boostlock.Engine.Waveform.{WaveformGenerator, Signals, compute_duty}

pub record Round (F : Float) : Type 0 where
  pub stop_event : Bool
  pub pause_event : Bool
  pub base_duty : F.Num
  -- the time that `compute_duty` reads
  pub now : F.Num
  -- `perf_counter` before and after the burst, and before and after the sleep
  pub t0 : F.Num
  pub t1 : F.Num
  pub t2 : F.Num
  pub t3 : F.Num

-- what the thread writes, and its period and generator
pub record WorkerThread (F : Float) : Type 0 where
  pub pulse_period_us : ℤ
  pub waveform_generator : Option (WaveformGenerator F)
  pub is_running : Bool
  pub affinity_error : Bool
  pub pulses_executed : ℕ
  pub active_time_s : F.Num
  pub sleep_time_s : F.Num

-- what one pulse asks for: the burst and the sleep, in seconds
pub record Durations (F : Float) : Type 0 where
  pub active_duration_s : F.Num
  pub sleep_duration_s : F.Num

module _ (F : Float) (signals : Signals F) where
  open F use {Num, le, lit, add, sub, mul, div}

  unfoldable pub effective_duty : Option (WaveformGenerator F) → Num → Num → Num
  effective_duty none base now = base
  effective_duty (some w) base now = compute_duty F signals w base now

  -- 10 ^ 6 us and 100 percent
  unfoldable pub durations : WorkerThread F → Round F → Durations F
  unfolding effective_duty
  durations w r =
      let period = div (F.of_ℤ w.pulse_period_us) (lit 10000000000) in
      let active =
        div (mul period (effective_duty w.waveform_generator r.base_duty r.now)) (lit 1000000) in
      record {
        active_duration_s = active;
        sleep_duration_s = Float.max F (lit 0) (sub period active);
      }

  -- the bookkeeping of a pulse by what the clock shows
  unfoldable pub pulse : WorkerThread F → Round F → WorkerThread F
  pulse w r = record w {
    pulses_executed = suc w.pulses_executed;
    active_time_s = add w.active_time_s (sub r.t1 r.t0);
    sleep_time_s = add w.sleep_time_s (sub r.t3 r.t2);
  }

  -- a round of an event loop that is not stopped
  unfoldable pub play : WorkerThread F → Round F → WorkerThread F
  unfolding pulse
  play w r =
      let beaten = if le r.base_duty (lit 0) then w else pulse w r in
      if r.pause_event then w else beaten

  -- the loop; `none` where it still runs after the rounds
  unfoldable pub pulse_loop : List (Round F) → WorkerThread F → Option (WorkerThread F)
  unfolding play
  pulse_loop [] w = none
  pulse_loop (r ∷ rounds) w =
      let rest = pulse_loop rounds (play w r) in
      if r.stop_event then some (record w { is_running = false }) else rest

  -- `pinned` tells whether `sched_setaffinity` succeeds
  unfoldable pub run_worker : Bool → List (Round F) → WorkerThread F → Option (WorkerThread F)
  unfolding pulse_loop
  run_worker pinned rounds w =
      let failed = if pinned then w.affinity_error else true in
      pulse_loop rounds (record w { affinity_error = failed; is_running = true })
