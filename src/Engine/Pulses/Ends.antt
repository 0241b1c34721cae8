-- ===== src/Engine/Pulses/Ends.antt =====
-- The loop of a worker's thread in boostlock/engine.py ends at a stop, and its pulses are counted.
use boostlock.Prelude.{
  ℕ, ◌+◌, Bool, true, false, ◌≡◌, refl, ◌∙◌, some, List, [], ◌∷◌, arith, if◌then◌else◌, Bool-cases,
  inl, inr,
}
use boostlock.Prelude.Float.{Float}
use boostlock.Engine.Waveform.{Signals}
use boostlock.Engine.Pulses.{Round, WorkerThread, pulse, play, pulse_loop, run_worker}

module _ (F : Float) (signals : Signals F) where
  open F use {Num, le, lit}

  -- whether the stop event is set at the start of some round
  abbrev pub stopped_in : List (Round F) → Bool
  stopped_in [] = false
  stopped_in (r ∷ rounds) = if r.stop_event then true else stopped_in rounds

  -- 1 for a round that is not paused and has a duty above 0.0
  abbrev beat : Round F → ℕ
  beat r = if r.pause_event then 0 else (if le r.base_duty (lit 0) then 0 else 1)

  -- the rounds before the stop that have a pulse
  abbrev pub beats : List (Round F) → ℕ
  beats [] = 0
  beats (r ∷ rounds) = if r.stop_event then 0 else beat r + beats rounds

  pulses-play :
      (w : WorkerThread F) (r : Round F)
      → (play F signals w r).pulses_executed ≡ w.pulses_executed + beat r
  unfolding play pulse
  pulses-play w r = ground arith

  -- the worker has ended, with so many pulses
  abbrev pub Ended : WorkerThread F → ℕ → Type 0
  Ended w n = (w.is_running ≡ false) × (w.pulses_executed ≡ n)

  pulse_loop-ends :
      (rounds : List (Round F)) (w : WorkerThread F)
      → stopped_in rounds ≡ true
      → (w' : WorkerThread F) × (pulse_loop F signals rounds w ≡ some w')
        × Ended w' (w.pulses_executed + beats rounds)
  unfolding pulse_loop
  pulse_loop-ends [] w h = cc
  pulse_loop-ends (r ∷ rounds) w h = elim (Bool-cases r.stop_event) [
    | inl stops ↦ (
      record w { is_running = false },
      rw (pulse_loop, stops) refl,
      (refl, rw stops (omega arith)),
    )
    | inr runs ↦
        let h' : stopped_in rounds ≡ true = rw runs at h in
        let (w', ends, (still, counted)) = pulse_loop-ends rounds (play F signals w r) h' in
        let count : w'.pulses_executed ≡ w.pulses_executed + (beat r + beats rounds) =
          counted ∙ omega (arith, pulses-play w r) in
        (w', rw (pulse_loop, runs) ends, (still, rw runs count))
  ]

  -- A worker's thread ends where some round finds the stop event set, whatever the rounds before it did
  -- and those after it would do. It is then not running, and has made one pulse for each round before
  -- the stop that was not paused and had a duty above 0.0.
  pub run_worker-Ended :
      (pinned : Bool) (rounds : List (Round F)) (w : WorkerThread F)
      → stopped_in rounds ≡ true
      → (w' : WorkerThread F) × (run_worker F signals pinned rounds w ≡ some w')
        × Ended w' (w.pulses_executed + beats rounds)
  unfolding run_worker
  run_worker-Ended pinned rounds w h =
      let failed = if pinned then w.affinity_error else true in
      pulse_loop-ends rounds (record w { affinity_error = failed; is_running = true }) h
