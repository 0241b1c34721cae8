-- ===== src/Engine/Life/Pauses.antt =====
-- A pause of boostlock/engine.py is undone by a resume.
use boostlock.Prelude.{true, false, ◌≡◌, refl, sym, ap, ◌∙◌, List, [], ◌∷◌, All}
use boostlock.Prelude.Float.{Float}
use boostlock.Engine.Controller.{PulseWorker, PulseEngine, running, paused}
use boostlock.Engine.Life.{set_paused, pause, resume}

module _ (F : Float) where
  open F use {Num}

  abbrev Awake : PulseWorker F → Type 0
  Awake w = w.is_paused ≡ false

  set_paused_back :
      (ws : List (PulseWorker F)) → All Awake ws → set_paused F false (set_paused F true ws) ≡ ws
  set_paused_back [] awake = refl
  set_paused_back (w ∷ ws) awake = rw (set_paused_back ws awake.1, awake.0) refl

  -- A running engine whose workers run comes back from a pause and a resume as it was.
  resume-pause :
      (e : PulseEngine F) → e.state ≡ running → All Awake e.workers → resume F (pause F e) ≡ e
  unfolding resume pause
  resume-pause e is_running awake =
      let held = record e { state = paused; workers = set_paused F true e.workers } in
      let pauses : pause F e ≡ held = rw (is_running, pause) refl in
      ap (resume F) pauses
      ∙ ap (λ ws. record e { state = running; workers = ws }) (set_paused_back e.workers awake)
      ∙ ap (λ s. record e { state = s }) (sym is_running)
