-- ===== src/Engine/Life/Calls.antt =====
-- Each call of `PulseEngine` of boostlock/engine.py keeps what holds of the engine.
use boostlock.Prelude.{
  ℕ, String, Bool, true, false, ◌≡◌, refl, sym, ap, ◌∙◌, Option, List, [], ◌∷◌, All, ok, err, inl,
  inr, ◌⊎◌, Bool-cases, str_eq,
}
use boostlock.Prelude.Int.{ℤ}
use boostlock.Prelude.Float.{Float}
use boostlock.Prelude.Dict.{Dict, String_eq, ℕ_eq, get, keys, contains, set}
use boostlock.Engine.Controller.{
  PulseEngine, PulseWorker, EngineState, stopped, starting, running, paused, throttled,
  controller_turn,
}
use boostlock.Engine.Life.{
  new_workers, start, stop, set_paused, pause, resume, set_policy_thermal_clamp, Outcome,
}
use boostlock.Engine.Life.Invariant.{cpus, holds, Phase, Driven, posts, IsEngine}
use boostlock.Engine.Life.Workers.{
  new_workers-Driven, new_workers-Phase, cpus-set_paused, holds-set_paused, set_paused-Driven,
}
use boostlock.Engine.Life.Kept.{controller_turn-Kept}

pub State-cases :
    (s : EngineState)
    → (s ≡ stopped) ⊎ (s ≡ running) ⊎ (s ≡ paused) ⊎ (s ≡ starting) ⊎ (s ≡ throttled)
State-cases stopped = inl refl
State-cases running = inr (inl refl)
State-cases paused = inr (inr (inl refl))
State-cases starting = inr (inr (inr (inl refl)))
State-cases throttled = inr (inr (inr (inr refl)))

module _ (F : Float) where
  open F use {Num, lit}

  -- a new state and new workers
  moved-IsEngine :
      (e : PulseEngine F) (s : EngineState) (ws : List (PulseWorker F))
      → Phase s e.target_cores (posts F ws)
      → All (Driven e.cpu_policy_ids e.policy_targets) (posts F ws)
      → IsEngine F e
      → IsEngine F (record e { state = s; workers = ws })
  moved-IsEngine e s ws phase driven i = record {
    configured = i.configured;
    served = i.served;
    covered = i.covered;
    factors = i.factors;
    controlled = i.controlled;
    phase = phase;
    driven = driven;
  }

  pub start-IsEngine : (e : PulseEngine F) → IsEngine F e → IsEngine F (start F e)
  unfolding start
  start-IsEngine e i =
      let fresh =
        moved-IsEngine e running (new_workers F e e.target_cores)
          (new_workers-Phase F e e.target_cores)
          (new_workers-Driven F e e.target_cores i.served i.covered) i in
      elim (State-cases e.state) [
        | inl is_stopped ↦ rw (start, is_stopped) fresh
        | inr (inl is_running) ↦ rw (start, is_running) i
        | inr (inr (inl is_paused)) ↦ rw (start, is_paused) fresh
        | inr (inr (inr (inl is_starting))) ↦ rw (start, is_starting) fresh
        | inr (inr (inr (inr is_throttled))) ↦ rw (start, is_throttled) fresh
      ]

  pub stop-IsEngine : (e : PulseEngine F) → IsEngine F e → IsEngine F (stop F e)
  unfolding stop
  stop-IsEngine e i =
      let idle = moved-IsEngine e stopped [] refl tt i in
      elim (State-cases e.state) [
        | inl is_stopped ↦ rw (stop, is_stopped) i
        | inr (inl is_running) ↦ rw (stop, is_running) idle
        | inr (inr (inl is_paused)) ↦ rw (stop, is_paused) idle
        | inr (inr (inr (inl is_starting))) ↦ rw (stop, is_starting) idle
        | inr (inr (inr (inr is_throttled))) ↦ rw (stop, is_throttled) idle
      ]

  repaused-IsEngine :
      (e : PulseEngine F) (s : EngineState) (b : Bool)
      → IsEngine F e
      → cpus (posts F e.workers) ≡ e.target_cores
      → ((cpus (posts F (set_paused F b e.workers)) ≡ e.target_cores)
          → All (λ h. h ≡ b) (holds (posts F (set_paused F b e.workers)))
          → Phase s e.target_cores (posts F (set_paused F b e.workers)))
      → IsEngine F (record e { state = s; workers = set_paused F b e.workers })
  repaused-IsEngine e s b i same phase =
      moved-IsEngine e s (set_paused F b e.workers)
        (phase (cpus-set_paused F b e.workers ∙ same) (holds-set_paused F b e.workers))
        (set_paused-Driven F e.cpu_policy_ids e.policy_targets b e.workers i.driven) i

  pub pause-IsEngine : (e : PulseEngine F) → IsEngine F e → IsEngine F (pause F e)
  unfolding pause
  pause-IsEngine e i = elim (State-cases e.state) [
    | inl is_stopped ↦ rw (pause, is_stopped) i
    | inr (inl is_running) ↦
        let phase : Phase running e.target_cores (posts F e.workers) = rw is_running at i.phase in
        rw (pause, is_running) (repaused-IsEngine e paused true i phase.0 (λ same all. (same, all)))
    | inr (inr (inl is_paused)) ↦ rw (pause, is_paused) i
    | inr (inr (inr (inl is_starting))) ↦ rw (pause, is_starting) i
    | inr (inr (inr (inr is_throttled))) ↦ rw (pause, is_throttled) i
  ]

  pub resume-IsEngine : (e : PulseEngine F) → IsEngine F e → IsEngine F (resume F e)
  unfolding resume
  resume-IsEngine e i = elim (State-cases e.state) [
    | inl is_stopped ↦ rw (resume, is_stopped) i
    | inr (inl is_running) ↦ rw (resume, is_running) i
    | inr (inr (inl is_paused)) ↦
        let phase : Phase paused e.target_cores (posts F e.workers) = rw is_paused at i.phase in
        rw (resume, is_paused)
          (repaused-IsEngine e running false i phase.0 (λ same all. (same, all)))
    | inr (inr (inr (inl is_starting))) ↦ rw (resume, is_starting) i
    | inr (inr (inr (inr is_throttled))) ↦ rw (resume, is_throttled) i
  ]

  pub controller_turn-IsEngine :
      (read_freq : ℕ → Option ℤ) (clamp : Num) (tripped : Bool) (load : Num) (idx : Dict String ℕ)
      (e : PulseEngine F)
      → IsEngine F e
      → IsEngine F (controller_turn F read_freq clamp tripped load idx e).1
  controller_turn-IsEngine read_freq clamp tripped load idx e i =
      let k = controller_turn-Kept F read_freq clamp tripped load idx e i.controlled in
      record {
        configured = rw k.same_configured i.configured;
        served = rw (k.same_ids, k.same_targets) i.served;
        covered = rw (k.same_ids, k.same_cores) i.covered;
        factors = rw (k.same_factors, k.same_targets) i.factors;
        controlled = k.same_controlled ∙ i.controlled ∙ sym k.same_targets;
        phase = rw (k.same_state, k.same_cores, k.same_posts) i.phase;
        driven = rw (k.same_ids, k.same_targets, k.same_posts) i.driven;
      }

  keys-set :
      (id : String) (factor : Num) (d : Dict String Num)
      → contains id d ≡ true
      → keys (set id factor d) ≡ keys d
  unfolding set contains get
  keys-set id factor [] h = cc
  keys-set id factor ((j, g) ∷ d) h = elim (Bool-cases (str_eq j id)) [
    | inl same ↦ rw (set, same) refl
    | inr differ ↦
        let later : contains id d ≡ true = rw (contains, get, differ) at h in
        rw (set, differ) (ap (λ r. j ∷ r) (keys-set id factor d later))
  ]

  keys_contain :
      {V W : Type 0} (id : String) (d : Dict String V) (g : Dict String W)
      → keys d ≡ keys g
      → contains id g ≡ true
      → contains id d ≡ true
  unfolding contains get
  keys_contain id [] [] e h = cc
  keys_contain id [] ((k, w) ∷ g) e h = cc
  keys_contain id ((j, v) ∷ d) [] e h = cc
  keys_contain id ((j, v) ∷ d) ((k, w) ∷ g) e h =
      let first : j ≡ k = cc in
      let rest : keys d ≡ keys g = cc in
      elim (Bool-cases (str_eq j id)) [
        | inl same ↦ rw (contains, get, same) refl
        | inr differ ↦
            let differ' : str_eq k id ≡ false = rw first at differ in
            let later : contains id g ≡ true = rw (contains, get, differ') at h in
            rw (contains, get, differ) (keys_contain id d g rest later)
      ]

  abbrev pub after : Outcome F → PulseEngine F
  after (ok e) = e
  after (err (x, e)) = e

  pub set_policy_thermal_clamp-IsEngine :
      (id : String) (factor : Num) (e : PulseEngine F)
      → IsEngine F e
      → IsEngine F (after (set_policy_thermal_clamp F id factor e))
  unfolding set_policy_thermal_clamp
  set_policy_thermal_clamp-IsEngine id factor e i =
      elim (Bool-cases (contains id e.policy_targets)) [
        | inr unknown ↦ rw (set_policy_thermal_clamp, unknown) i
        | inl known ↦
            let held = keys_contain id e.policy_clamp_factors e.policy_targets i.factors known in
            rw (set_policy_thermal_clamp, known)
              (record {
                configured = i.configured;
                served = i.served;
                covered = i.covered;
                factors = keys-set id _ e.policy_clamp_factors held ∙ i.factors;
                controlled = i.controlled;
                phase = i.phase;
                driven = i.driven;
              })
      ]
