-- ===== src/Engine/Life/Invariant.antt =====
-- What holds of a `PulseEngine` of boostlock/engine.py between its calls.
use boostlock.Prelude.{ℕ, String, Bool, true, false, ◌≡◌, Option, some, List, [], ◌∷◌, All}
use boostlock.Prelude.Int.{ℤ}
use boostlock.Prelude.Float.{Float}
use boostlock.Prelude.Dict.{Dict, String_eq, ℕ_eq, get, keys}
use boostlock.Engine.Duty.{any_nonpositive}
use boostlock.Engine.Policies.Positive.{IsServed}
use boostlock.Engine.Controller.{
  PulseEngine, PulseWorker, EngineState, stopped, starting, running, paused, throttled,
}

-- what a turn of the controller leaves alone of a worker
pub record Post : Type 0 where
  pub cpu : ℕ
  pub policy : Option String
  pub target : ℤ
  pub held : Bool

abbrev pub cpus : List Post → List ℕ
cpus [] = []
cpus (w ∷ ws) = w.cpu ∷ cpus ws

abbrev pub holds : List Post → List Bool
holds [] = []
holds (w ∷ ws) = w.held ∷ holds ws

-- a stopped engine has no worker; a running one has one for each core, and none of them is paused; in
-- a paused one all are. No call leaves another state.
abbrev pub Phase : EngineState → List ℕ → List Post → Type 0
Phase stopped cores ws = ws ≡ []
Phase running cores ws = (cpus ws ≡ cores) × All (λ b. b ≡ false) (holds ws)
Phase paused cores ws = (cpus ws ≡ cores) × All (λ b. b ≡ true) (holds ws)
Phase starting cores ws = true ≡ false
Phase throttled cores ws = true ≡ false

abbrev pub Covered : Dict ℕ String → ℕ → Type 0
Covered ids c = (p : String) × (get c ids ≡ some p)

-- the worker has its core's policy and that policy's target
abbrev pub Driven : Dict ℕ String → Dict String ℤ → Post → Type 0
Driven ids targets w =
    (p : String) × (w.policy ≡ some p) × (get w.cpu ids ≡ some p) × (get p targets ≡ some w.target)

module _ (F : Float) where
  open F use {Num}

  abbrev pub post : PulseWorker F → Post
  post w = record {
    cpu = w.cpu_id;
    policy = w.policy_id;
    target = w.target_freq_khz;
    held = w.is_paused;
  }

  abbrev pub posts : List (PulseWorker F) → List Post
  posts [] = []
  posts (w ∷ ws) = post w ∷ posts ws

  pub record IsEngine (e : PulseEngine F) : Type 0 where
    pub configured : any_nonpositive e.configured_policy_targets ≡ false
    pub served : IsServed e.cpu_policy_ids e.policy_targets
    pub covered : All (Covered e.cpu_policy_ids) e.target_cores
    pub factors : keys e.policy_clamp_factors ≡ keys e.policy_targets
    pub controlled : e.duty_controller.policy_targets ≡ e.policy_targets
    pub phase : Phase e.state e.target_cores (posts e.workers)
    pub driven : All (Driven e.cpu_policy_ids e.policy_targets) (posts e.workers)
