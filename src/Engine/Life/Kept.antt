-- ===== src/Engine/Life/Kept.antt =====
-- What one turn of `_controller_loop` of boostlock/engine.py leaves as it is.
use boostlock.Prelude.{
  ℕ, suc, String, Bool, true, ◌≡◌, refl, ap, ◌∙◌, Option, none, some, List, [], ◌∷◌, All, inl, inr,
  Bool-cases, str_eq,
}
use boostlock.Prelude.Int.{ℤ}
use boostlock.Prelude.Float.{Float}
use boostlock.Prelude.Dict.{Dict, String_eq, ℕ_eq, get, keys, contains}
use boostlock.Engine.Duty.{AdaptiveDutyController, state_for_policy, update_samples}
use boostlock.Engine.Controller.{
  PulseEngine, PulseWorker, Turn, set_duty_cycle, with_freq, read_workers, owner, drive,
  drive_policy, drive_policies, first_turn, controller_turn,
}
use boostlock.Engine.Life.Invariant.{post, posts}

contains_after :
    (p j : String) (t : ℤ) (d : Dict String ℤ)
    → contains p d ≡ true
    → contains p ((j, t) ∷ d) ≡ true
unfolding contains get
contains_after p j t d h = elim (Bool-cases (str_eq j p)) [
  | inl same ↦ rw (contains, get, same) refl
  | inr differ ↦ rw (contains, get, differ) h
]

All_contains_after :
    (ps : List String) (j : String) (t : ℤ) (d : Dict String ℤ)
    → All (λ p. contains p d ≡ true) ps
    → All (λ p. contains p ((j, t) ∷ d) ≡ true) ps
All_contains_after [] j t d all = tt
All_contains_after (p ∷ ps) j t d all =
    (contains_after p j t d all.0, All_contains_after ps j t d all.1)

contains_first : (k : String) (t : ℤ) (d : Dict String ℤ) → contains k ((k, t) ∷ d) ≡ true
unfolding contains get
contains_first k t d = rw (contains, get, (String_eq.beq_iff k k).1 refl) refl

keys_contained : (d : Dict String ℤ) → All (λ p. contains p d ≡ true) (keys d)
keys_contained [] = tt
keys_contained ((k, t) ∷ d) =
    (contains_first k t d, All_contains_after (keys d) k t d (keys_contained d))

module _ (F : Float) where
  open F use {Num, le, lit}

  post-with_freq : (freq : Option ℤ) (w : PulseWorker F) → post F (with_freq F freq w) ≡ post F w
  post-with_freq none w = refl
  post-with_freq (some freq) w = refl

  posts-read_workers :
      (read_freq : ℕ → Option ℤ) (ws : List (PulseWorker F))
      → posts F (read_workers F read_freq ws) ≡ posts F ws
  unfolding read_workers
  posts-read_workers read_freq [] = refl
  posts-read_workers read_freq (w ∷ ws) =
      rw (post-with_freq (read_freq w.cpu_id) w, posts-read_workers read_freq ws) refl

  posts-drive :
      (ids : Dict ℕ String) (p : String) (active : Option ℕ) (duty : Num) (i : ℕ)
      (ws : List (PulseWorker F))
      → posts F (drive F ids p active duty i ws) ≡ posts F ws
  unfolding drive set_duty_cycle
  posts-drive ids p active duty i [] = refl
  posts-drive ids p active duty i (w ∷ ws) = elim (Bool-cases (str_eq (owner F ids w) p)) [
    | inl own ↦ rw (drive, own) (ap (λ r. post F w ∷ r) (posts-drive ids p active duty (suc i) ws))
    | inr foreign ↦
        rw (drive, foreign) (ap (λ r. post F w ∷ r) (posts-drive ids p active duty i ws))
  ]

  targets-update_samples :
      (p : String) (xs : List ℤ) (clamp load : Num) (c : AdaptiveDutyController F)
      → contains p c.policy_targets ≡ true
      → (update_samples F p xs clamp load c).0.policy_targets ≡ c.policy_targets
  unfolding update_samples state_for_policy
  targets-update_samples p xs clamp load c h = rw (update_samples, state_for_policy, h) refl

  -- all of an engine but what a turn writes, and what a turn leaves of the rest
  pub record Kept (before after : PulseEngine F) : Type 0 where
    pub same_configured : after.configured_policy_targets ≡ before.configured_policy_targets
    pub same_ids : after.cpu_policy_ids ≡ before.cpu_policy_ids
    pub same_targets : after.policy_targets ≡ before.policy_targets
    pub same_factors : after.policy_clamp_factors ≡ before.policy_clamp_factors
    pub same_cores : after.target_cores ≡ before.target_cores
    pub same_state : after.state ≡ before.state
    pub same_controlled :
        after.duty_controller.policy_targets ≡ before.duty_controller.policy_targets
    pub same_posts : posts F after.workers ≡ posts F before.workers

  Kept-trans : (a b c : PulseEngine F) → Kept a b → Kept b c → Kept a c
  Kept-trans a b c k l = record {
    same_configured = l.same_configured ∙ k.same_configured;
    same_ids = l.same_ids ∙ k.same_ids;
    same_targets = l.same_targets ∙ k.same_targets;
    same_factors = l.same_factors ∙ k.same_factors;
    same_cores = l.same_cores ∙ k.same_cores;
    same_state = l.same_state ∙ k.same_state;
    same_controlled = l.same_controlled ∙ k.same_controlled;
    same_posts = l.same_posts ∙ k.same_posts;
  }

  Kept-refl : (a : PulseEngine F) → Kept a a
  Kept-refl a = record {
    same_configured = refl;
    same_ids = refl;
    same_targets = refl;
    same_factors = refl;
    same_cores = refl;
    same_state = refl;
    same_controlled = refl;
    same_posts = refl;
  }

  module _ (read_freq : ℕ → Option ℤ) (clamp load : Num) where
    abbrev run_policy : String → Turn F → Turn F
    run_policy p turn = drive_policy F read_freq clamp load p turn

    drive_policy-Kept :
        (p : String) (turn : Turn F)
        → contains p turn.engine.duty_controller.policy_targets ≡ true
        → Kept turn.engine (run_policy p turn).engine
    unfolding drive_policy
    drive_policy-Kept p turn h = record {
      same_configured = refl;
      same_ids = refl;
      same_targets = refl;
      same_factors = refl;
      same_cores = refl;
      same_state = refl;
      same_controlled = targets-update_samples p _ _ load turn.engine.duty_controller h;
      same_posts = search posts-drive;
    }

    drive_policies-Kept :
        (ps : List String) (turn : Turn F)
        → All (λ p. contains p turn.engine.duty_controller.policy_targets ≡ true) ps
        → Kept turn.engine (drive_policies F read_freq clamp load ps turn).engine
    unfolding drive_policies
    drive_policies-Kept [] turn all = Kept-refl turn.engine
    drive_policies-Kept (p ∷ ps) turn all =
        let next = run_policy p turn in
        let one = drive_policy-Kept p turn all.0 in
        Kept-trans turn.engine next.engine _ one
          (drive_policies-Kept ps next (rw one.same_controlled all.1))

  first_turn-Kept :
      (read_freq : ℕ → Option ℤ) (clamp : Num) (tripped : Bool) (load : Num) (idx : Dict String ℕ)
      (e : PulseEngine F)
      → Kept e (first_turn F read_freq clamp tripped load idx e).engine
  unfolding first_turn
  first_turn-Kept read_freq clamp tripped load idx e = record {
    same_configured = refl;
    same_ids = refl;
    same_targets = refl;
    same_factors = refl;
    same_cores = refl;
    same_state = refl;
    same_controlled = refl;
    same_posts = posts-read_workers read_freq e.workers;
  }

  pub controller_turn-Kept :
      (read_freq : ℕ → Option ℤ) (clamp : Num) (tripped : Bool) (load : Num) (idx : Dict String ℕ)
      (e : PulseEngine F)
      → e.duty_controller.policy_targets ≡ e.policy_targets
      → Kept e (controller_turn F read_freq clamp tripped load idx e).1
  unfolding controller_turn
  controller_turn-Kept read_freq clamp tripped load idx e same =
      let turn = first_turn F read_freq clamp tripped load idx e in
      let contained : All (λ p. contains p e.duty_controller.policy_targets ≡ true)
          (keys e.policy_targets) =
        rw same (keys_contained e.policy_targets) in
      let start : Kept e turn.engine = first_turn-Kept read_freq clamp tripped load idx e in
      let whole =
        Kept-trans e turn.engine _ start
          (drive_policies-Kept read_freq clamp load (keys e.policy_targets) turn contained) in
      record {
        same_configured = whole.same_configured;
        same_ids = whole.same_ids;
        same_targets = whole.same_targets;
        same_factors = whole.same_factors;
        same_cores = whole.same_cores;
        same_state = whole.same_state;
        same_controlled = whole.same_controlled;
        same_posts = whole.same_posts;
      }
