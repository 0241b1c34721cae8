-- ===== src/Engine/Life/Workers.antt =====
-- The workers of boostlock/engine.py: new, paused, resumed and given new targets.
use boostlock.Prelude.{ℕ, String, Bool, false, ◌≡◌, refl, ap, some, List, [], ◌∷◌, All, ok}
use boostlock.Prelude.Int.{ℤ}
use boostlock.Prelude.Float.{Float}
use boostlock.Prelude.Dict.{Dict, String_eq, ℕ_eq, get_or, keys}
use boostlock.Engine.Policies.Positive.{IsServed}
use boostlock.Engine.Controller.{PulseEngine, PulseWorker, running}
use boostlock.Engine.Life.{new_worker, new_workers, set_paused, retarget_workers, carry_factors}
use boostlock.Engine.Life.Invariant.{cpus, holds, Phase, Covered, Driven, post, posts}

module _ (F : Float) where
  open F use {Num}

  cpus-new_workers : (e : PulseEngine F) (cs : List ℕ) → cpus (posts F (new_workers F e cs)) ≡ cs
  unfolding new_workers new_worker
  cpus-new_workers e [] = refl
  cpus-new_workers e (c ∷ cs) = ap (λ rest. c ∷ rest) (cpus-new_workers e cs)

  holds-new_workers :
      (e : PulseEngine F) (cs : List ℕ)
      → All (λ b. b ≡ false) (holds (posts F (new_workers F e cs)))
  unfolding new_workers new_worker
  holds-new_workers e [] = tt
  holds-new_workers e (c ∷ cs) = (refl, holds-new_workers e cs)

  new_worker-Driven :
      (e : PulseEngine F) (c : ℕ)
      → IsServed e.cpu_policy_ids e.policy_targets
      → Covered e.cpu_policy_ids c
      → Driven e.cpu_policy_ids e.policy_targets (post F (new_worker F e c))
  unfolding new_worker get_or
  new_worker-Driven e c s (p, own) =
      let (t, target) = s.served c p own in
      (p, rw (own, get_or) refl, own, rw (own, get_or, target) refl)

  pub new_workers-Driven :
      (e : PulseEngine F) (cs : List ℕ)
      → IsServed e.cpu_policy_ids e.policy_targets
      → All (Covered e.cpu_policy_ids) cs
      → All (Driven e.cpu_policy_ids e.policy_targets) (posts F (new_workers F e cs))
  unfolding new_workers
  new_workers-Driven e [] s all = tt
  new_workers-Driven e (c ∷ cs) s all =
      (new_worker-Driven e c s all.0, new_workers-Driven e cs s all.1)

  pub new_workers-Phase :
      (e : PulseEngine F) (cs : List ℕ) → Phase running cs (posts F (new_workers F e cs))
  new_workers-Phase e cs = (cpus-new_workers e cs, holds-new_workers e cs)

  pub cpus-set_paused :
      (b : Bool) (ws : List (PulseWorker F))
      → cpus (posts F (set_paused F b ws)) ≡ cpus (posts F ws)
  cpus-set_paused b [] = refl
  cpus-set_paused b (w ∷ ws) = ap (λ rest. w.cpu_id ∷ rest) (cpus-set_paused b ws)

  pub holds-set_paused :
      (b : Bool) (ws : List (PulseWorker F))
      → All (λ h. h ≡ b) (holds (posts F (set_paused F b ws)))
  holds-set_paused b [] = tt
  holds-set_paused b (w ∷ ws) = (refl, holds-set_paused b ws)

  pub set_paused-Driven :
      (ids : Dict ℕ String) (targets : Dict String ℤ) (b : Bool) (ws : List (PulseWorker F))
      → All (Driven ids targets) (posts F ws)
      → All (Driven ids targets) (posts F (set_paused F b ws))
  set_paused-Driven ids targets b [] all = tt
  set_paused-Driven ids targets b (w ∷ ws) all = (all.0, set_paused-Driven ids targets b ws all.1)

  -- The loop over the workers of covered cores ends without a `KeyError`, and each worker then has the
  -- target of its core's policy.
  pub retarget_workers_lem :
      (ids : Dict ℕ String) (targets : Dict String ℤ) (ws : List (PulseWorker F))
      → IsServed ids targets
      → All (Covered ids) (cpus (posts F ws))
      → (after : List (PulseWorker F)) × (retarget_workers F ids targets ws ≡ ok after)
        × (cpus (posts F after) ≡ cpus (posts F ws))
        × (holds (posts F after) ≡ holds (posts F ws))
        × All (Driven ids targets) (posts F after)
  unfolding retarget_workers get_or
  retarget_workers_lem ids targets [] s all = ([], refl, refl, refl, tt)
  retarget_workers_lem ids targets (w ∷ ws) s ((p, own), all) =
      let (t, target) = s.served w.cpu_id p own in
      let (rest, runs, same_cpus, same_holds, driven) = retarget_workers_lem ids targets ws s all in
      let moved = record w { policy_id = some p; target_freq_khz = t } in
      (
        moved ∷ rest,
        rw (get_or, own, target, runs) refl,
        ap (λ r. w.cpu_id ∷ r) same_cpus,
        ap (λ r. w.is_paused ∷ r) same_holds,
        ((p, refl, own, target), driven),
      )

  pub keys-carry_factors :
      (previous : Dict String Num) (targets : Dict String ℤ)
      → keys (carry_factors F previous targets) ≡ keys targets
  unfolding carry_factors
  keys-carry_factors previous [] = refl
  keys-carry_factors previous ((id, t) ∷ rest) = ap (λ r. id ∷ r) (keys-carry_factors previous rest)
