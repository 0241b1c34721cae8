-- ===== src/Engine/Life/Reach.antt =====
-- A `PulseEngine` of boostlock/engine.py over its whole life, in any order of its calls, the turns of
-- its controller and the policies that each reconfiguration discovers.
use boostlock.Prelude.{ℕ, String, Bool, false, ◌≡◌, refl, Option, List, [], ◌∷◌}
use boostlock.Prelude.Int.{ℤ}
use boostlock.Prelude.Float.{Float}
use boostlock.Prelude.Dict.{Dict, String_eq}
use boostlock.Config.{BoostLockConfig, Target}
use boostlock.Sysfs.Policy.{CpufreqPolicy}
use boostlock.Engine.Duty.{any_nonpositive, new_controller, default_targets}
use boostlock.Engine.Target.{configured_target_khz}
use boostlock.Engine.Policies.{TargetingMode, or_default, resolve_policy_targets}
use boostlock.Engine.Policies.Positive.{resolve_policy_targets-IsServed}
use boostlock.Engine.Controller.{PulseEngine, controller_turn}
use boostlock.Engine.Life.{
  new_engine, start, stop, pause, resume, set_policy_thermal_clamp, reconfigure,
}
use boostlock.Engine.Life.Invariant.{IsEngine}
use boostlock.Engine.Life.Workers.{keys-carry_factors}
use boostlock.Engine.Life.Calls.{
  after, start-IsEngine, stop-IsEngine, pause-IsEngine, resume-IsEngine, controller_turn-IsEngine,
  set_policy_thermal_clamp-IsEngine,
}
use boostlock.Engine.Life.Reconfigure.{resolved-Covered, reconfigure-IsEngine}

module _ (F : Float) where
  open F use {Num, lit}

  -- one call, or one turn of the controller's thread
  pub data Step : PulseEngine F → PulseEngine F → Type 0 where
    starts : (e : PulseEngine F) → Step e (start F e)
    stops : (e : PulseEngine F) → Step e (stop F e)
    pauses : (e : PulseEngine F) → Step e (pause F e)
    resumes : (e : PulseEngine F) → Step e (resume F e)
    clamps :
        (id : String) (factor : Num) (e : PulseEngine F)
        → Step e (after F (set_policy_thermal_clamp F id factor e))
    reconfigures :
        (discovered : List CpufreqPolicy) (config : BoostLockConfig F) (e : PulseEngine F)
        → Step e (after F (reconfigure F discovered config e))
    turns :
        (read_freq : ℕ → Option ℤ) (clamp : Num) (tripped : Bool) (load : Num) (idx : Dict String ℕ)
        (e : PulseEngine F)
        → Step e (controller_turn F read_freq clamp tripped load idx e).1

  pub data Reach (e0 : PulseEngine F) : PulseEngine F → Type 0 where
    here : Reach e0 e0
    next : {e f : PulseEngine F} → Reach e0 e → Step e f → Reach e0 f

  default_targets_same :
      (setting : Target) (configured targets : Dict String ℤ) (t : ℤ)
      → default_targets F t (or_default setting configured targets)
        ≡ or_default setting configured targets
  default_targets_same setting configured [] t = refl
  default_targets_same setting configured (u ∷ us) t = refl

  new_engine-IsEngine :
      (config : BoostLockConfig F) (mode : TargetingMode) (cores : List ℕ)
      (configured : Dict String ℤ) (discovered : List CpufreqPolicy)
      → any_nonpositive configured ≡ false
      → IsEngine F (new_engine F config mode cores configured discovered)
  unfolding new_engine new_controller resolve_policy_targets
  new_engine-IsEngine config mode cores configured discovered h =
      let setting = config.target_frequency_khz in
      let m = resolve_policy_targets setting configured cores discovered in
      record {
        configured = h;
        served = resolve_policy_targets-IsServed setting configured h cores discovered;
        covered = resolved-Covered setting configured cores discovered;
        factors = keys-carry_factors F [] m.policy_targets;
        controlled = default_targets_same setting configured _ (configured_target_khz setting);
        phase = refl;
        driven = tt;
      }

  Step-IsEngine : {e f : PulseEngine F} → Step e f → IsEngine F e → IsEngine F f
  Step-IsEngine (starts e) i = start-IsEngine F e i
  Step-IsEngine (stops e) i = stop-IsEngine F e i
  Step-IsEngine (pauses e) i = pause-IsEngine F e i
  Step-IsEngine (resumes e) i = resume-IsEngine F e i
  Step-IsEngine (clamps id factor e) i = set_policy_thermal_clamp-IsEngine F id factor e i
  Step-IsEngine (reconfigures discovered config e) i =
      let (f, runs, kept, _, _, _) = reconfigure-IsEngine F discovered config e i in rw runs kept
  Step-IsEngine (turns read_freq clamp tripped load idx e) i =
      controller_turn-IsEngine F read_freq clamp tripped load idx e i

  Reach-IsEngine : {e f : PulseEngine F} → IsEngine F e → Reach e f → IsEngine F f
  Reach-IsEngine i here = i
  Reach-IsEngine i (next r s) = Step-IsEngine s (Reach-IsEngine i r)

  -- From its construction, with configured targets above 0, an engine that its calls and turns reach
  -- in any order is stopped without workers, or runs or is paused with one worker for each target core,
  -- all awake or all held. Every target core has a policy with a target above 0, each worker has its
  -- core's policy and target, and the local clamps and the duty controller have just the engine's
  -- policies.
  pub Reach-new_engine :
      (config : BoostLockConfig F) (mode : TargetingMode) (cores : List ℕ)
      (configured : Dict String ℤ) (discovered : List CpufreqPolicy) (e : PulseEngine F)
      → any_nonpositive configured ≡ false
      → Reach (new_engine F config mode cores configured discovered) e
      → IsEngine F e
  Reach-new_engine config mode cores configured discovered e h reach =
      Reach-IsEngine (new_engine-IsEngine config mode cores configured discovered h) reach
