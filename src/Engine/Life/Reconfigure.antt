-- ===== src/Engine/Life/Reconfigure.antt =====
-- `reconfigure` of boostlock/engine.py never raises, and gives every worker its policy's new target.
use boostlock.Prelude.{
  ℕ, String, true, false, ◌≡◌, refl, ap, ◌∙◌, some, List, [], ◌∷◌, All, arith, ok, inl, inr,
  Bool-cases, str_eq,
}
use boostlock.Prelude.Int.{ℤ}
use boostlock.Prelude.Float.{Float}
use boostlock.Prelude.Dict.{Dict, String_eq, ℕ_eq, get, get_or}
use boostlock.Config.{BoostLockConfig, Target}
use boostlock.Sysfs.Policy.{CpufreqPolicy}
use boostlock.Engine.Duty.{
  AdaptiveDutyController, any_nonpositive, set_policy_targets, replace_targets,
}
use boostlock.Engine.Target.{configured_target_khz}
use boostlock.Engine.Policies.{or_default, resolve_policy_targets, own_policy}
use boostlock.Engine.Policies.Owners.{has_core, last_owner, or_value, get-resolve_policy_targets}
use boostlock.Engine.Policies.Positive.{resolve_policy_targets-IsServed}
use boostlock.Engine.Controller.{
  PulseEngine, EngineState, stopped, starting, running, paused, throttled,
}
use boostlock.Engine.Life.{carry_factors, reconfigure}
use boostlock.Engine.Life.Invariant.{Post, cpus, holds, Phase, Covered, posts, IsEngine}
use boostlock.Engine.Life.Workers.{retarget_workers_lem, keys-carry_factors}

All_of_has_core {ℓ} :
    (P : ℕ → Type ℓ) (cs : List ℕ) → ((c : ℕ) → has_core c cs ≡ true → P c) → All P cs
unfolding has_core
All_of_has_core P [] f = tt
All_of_has_core P (c ∷ cs) f =
    (f c (ground arith), All_of_has_core P cs (λ d h. f d (ground (arith, h))))

pub resolved-Covered :
    (setting : Target) (configured : Dict String ℤ) (cores : List ℕ)
    (discovered : List CpufreqPolicy)
    → All
        (Covered (resolve_policy_targets setting configured cores discovered).cpu_policy_ids)
        cores
resolved-Covered setting configured cores discovered = All_of_has_core _ cores λ c h. (
  or_value (last_owner setting configured c discovered) (own_policy c),
  get-resolve_policy_targets setting configured c cores discovered h,
)

Phase-covered :
    (P : ℕ → Type 0) (s : EngineState) (cores : List ℕ) (ws : List Post)
    → Phase s cores ws
    → All P cores
    → All P (cpus ws)
Phase-covered P stopped cores ws phase all = rw phase tt
Phase-covered P running cores ws phase all = rw phase.0 all
Phase-covered P paused cores ws phase all = rw phase.0 all
Phase-covered P starting cores ws phase all = cc phase
Phase-covered P throttled cores ws phase all = cc phase

none_of_cpus : (ws : List Post) → cpus ws ≡ [] → ws ≡ []
none_of_cpus [] h = refl
none_of_cpus (w ∷ ws) h = cc

Phase-same :
    (s : EngineState) (cores : List ℕ) (ws us : List Post)
    → cpus us ≡ cpus ws
    → holds us ≡ holds ws
    → Phase s cores ws
    → Phase s cores us
Phase-same stopped cores ws us c h phase = none_of_cpus us (c ∙ ap cpus phase)
Phase-same running cores ws us c h phase = (c ∙ phase.0, rw h phase.1)
Phase-same paused cores ws us c h phase = (c ∙ phase.0, rw h phase.1)
Phase-same starting cores ws us c h phase = phase
Phase-same throttled cores ws us c h phase = phase

module _ (F : Float) where
  open F use {Num, lit}

  set_policy_targets_lem :
      (targets : Dict String ℤ) (setting : Target) (configured : Dict String ℤ)
      (c : AdaptiveDutyController F)
      → any_nonpositive (or_default setting configured targets) ≡ false
      → (c' : AdaptiveDutyController F) × (set_policy_targets F
            (or_default setting configured targets)
            c
          ≡ ok c')
        × (c'.policy_targets ≡ or_default setting configured targets)
  unfolding set_policy_targets
  set_policy_targets_lem [] setting configured c h =
      let t = configured_target_khz setting in
      (replace_targets F (("default", t) ∷ []) "default" t c, rw (set_policy_targets, h) refl, refl)
  set_policy_targets_lem ((k, t) ∷ rest) setting configured c h =
      (replace_targets F ((k, t) ∷ rest) k t c, rw (set_policy_targets, h) refl, refl)

  -- a policy that stays keeps its local factor
  get-carry_factors :
      (id : String) (factor : Num) (previous : Dict String Num) (targets : Dict String ℤ) (t : ℤ)
      → get id previous ≡ some factor
      → get id targets ≡ some t
      → get id (carry_factors F previous targets) ≡ some factor
  unfolding carry_factors get get_or
  get-carry_factors id factor previous [] t h k = cc
  get-carry_factors id factor previous ((j, u) ∷ targets) t h k = elim (Bool-cases (str_eq j id)) [
    | inl same ↦
        let eq : j ≡ id = (String_eq.beq_iff j id).0 same in
        let h' : get j previous ≡ some factor = rw eq h in
        rw (carry_factors, get, same, get_or, h') refl
    | inr differ ↦
        let later : get id targets ≡ some t = rw (get, differ) at k in
        rw (carry_factors, get, differ) (get-carry_factors id factor previous targets t h later)
  ]

  -- A reconfiguration of an engine between its calls raises nothing, whatever policies are discovered
  -- by then. It keeps the state and what holds of the engine, takes the new configuration, and keeps
  -- the local clamp factor of each policy that is there before and after.
  pub reconfigure-IsEngine :
      (discovered : List CpufreqPolicy) (config : BoostLockConfig F) (e0 : PulseEngine F)
      → IsEngine F e0
      → (e : PulseEngine F) × (reconfigure F discovered config e0 ≡ ok e)
        × IsEngine F e
        × (e.state ≡ e0.state)
        × (e.config ≡ config)
        × ((id : String) (factor : Num) (t : ℤ)
            → get id e0.policy_clamp_factors ≡ some factor
            → get id e.policy_targets ≡ some t
            → get id e.policy_clamp_factors ≡ some factor)
  unfolding reconfigure resolve_policy_targets
  reconfigure-IsEngine discovered config e0 i =
      let setting = config.target_frequency_khz in
      let configured = e0.configured_policy_targets in
      let m = resolve_policy_targets setting configured e0.target_cores discovered in
      let served =
        resolve_policy_targets-IsServed setting configured i.configured e0.target_cores
          discovered in
      let covered = resolved-Covered setting configured e0.target_cores discovered in
      let (c, sets, targets) =
        set_policy_targets_lem _ setting configured e0.duty_controller served.above_zero in
      let (ws, runs, same_cpus, same_holds, driven) =
        retarget_workers_lem F m.cpu_policy_ids m.policy_targets e0.workers served (
          Phase-covered (Covered m.cpu_policy_ids) e0.state e0.target_cores (posts F e0.workers)
            i.phase covered) in
      let e : PulseEngine F = record e0 {
        config = config;
        workers = ws;
        policy_members = m.policy_members;
        policy_drivers = m.policy_drivers;
        policy_records = m.policy_records;
        cpu_policy_ids = m.cpu_policy_ids;
        policy_targets = m.policy_targets;
        policy_clamp_factors = carry_factors F e0.policy_clamp_factors m.policy_targets;
        duty_controller = record c {
          min_duty_pct = config.min_pulse_duty_pct;
          max_duty_pct = config.max_pulse_duty_pct;
          duty_step_pct = config.duty_step_pct;
        };
      } in
      let made : IsEngine F e = record {
        configured = i.configured;
        served = served;
        covered = covered;
        factors = keys-carry_factors F e0.policy_clamp_factors m.policy_targets;
        controlled = targets;
        phase =
            Phase-same e0.state e0.target_cores (posts F e0.workers) (posts F ws) same_cpus
              same_holds i.phase;
        driven = driven;
      } in
      (
        e,
        rw (reconfigure, sets, runs) refl,
        made,
        refl,
        refl,
        λ id factor t. get-carry_factors id factor e0.policy_clamp_factors m.policy_targets t,
      )
