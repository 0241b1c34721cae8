-- ===== src/Examples/Lives.antt =====
-- An engine of boostlock/engine.py over two cores, of which only the first has a discovered policy.
use boostlock.Prelude.{ℕ, String, true, false, ◌≡◌, refl, List, [], ◌∷◌, none, some, ok}
use boostlock.Prelude.Fixed.{fixed}
use boostlock.Prelude.Int.{ℤ, pos}
use boostlock.Prelude.Dict.{String_eq, ℕ_eq, get}
use boostlock.Config.{BoostLockConfig, default}
use boostlock.Sysfs.Policy.{unavailable, CpufreqPolicy}
use boostlock.Engine.Policies.{all_cores, resolve_policy_targets, own_policy}
use boostlock.Engine.Policies.Owners.{has_core, last_owner, or_value}
use boostlock.Engine.Policies.Positive.{IsPositive, resolve_policy_targets-own}
use boostlock.Engine.Controller.{PulseEngine}
use boostlock.Engine.Life.{new_engine, start, pause, reconfigure}
use boostlock.Engine.Life.Invariant.{IsEngine}
use boostlock.Engine.Life.Reconfigure.{reconfigure-IsEngine}
use boostlock.Engine.Life.Reach.{here, next, starts, pauses, reconfigures, Reach-new_engine}
use boostlock.Engine.Life.Calls.{after}

abbrev policy : CpufreqPolicy
policy = record {
  identifier = "policy0";
  path = "/sys/devices/system/cpu/cpufreq/policy0";
  cpus = pos 0 ∷ pos 4 ∷ [];
  driver = some "acpi-cpufreq";
  governor = some "powersave";
  available_governors = "performance" ∷ "powersave" ∷ [];
  current_freq_khz = none;
  active_min_khz = some (pos 400000);
  active_max_khz = some (pos 3000000);
  hardware_min_khz = some (pos 400000);
  hardware_max_khz = some (pos 3600000);
  controls = λ control. none;
  capabilities = λ control. unavailable;
  writable_paths = λ control. none;
  skipped_controls = [];
  usable = false;
}

abbrev cores : List ℕ
cores = 0 ∷ 1 ∷ []

abbrev config : BoostLockConfig fixed
config = default fixed

abbrev built : PulseEngine fixed
built = new_engine fixed config all_cores cores [] (policy ∷ [])

first_core : has_core 0 cores ≡ true
unfolding has_core
first_core = refl

resolve_policy_targets-own_example :
    (t : ℤ) × (get 0
        (resolve_policy_targets config.target_frequency_khz [] cores (policy ∷ [])).cpu_policy_ids
      ≡ some (or_value (last_owner config.target_frequency_khz [] 0 (policy ∷ [])) (own_policy 0)))
    × (get
          (or_value (last_owner config.target_frequency_khz [] 0 (policy ∷ [])) (own_policy 0))
          (resolve_policy_targets config.target_frequency_khz [] cores (policy ∷ [])).policy_targets
        ≡ some t)
    × IsPositive t
resolve_policy_targets-own_example =
    resolve_policy_targets-own config.target_frequency_khz [] refl cores (policy ∷ []) 0 first_core

abbrev held : PulseEngine fixed
held = pause fixed (start fixed built)

Reach-new_engine_example : IsEngine fixed (after fixed (reconfigure fixed [] config held))
Reach-new_engine_example =
    Reach-new_engine fixed config all_cores cores [] (policy ∷ [])
      (after fixed (reconfigure fixed [] config held)) refl
      (next (next (next here (starts built)) (pauses (start fixed built)))
        (reconfigures [] config held))

held-IsEngine : IsEngine fixed held
held-IsEngine =
    Reach-new_engine fixed config all_cores cores [] (policy ∷ []) held refl
      (next (next here (starts built)) (pauses (start fixed built)))

reconfigure-IsEngine_example :
    (e : PulseEngine fixed) × (reconfigure fixed [] config held ≡ ok e)
    × IsEngine fixed e
    × (e.state ≡ held.state)
    × (e.config ≡ config)
    × ((id : String) (factor : fixed.Num) (t : ℤ)
        → get id held.policy_clamp_factors ≡ some factor
        → get id e.policy_targets ≡ some t
        → get id e.policy_clamp_factors ≡ some factor)
reconfigure-IsEngine_example = reconfigure-IsEngine fixed [] config held held-IsEngine
