-- ===== src/Daemon/Subsystems.antt =====
-- What boostlock/daemon.py calls on its subsystems. `S` is the state that they keep between them, and
-- `X` the exceptions that they raise.
use boostlock.Prelude.{Bool, List, Result, ok, err}
use boostlock.Prelude.Float.{Float}
use boostlock.Config.{BoostLockConfig}
use boostlock.Sysfs.Policy.{PolicyApplyAction, PolicyApplyPlan}

-- a method call: what it returns or raises, and the state after it
abbrev pub Call : Type 0 → Type 0 → Type 0
Call X S = S → Result X (Unit {0}) × S

-- one call and then, where it returns, another
infixl 5 ◌then◌
abbrev pub ◌then◌ : {X S : Type 0} → Call X S → Call X S → Call X S
◌then◌ m k s = let (r, s') = m s in elim r [ ok _ ↦ k s' | err x ↦ (err x, s') ]

-- The methods of the subsystems, by their names in the source. `build_plan` is
-- `_build_policy_apply_plan`, `apply_plan` is `_apply_startup_policy_transaction`, and
-- `is_sysfs_error` is the first `except` clause of `start`.
pub record Subsystems (F : Float) (X S : Type 0) : Type 0 where
  pub pid_acquire : Call X S
  pub build_plan : S → Result X PolicyApplyPlan
  pub create_snapshot : List PolicyApplyAction → Call X S
  pub register_signals : S → S
  pub apply_plan : PolicyApplyPlan → Call X S
  pub thermal_start : Call X S
  pub engine_start : Call X S
  pub ipc_start : Call X S
  pub engine_stop : Call X S
  pub thermal_stop : Call X S
  pub pm_qos_unlock : Call X S
  pub state_restore : Call X S
  pub unregister_signals : S → S
  pub ipc_stop : Call X S
  pub pid_release : Call X S
  pub engine_pause : Call X S
  pub engine_resume : Call X S
  pub engine_reconfigure : BoostLockConfig F → Call X S
  pub set_thermal_limits : F.Num → F.Num → F.Num → S → S
  pub read_status : S → Result X (Unit {0})
  pub read_metrics : S → Result X (Unit {0})
  pub resolve_policy_targets : S → Result X (Unit {0})
  pub is_sysfs_error : X → Bool
