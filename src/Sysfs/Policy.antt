-- ===== src/Sysfs/Policy.antt =====
-- The data of boostlock/sysfs.py: capabilities, policies, planned actions and errors.
use boostlock.Prelude.{String, Bool, Option, List}
use boostlock.Prelude.Int.{ℤ}
use boostlock.Prelude.Dict.{Dict}

pub data CapabilityState : Type 0 where
  available unavailable unusable : CapabilityState

-- The names of the controls that are written. `device` and `cpuidle` are those of PM QoS actions.
pub data Control : Type 0 where
  governor active_min_frequency active_max_frequency boost cpb : Control
  energy_performance_preference energy_perf_bias device cpuidle : Control

pub record CpufreqPolicy : Type 0 where
  pub identifier : String
  pub path : String
  pub cpus : List ℤ
  pub driver : Option String
  pub governor : Option String
  pub available_governors : List String
  pub current_freq_khz : Option ℤ
  pub active_min_khz : Option ℤ
  pub active_max_khz : Option ℤ
  pub hardware_min_khz : Option ℤ
  pub hardware_max_khz : Option ℤ
  -- the values of boost, cpb, energy_performance_preference and energy_perf_bias
  pub controls : Control → Option String
  -- those of the nodes that are only read are left out
  pub capabilities : Control → CapabilityState
  pub writable_paths : Control → Option String
  pub skipped_controls : Dict String String
  pub usable : Bool

pub record PolicyApplyAction : Type 0 where
  pub policy_id : String
  pub control : Control
  pub path : String
  pub value : String
  pub original_value : String

pub record PolicyApplyPlan : Type 0 where
  pub actions : List PolicyApplyAction
  pub skipped_controls : Dict String (Dict String String)
  pub preflight_paths : List String

-- What `SysfsError` says, or the `KeyError` of a missing writable path.
pub data PlanError : Type 0 where
  no_usable_policy : PlanError
  no_writable : String → Control → PlanError
  cannot_snapshot permission_denied : String → PlanError
  key_error : Control → PlanError

abbrev pub control_name : Control → String
control_name governor = "governor"
control_name active_min_frequency = "active_min_frequency"
control_name active_max_frequency = "active_max_frequency"
control_name boost = "boost"
control_name cpb = "cpb"
control_name energy_performance_preference = "energy_performance_preference"
control_name energy_perf_bias = "energy_perf_bias"
control_name device = "device"
control_name cpuidle = "cpuidle"
