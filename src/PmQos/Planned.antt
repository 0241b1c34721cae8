-- ===== src/PmQos/Planned.antt =====
-- The route of boostlock/pm_qos.py that a transaction of the daemon takes.
use boostlock.Prelude.{
  String, Bool, true, Option, none, some, List, [], ◌∷◌, Result, ok, ◌>>=◌, if◌then◌else◌,
}
use boostlock.Prelude.Int.{ℤ}
use boostlock.Prelude.Dict.{Dict}
use boostlock.PmQos.{NodeError, StateEntry, Os, PmQosController, eligible}

-- the device, the cpuidle files, or neither
pub data PlannedRoute : Type 0 where
  device no_route : PlannedRoute
  cpuidle : List String → PlannedRoute

-- a file that can be read is one of the paths
abbrev with_path : String → Option String → List String → List String
with_path path none paths = paths
with_path path (some _) paths = path ∷ paths

abbrev route_over : List String → PlannedRoute
route_over [] = no_route
route_over paths = cpuidle paths

-- `resolve` is `Path.resolve`, and `device_exists` the test of the device path
module _ {S : Type 0} (os : Os S) (resolve : String → String) (device_exists : S → Bool) where
  -- the loops over the CPUs and their states
  unfoldable pub eligible_paths : ℤ → List StateEntry → S → Result NodeError (List String)
  unfolding eligible
  eligible_paths lowest [] s = ok []
  eligible_paths lowest (e ∷ entries) s =
      let rest = eligible_paths lowest entries s in
      if eligible lowest e.state_idx
      then (os.read_file e.disable_path s >>= λ value.
          rest >>= λ paths. ok (with_path (resolve e.disable_path) value paths))
      else rest

  unfoldable pub discover_fallback_paths : PmQosController → S → Result NodeError (List String)
  unfolding eligible_paths
  discover_fallback_paths c s =
      if c.enable_sysfs_fallback
      then (os.state_entries s >>= λ entries. eligible_paths c.min_fallback_state_index entries s)
      else ok []

  unfoldable pub select_planned_route : PmQosController → S → Result NodeError PlannedRoute
  unfolding discover_fallback_paths
  select_planned_route c s =
      if device_exists s
      then ok device
      else (discover_fallback_paths c s >>= λ paths. ok (route_over paths))

-- the keys of `saved_states` are below the sysfs root
unfoldable pub activate_planned_fallback : Dict String String → PmQosController → PmQosController
activate_planned_fallback saved_states c = record c {
  fallback_saved_states = saved_states;
  is_locked = true;
  using_fallback = true;
}
