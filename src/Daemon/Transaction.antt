-- ===== src/Daemon/Transaction.antt =====
-- The policy transaction of boostlock/daemon.py: the cpufreq plan and one PM QoS route, applied as one.
-- The reason for a missing route, which the status reports, is left out.
pub mod Holding
pub mod Routes
use boostlock.Prelude.{
  String, Bool, true, false, Option, none, some, List, [], ◌∷◌, ◌++◌, map, Result, ok, err, ◌>>=◌,
  str_eq, if◌then◌else◌,
}
use boostlock.Prelude.Int.{ℤ}
use boostlock.Prelude.Decimal.{str_ℤ}
use boostlock.Prelude.Dict.{Dict, String_eq, set}
use boostlock.Sysfs.Policy.{Control, PolicyApplyAction, PolicyApplyPlan}
use boostlock.Sysfs.Plan.{elem}
use boostlock.Sysfs.Execute.{WriteCheck, ApplyError, Writer, execute_policy_apply_plan}
use boostlock.PmQos
use boostlock.PmQos.{OsError, NodeError, PmQosError, Os, PmQosController}
use boostlock.PmQos.Planned.{
  PlannedRoute, device, no_route, cpuidle, select_planned_route, activate_planned_fallback,
}

-- what a write raises: the PM QoS lock, `int` on its value, the release after either, the strict
-- release, or the file
pub data WriteError (X : Type 0) : Type 0 where
  lock_failed : Option PmQosError → WriteError X
  rollback_failed : Option PmQosError → OsError → WriteError X
  release_failed : OsError → WriteError X
  write_failed : X → WriteError X

-- what a transaction raises
pub data TransactionError (X : Type 0) : Type 0 where
  route_failed : NodeError → TransactionError X
  apply_failed : ApplyError (WriteError X) → TransactionError X

-- The files that a transaction writes and opens: `_write_absolute_path`, `_write_file` below the
-- root, the open checks of a file and of the device, the device's path, `Path.resolve` and `int`.
pub record Files (X S : Type 0) : Type 0 where
  pub write_absolute : String → String → S → Result X (Unit {0}) × S
  pub write_file : String → String → S → Result X (Unit {0}) × S
  pub open_path : String → WriteCheck
  pub open_device : WriteCheck
  pub device_exists : S → Bool
  pub device_path : String
  pub resolve : String → String
  pub int : String → Option ℤ

-- the route with the values that the cpuidle files had, and the actions that it adds to the plan
pub record Prepared : Type 0 where
  pub route : PlannedRoute
  pub fallback_snapshots : Dict String String
  pub actions : List PolicyApplyAction

abbrev pub fallback_action : String → String → PolicyApplyAction
fallback_action path original = record {
  policy_id = "pm_qos";
  control = Control.cpuidle;
  path = path;
  value = "1";
  original_value = original;
}

-- without a snapshot there is no route
abbrev pub cpuidle_route : List String → Dict String String → PlannedRoute
cpuidle_route paths [] = no_route
cpuidle_route paths _ = cpuidle paths

module _ {X S : Type 0} (os : Os S) (files : Files X S) where
  open files use {device_path, resolve, int}

  abbrev pub State : Type 0
  State = PmQosController × S

  abbrev pub device_action : ℤ → PolicyApplyAction
  device_action latency_us = record {
    policy_id = "pm_qos";
    control = Control.device;
    path = device_path;
    value = str_ℤ latency_us;
    original_value = "release";
  }

  abbrev snapshot_fallback :
      String
      → Option String
      → Dict String String × List PolicyApplyAction
      → Dict String String × List PolicyApplyAction
  snapshot_fallback path none prepared = prepared
  snapshot_fallback path (some original) (snapshots, actions) =
      (set path original snapshots, actions ++ fallback_action path original ∷ [])

  -- the loop over the route's paths
  unfoldable pub fallback_actions :
      List String
      → Dict String String × List PolicyApplyAction
      → S
      → Result NodeError (Dict String String × List PolicyApplyAction)
  fallback_actions [] prepared s = ok prepared
  fallback_actions (path ∷ paths) prepared s = os.read_file path s >>= λ original.
      fallback_actions paths (snapshot_fallback (resolve path) original prepared) s

  unfoldable pub route_actions : ℤ → S → PlannedRoute → Result NodeError Prepared
  unfolding fallback_actions
  route_actions latency_us s device =
      ok (record {
        route = device;
        fallback_snapshots = [];
        actions = device_action latency_us ∷ [];
      })
  route_actions latency_us s no_route =
      ok (record { route = no_route; fallback_snapshots = []; actions = [] })
  route_actions latency_us s (cpuidle paths) = fallback_actions paths ([], []) s >>= λ prepared.
      ok (record {
        route = cpuidle_route paths prepared.0;
        fallback_snapshots = prepared.0;
        actions = prepared.1;
      })

  unfoldable pub prepare : ℤ → PmQosController → S → Result NodeError Prepared
  unfolding route_actions
  prepare latency_us c s =
      select_planned_route os resolve files.device_exists c s >>= route_actions latency_us s

  -- `_unique_plan_paths`
  unfoldable pub unique_plan_paths : List String → List String → List String
  unfolding elem
  unique_plan_paths [] seen = []
  unique_plan_paths (path ∷ paths) seen =
      let known = elem (resolve path) seen in
      let rest = unique_plan_paths paths (if known then seen else resolve path ∷ seen) in
      if known then rest else resolve path ∷ rest

  -- `_transaction_opener`
  unfoldable pub transaction_opener : PlannedRoute → String → WriteCheck
  transaction_opener device path =
      if str_eq (resolve path) device_path then files.open_device else files.open_path path
  transaction_opener _ path = files.open_path path

  abbrev pub released :
      Option PmQosError → Result OsError (Unit {0}) → Result (WriteError X) (Unit {0})
  released e (ok _) = err (lock_failed e)
  released e (err x) = err (rollback_failed e x)

  -- a lock that fails is released strictly
  abbrev pub give_back : Option PmQosError → State → Result (WriteError X) (Unit {0}) × State
  give_back e (c, s) = let (r, after) = PmQos.release os true c s in (released e r, after)

  abbrev pub lock_or_release : PmQos.Outcome Bool S → Result (WriteError X) (Unit {0}) × State
  lock_or_release (ok _, after) = (ok tt, after)
  lock_or_release (err e, after) = give_back (some e) after

  abbrev pub lock_at : Option ℤ → State → Result (WriteError X) (Unit {0}) × State
  lock_at none after = give_back none after
  lock_at (some latency_us) (c, s) = lock_or_release (PmQos.lock os (some latency_us) false c s)

  abbrev strictly : Result OsError (Unit {0}) → Result (WriteError X) (Unit {0})
  strictly (ok _) = ok tt
  strictly (err x) = err (release_failed x)

  unfoldable pub write_device : String → State → Result (WriteError X) (Unit {0}) × State
  write_device value (c, s) =
      if str_eq value "release"
      then (let (r, after) = PmQos.release os true c s in (strictly r, after))
      else lock_at (int value) (c, s)

  abbrev wrapped : Result X (Unit {0}) → Result (WriteError X) (Unit {0})
  wrapped (ok _) = ok tt
  wrapped (err x) = err (write_failed x)

  abbrev pub write_node :
      (S → Result X (Unit {0}) × S) → State → Result (WriteError X) (Unit {0}) × State
  write_node write (c, s) = let (r, s') = write s in (wrapped r, (c, s'))

  -- `_transaction_writer`
  unfoldable pub transaction_writer :
      PlannedRoute → Dict String String → Writer (WriteError X) State
  unfolding write_device
  transaction_writer device snapshots path value after =
      if str_eq (resolve path) device_path
      then write_device value after
      else write_node (files.write_absolute (resolve path) value) after
  transaction_writer (cpuidle _) snapshots path value after =
      if elem (resolve path) (map (λ entry. entry.0) snapshots)
      then write_node (files.write_file (resolve path) value) after
      else write_node (files.write_absolute (resolve path) value) after
  transaction_writer no_route snapshots path value after =
      write_node (files.write_absolute (resolve path) value) after

  -- the plan with the actions of the route
  abbrev pub with_route : Prepared → PolicyApplyPlan → PolicyApplyPlan
  with_route prepared plan =
      let actions = plan.actions ++ prepared.actions in
      record plan {
        actions = actions;
        preflight_paths = unique_plan_paths (map (λ a. a.path) actions) [];
      }

  abbrev pub activated : PlannedRoute → Dict String String → PmQosController → PmQosController
  activated (cpuidle _) snapshots c = activate_planned_fallback snapshots c
  activated _ snapshots c = c

  abbrev pub settle :
      Prepared
      → Result (ApplyError (WriteError X)) (Unit {0}) × State
      → Result (TransactionError X) (Unit {0}) × State
  settle prepared (ok _, (c, s)) =
      (ok tt, (activated prepared.route prepared.fallback_snapshots c, s))
  settle prepared (err e, after) = (err (apply_failed e), after)

  abbrev pub transact :
      Result NodeError Prepared
      → PolicyApplyPlan
      → State
      → Result (TransactionError X) (Unit {0}) × State
  transact (err e) plan after = (err (route_failed e), after)
  transact (ok prepared) plan after = settle prepared (
      execute_policy_apply_plan (transaction_writer prepared.route prepared.fallback_snapshots)
        (transaction_opener prepared.route) (with_route prepared plan) after)

  unfoldable pub apply_startup_policy_transaction :
      ℤ → PolicyApplyPlan → PmQosController → S → Result (TransactionError X) (Unit {0}) × State
  unfolding prepare transaction_writer transaction_opener unique_plan_paths
  apply_startup_policy_transaction latency_us plan c s =
      transact (prepare latency_us c s) plan (c, s)
