-- ===== src/Daemon/Transaction/Routes.antt =====
-- What a policy transaction leaves of the latency lock, by its route.
use boostlock.Prelude.{
  String, Bool, true, false, List, [], ◌∷◌, ◌++◌, Result, ok, err, Result-cases, inl, inr,
  ok_of_bind, ok_injective, ◌≡◌, refl, sym,
}
use boostlock.Prelude.Int.{ℤ}
use boostlock.Prelude.Dict.{Dict}
use boostlock.Sysfs.Policy.{PolicyApplyAction, PolicyApplyPlan}
use boostlock.Sysfs.Execute.{ApplyError, execute_policy_apply_plan}
use boostlock.Sysfs.Execute.Views.{
  Ended, apply_actions-Ended, apply_actions_kept-Ended, execute_policy_apply_plan-Ended,
}
use boostlock.PmQos.{Os, PmQosController}
use boostlock.PmQos.Planned.{
  PlannedRoute, device, no_route, cpuidle, select_planned_route, activate_planned_fallback,
}
use boostlock.Daemon.Transaction.{
  WriteError, TransactionError, Files, Prepared, device_action, fallback_actions, route_actions,
  cpuidle_route, prepare, transaction_opener, transaction_writer, with_route, settle, transact,
  apply_startup_policy_transaction,
}
use boostlock.Daemon.Transaction.Holding.{
  St, IsUnlocked, Kept, OffDevice, no_route-Kept, cpuidle-Kept, all_Kept, OffDevice-Kept,
  device_action-IsSettled,
}

-- whether a transaction by the route takes the lock
abbrev pub takes_lock : PlannedRoute → Bool
takes_lock device = true
takes_lock (cpuidle _) = true
takes_lock no_route = false

module _ {X S : Type 0} (os : Os S) (files : Files X S) (latency_us : ℤ) where
  open files use {device_path, resolve}

  -- the device route has the one action on the device
  abbrev Routed : PlannedRoute → List PolicyApplyAction → Type 0
  Routed device actions = actions ≡ device_action os files latency_us ∷ []
  Routed _ actions = Unit

  cpuidle_route-Routed :
      (paths : List String) (snapshots : Dict String String) (more : List PolicyApplyAction)
      → Routed (cpuidle_route paths snapshots) more
  cpuidle_route-Routed paths [] more = tt
  cpuidle_route-Routed paths (a ∷ rest) more = tt

  route_actions-Routed :
      (s : S) (route : PlannedRoute) (p : Prepared)
      → route_actions os files latency_us s route ≡ ok p
      → Routed p.route p.actions
  unfolding route_actions
  route_actions-Routed s device p h = rw (sym (ok_injective _ p h)) refl
  route_actions-Routed s no_route p h = rw (sym (ok_injective _ p h)) tt
  route_actions-Routed s (cpuidle paths) p h =
      let (prepared, _, h1) = ok_of_bind (fallback_actions os files paths ([], []) s) _ p h in
      rw (sym (ok_injective _ p h1)) (cpuidle_route-Routed paths prepared.0 prepared.1)

  prepare-Routed :
      (c : PmQosController) (s : S) (p : Prepared)
      → prepare os files latency_us c s ≡ ok p
      → Routed p.route p.actions
  unfolding prepare
  prepare-Routed c s p h =
      let (route, _, h1) =
        ok_of_bind (select_planned_route os resolve files.device_exists c s) _ p h in
      route_actions-Routed s route p h1

  abbrev AfterRoute {ℓ} : {E : Type ℓ} → Bool → Result E (Unit {0}) × St os files → Type 0
  AfterRoute locked (ok _, after) = after.0.is_locked ≡ locked
  AfterRoute locked (err _, after) = after.0.is_locked ≡ false

  abbrev Executed : Type 0
  Executed = Result (ApplyError (WriteError X)) (Unit {0}) × St os files

  -- the execution of the plan with the route's actions
  abbrev executed : Prepared → PolicyApplyPlan → St os files → Executed
  executed p plan after =
      execute_policy_apply_plan (transaction_writer os files p.route p.fallback_snapshots)
        (transaction_opener os files p.route) (with_route os files p plan) after

  abbrev Conditions : PolicyApplyPlan → Type 0
  Conditions plan = (resolve device_path ≡ device_path) × OffDevice os files plan.actions

  -- the controller of a state, holding the lock or not
  abbrev IsTaken : PmQosController → Type 0
  IsTaken c = c.is_locked ≡ true

  abbrev IsFree : PmQosController → Type 0
  IsFree c = c.is_locked ≡ false

  abbrev controller : St os files → PmQosController
  controller after = after.0

  device-AfterRoute :
      (snapshots : Dict String String) (plan : PolicyApplyPlan) (after : St os files)
      → Conditions plan
      → IsUnlocked os files after
      → Ended (transaction_writer os files device snapshots) controller IsTaken IsFree (
          executed
            (record {
              route = device;
              fallback_snapshots = snapshots;
              actions = device_action os files latency_us ∷ [];
            })
            plan
            after)
  device-AfterRoute snapshots plan after (resolved, off) h =
      let write = transaction_writer os files device snapshots in
      let p : Prepared = record {
        route = device;
        fallback_snapshots = snapshots;
        actions = device_action os files latency_us ∷ [];
      } in
      execute_policy_apply_plan-Ended write controller IsTaken IsFree
        (transaction_opener os files device) (with_route os files p plan) after
        (apply_actions-Ended write controller IsTaken IsFree (device_action os files latency_us) []
          plan.actions after tt (OffDevice-Kept os files snapshots plan.actions off) h
          (λ s' h'. device_action-IsSettled os files latency_us snapshots s' resolved h'))
        h

  -- a route without the device leaves the controller to the end
  Kept-AfterRoute :
      (p : Prepared) (plan : PolicyApplyPlan) (after : St os files)
      → ((a : PolicyApplyAction) → Kept os files p.route p.fallback_snapshots a)
      → IsUnlocked os files after
      → Ended
          (transaction_writer os files p.route p.fallback_snapshots)
          controller
          IsFree
          IsFree
          (executed p plan after)
  Kept-AfterRoute p plan after kept h =
      let write = transaction_writer os files p.route p.fallback_snapshots in
      let actions = plan.actions ++ p.actions in
      execute_policy_apply_plan-Ended write controller IsFree IsFree
        (transaction_opener os files p.route) (with_route os files p plan) after
        (apply_actions_kept-Ended write controller IsFree IsFree actions after
          (all_Kept os files p.route p.fallback_snapshots kept actions) h h)
        h

  settle_device :
      (snapshots : Dict String String) (actions : List PolicyApplyAction) (o : Executed)
      → AfterRoute true o
      → AfterRoute true (
          settle os files
            (record { route = device; fallback_snapshots = snapshots; actions = actions })
            o)
  settle_device snapshots actions (ok _, (c, s)) h = h
  settle_device snapshots actions (err e, (c, s)) h = h

  settle_cpuidle :
      (paths : List String) (snapshots : Dict String String) (actions : List PolicyApplyAction)
      (o : Executed)
      → AfterRoute false o
      → AfterRoute true (
          settle os files
            (record { route = cpuidle paths; fallback_snapshots = snapshots; actions = actions })
            o)
  unfolding activate_planned_fallback
  settle_cpuidle paths snapshots actions (ok _, (c, s)) h = refl
  settle_cpuidle paths snapshots actions (err e, (c, s)) h = h

  settle_no_route :
      (snapshots : Dict String String) (actions : List PolicyApplyAction) (o : Executed)
      → AfterRoute false o
      → AfterRoute false (
          settle os files
            (record { route = no_route; fallback_snapshots = snapshots; actions = actions })
            o)
  settle_no_route snapshots actions (ok _, (c, s)) h = h
  settle_no_route snapshots actions (err e, (c, s)) h = h

  transact-AfterRoute :
      (route : PlannedRoute) (snapshots : Dict String String) (actions : List PolicyApplyAction)
      (plan : PolicyApplyPlan) (after : St os files)
      → Routed route actions
      → Conditions plan
      → IsUnlocked os files after
      → AfterRoute (takes_lock route) (
          transact os files
            (ok (record { route = route; fallback_snapshots = snapshots; actions = actions }))
            plan
            after)
  transact-AfterRoute device snapshots actions plan after e conditions h = rw e (
      settle_device snapshots (device_action os files latency_us ∷ []) _
        (device-AfterRoute snapshots plan after conditions h))
  transact-AfterRoute (cpuidle paths) snapshots actions plan after e conditions h =
      settle_cpuidle paths snapshots actions _ (
        Kept-AfterRoute
          (record { route = cpuidle paths; fallback_snapshots = snapshots; actions = actions }) plan
          after (cpuidle-Kept os files paths snapshots) h)
  transact-AfterRoute no_route snapshots actions plan after e conditions h =
      settle_no_route snapshots actions _ (
        Kept-AfterRoute
          (record { route = no_route; fallback_snapshots = snapshots; actions = actions }) plan
          after (no_route-Kept os files snapshots) h)

  -- the lock after a transaction of a controller that did not hold it
  abbrev pub Taken :
      PmQosController → S → Result (TransactionError X) (Unit {0}) × St os files → Type 0
  Taken c s (ok _, after) =
      (p : Prepared) × (prepare os files latency_us c s ≡ ok p)
      × (after.0.is_locked ≡ takes_lock p.route)
  Taken c s (err _, after) = after.0.is_locked ≡ false

  taken :
      (p : Prepared) (c : PmQosController) (s : S)
      (o : Result (TransactionError X) (Unit {0}) × St os files)
      → prepare os files latency_us c s ≡ ok p
      → AfterRoute (takes_lock p.route) o
      → Taken c s o
  taken p c s (ok _, after) e h = (p, e, h)
  taken p c s (err x, after) e h = h

  -- Where no action of the plan is on the device, and the controller does not hold the lock: a
  -- transaction that raises, whichever write, check or read has failed, leaves it without the lock;
  -- one that returns leaves it with the lock exactly where its route is the device or the cpuidle
  -- files.
  pub apply_startup_policy_transaction-Taken :
      (plan : PolicyApplyPlan) (c : PmQosController) (s : S)
      → resolve device_path ≡ device_path
      → OffDevice os files plan.actions
      → c.is_locked ≡ false
      → Taken c s (apply_startup_policy_transaction os files latency_us plan c s)
  unfolding apply_startup_policy_transaction
  apply_startup_policy_transaction-Taken plan c s resolved off h =
      elim (Result-cases (prepare os files latency_us c s)) [
        | inl (p, e) ↦
            taken p c s (transact os files (prepare os files latency_us c s) plan (c, s)) e (
              rw e (
                transact-AfterRoute p.route p.fallback_snapshots p.actions plan (c, s)
                  (prepare-Routed c s p e) (resolved, off) h))
        | inr (x, e) ↦ rw (e, apply_startup_policy_transaction) h
      ]
