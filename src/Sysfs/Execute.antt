-- ===== src/Sysfs/Execute.antt =====
-- `preflight_policy_apply_plan` and `execute_policy_apply_plan` of boostlock/sysfs.py: check every
-- path, write in order, and on a failure write the original values back in reverse.
--
-- The open check and the writer are the caller's (boostlock/daemon.py passes its own), so they are
-- arguments: `S` is whatever state the writes act on, and `X` the exceptions that they raise.
mod Steps
pub mod Atomic
pub mod Message
pub mod Views
use boostlock.Prelude.{String, List, [], ◌∷◌, Result, ok, err}
use boostlock.Sysfs.Policy.{Control, PolicyApplyAction, PolicyApplyPlan}

-- What opening a path for writing and closing it again does.
pub data WriteCheck : Type 0 where
  opens open_fails close_fails : WriteCheck

-- `apply_failed` has the action that the message names, the failure, and the rollback's failures.
pub data ApplyError (X : Type 0) : Type 0 where
  cannot_open cannot_close : String → ApplyError X
  apply_failed : PolicyApplyAction → X → List (String × X) → ApplyError X

abbrev pub Writer : Type 0 → Type 0 → Type 0
Writer X S = String → String → S → Result X (Unit {0}) × S

unfoldable pub preflight :
    {X : Type 0} → (String → WriteCheck) → List String → Result (ApplyError X) (Unit {0})
preflight check [] = ok tt
preflight check (p ∷ ps) =
    let rest = preflight check ps in
    elim (check p) [
      | opens ↦ rest
      | open_fails ↦ err (cannot_open p)
      | close_fails ↦ err (cannot_close p)
    ]

module _ {X S : Type 0} (write : Writer X S) where
  abbrev failure : String → Result X (Unit {0}) → List (String × X) → List (String × X)
  failure path (ok _) errors = errors
  failure path (err x) errors = (path, x) ∷ errors

  -- the loop over `reversed(completed)`; the list given is already reversed
  unfoldable pub rollback : List PolicyApplyAction → S → List (String × X) × S
  rollback [] s = ([], s)
  rollback (a ∷ rest) s =
      let (r, s') = write a.path a.original_value s in
      let (errors, s'') = rollback rest s' in (failure a.path r errors, s'')

  -- The rollback loop of the source reuses the name `action`, so after it the message is about the
  -- last action rolled back, or about the failing one where none was completed.
  unfoldable pub named_action : PolicyApplyAction → List PolicyApplyAction → PolicyApplyAction
  named_action a [] = a
  named_action a (b ∷ rest) = named_action b rest

  abbrev pub give_up :
      PolicyApplyAction → List PolicyApplyAction → X → S → Result (ApplyError X) (Unit {0}) × S
  give_up a completed x s =
      let (errors, s') = rollback completed s in
      (err (apply_failed (named_action a completed) x errors), s')

  -- the loop over `plan.actions`, with the completed actions in reverse order
  unfoldable pub apply_actions :
      List PolicyApplyAction → List PolicyApplyAction → S → Result (ApplyError X) (Unit {0}) × S
  unfolding rollback named_action
  apply_actions completed [] s = (ok tt, s)
  apply_actions completed (a ∷ rest) s =
      let (r, s') = write a.path a.value s in
      elim r [ ok _ ↦ apply_actions (a ∷ completed) rest s' | err x ↦ give_up a completed x s' ]

  unfoldable pub execute_policy_apply_plan :
      (String → WriteCheck) → PolicyApplyPlan → S → Result (ApplyError X) (Unit {0}) × S
  unfolding preflight apply_actions
  execute_policy_apply_plan check plan s = elim (preflight {X = X} check plan.preflight_paths) [
    | ok _ ↦ apply_actions [] plan.actions s
    | err e ↦ (err e, s)
  ]
