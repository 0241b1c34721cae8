-- ===== src/Sysfs/Execute/Steps.antt =====
-- One step of the transaction, by what the write or the check returns.
use boostlock.Prelude.{String, ◌≡◌, refl, List, [], ◌∷◌, ok, err}
use boostlock.Sysfs.Policy.{PolicyApplyAction, PolicyApplyPlan}
use boostlock.Sysfs.Execute.{
  WriteCheck, ApplyError, Writer, preflight, apply_actions, execute_policy_apply_plan, give_up,
}

module _ {X S : Type 0} (write : Writer X S) where
  pub apply_ok :
      (done rest : List PolicyApplyAction) (a : PolicyApplyAction) (s : S)
      → (write a.path a.value s).0 ≡ ok tt
      → apply_actions write done (a ∷ rest) s
        ≡ apply_actions write (a ∷ done) rest (write a.path a.value s).1
  unfolding apply_actions
  apply_ok done rest a s e = rw (e, apply_actions)

  pub apply_err :
      (done rest : List PolicyApplyAction) (a : PolicyApplyAction) (s : S) (x : X)
      → (write a.path a.value s).0 ≡ err x
      → apply_actions write done (a ∷ rest) s ≡ give_up write a done x (write a.path a.value s).1
  unfolding apply_actions
  apply_err done rest a s x e = rw (e, apply_actions)

  pub apply_nil :
      (done : List PolicyApplyAction) (s : S) → apply_actions write done [] s ≡ (ok tt, s)
  unfolding apply_actions
  apply_nil done s = refl

  pub execute_checked :
      (check : String → WriteCheck) (plan : PolicyApplyPlan) (s : S)
      → preflight {X = X} check plan.preflight_paths ≡ ok tt
      → execute_policy_apply_plan write check plan s ≡ apply_actions write [] plan.actions s
  unfolding execute_policy_apply_plan
  execute_checked check plan s e = rw (e, execute_policy_apply_plan)

  pub execute_refused :
      (check : String → WriteCheck) (plan : PolicyApplyPlan) (s : S) (x : ApplyError X)
      → preflight {X = X} check plan.preflight_paths ≡ err x
      → execute_policy_apply_plan write check plan s ≡ (err x, s)
  unfolding execute_policy_apply_plan
  execute_refused check plan s x e = rw (e, execute_policy_apply_plan)
