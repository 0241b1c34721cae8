-- ===== src/Sysfs/Execute/Message.antt =====
-- Which action a failure's message names.
use boostlock.Prelude.{
  ◌≡◌, ◌∙◌, refl, List, [], ◌∷◌, Result, err, Result-cases, inl, inr, String, arith,
}
use boostlock.Sysfs.Policy.{PolicyApplyAction, PolicyApplyPlan}
use boostlock.Sysfs.Execute.Steps.{apply_ok, apply_err, apply_nil, execute_checked, execute_refused}
use boostlock.Sysfs.Execute.{
  WriteCheck, ApplyError, apply_failed, Writer, preflight, named_action, apply_actions,
  execute_policy_apply_plan,
}

named_eq :
    {X : Type 0} {a b : PolicyApplyAction} {x y : X} {es fs : List (String × X)}
    → ◌≡◌ {A = Result (ApplyError X) (Unit {0})}
        (err (apply_failed a x es))
        (err (apply_failed b y fs))
    → b ≡ a
named_eq h = cc

preflight-ne-apply_failed :
    {X : Type 0} (check : String → WriteCheck) (paths : List String) (a : PolicyApplyAction) (x : X)
    (es : List (String × X))
    → ¬ (preflight {X = X} check paths ≡ err (apply_failed a x es))
unfolding preflight
preflight-ne-apply_failed check [] a x es h = cc
preflight-ne-apply_failed check (p ∷ ps) a x es h =
    ground (arith, preflight-ne-apply_failed check ps a x es)

module _ {X S : Type 0} (write : Writer X S) where
  apply_named :
      (done actions : List PolicyApplyAction) (s : S) (f a : PolicyApplyAction) (x : X)
      (es : List (String × X))
      → ((c : PolicyApplyAction) → named_action write c done ≡ f)
      → (apply_actions write done actions s).0 ≡ err (apply_failed a x es)
      → a ≡ f
  unfolding named_action
  apply_named done [] s f a x es first e = cc (rw (apply_nil write done s) at e)
  apply_named done (b ∷ rest) s f a x es first e =
      let s' = (write b.path b.value s).1 in
      elim (Result-cases (write b.path b.value s).0) [
        | inl (_, fine) ↦
            apply_named (b ∷ done) rest s' f a x es (λ c. first b)
              (rw (apply_ok write done rest b s fine) at e)
        | inr (y, failed) ↦ named_eq (rw (apply_err write done rest b s y failed) at e) ∙ first b
      ]

  apply_named_first :
      (f : PolicyApplyAction) (rest : List PolicyApplyAction) (s : S) (a : PolicyApplyAction)
      (x : X) (es : List (String × X))
      → (apply_actions write [] (f ∷ rest) s).0 ≡ err (apply_failed a x es)
      → a ≡ f
  unfolding named_action
  apply_named_first f rest s a x es e =
      let s' = (write f.path f.value s).1 in
      elim (Result-cases (write f.path f.value s).0) [
        | inl (_, fine) ↦
            apply_named (f ∷ []) rest s' f a x es (λ c. refl)
              (rw (apply_ok write [] rest f s fine) at e)
        | inr (y, failed) ↦ named_eq (rw (apply_err write [] rest f s y failed) at e)
      ]

  -- Whichever write of a plan fails, the message names the plan's first action: the rollback's loop
  -- has overwritten the variable that it is made from.
  pub execute_names_first :
      (check : String → WriteCheck) (plan : PolicyApplyPlan) (s : S) (f a : PolicyApplyAction)
      (rest : List PolicyApplyAction) (x : X) (es : List (String × X))
      → plan.actions ≡ f ∷ rest
      → (execute_policy_apply_plan write check plan s).0 ≡ err (apply_failed a x es)
      → a ≡ f
  execute_names_first check plan s f a rest x es first e =
      elim (Result-cases (preflight {X = X} check plan.preflight_paths)) [
        | inl (_, clear) ↦
            apply_named_first f rest s a x es
              (rw first at (rw (execute_checked write check plan s clear) at e))
        | inr (y, refused) ↦ absurd (
            preflight-ne-apply_failed check plan.preflight_paths a x es
              (refused ∙ (rw (execute_refused write check plan s y refused) at e)))
      ]
