-- ===== src/Sysfs/Execute/Views.antt =====
-- What a transaction does to a part of the state that only its last action writes.
use boostlock.Prelude.{
  String, Result, ok, err, Result-cases, inl, inr, List, [], ◌∷◌, ◌++◌, All, ◌≡◌, refl, ◌∙◌,
}
use boostlock.Sysfs.Policy.{PolicyApplyAction, PolicyApplyPlan}
use boostlock.Sysfs.Execute.{
  WriteCheck, ApplyError, Writer, preflight, rollback, apply_actions, execute_policy_apply_plan,
}
use boostlock.Sysfs.Execute.Steps.{apply_ok, apply_err, apply_nil, execute_checked, execute_refused}

module _ {X S V : Type 0} (write : Writer X S) (view : S → V) where
  -- an action that leaves the view, whatever value it writes
  abbrev pub IsKeeping : PolicyApplyAction → Type 0
  IsKeeping a = (value : String) (s : S) → view (write a.path value s).1 ≡ view s

  rollback-view :
      (done : List PolicyApplyAction) (s : S)
      → All IsKeeping done
      → view (rollback write done s).1 ≡ view s
  unfolding rollback
  rollback-view [] s keeping = refl
  rollback-view (a ∷ rest) s (first, others) =
      rollback-view rest (write a.path a.original_value s).1 others ∙ first a.original_value s

  module _ (Good Bad : V → Type 0) where
    -- the view after a success and after a failure
    abbrev pub Ended {ℓ} : {E : Type ℓ} → Result E (Unit {0}) × S → Type 0
    Ended (ok _, s) = Good (view s)
    Ended (err _, s) = Bad (view s)

    after_ok : (o : Result X (Unit {0}) × S) → o.0 ≡ ok tt → Ended o → Good (view o.1)
    after_ok (ok _, s) e good = good
    after_ok (err x, s) e bad = cc

    after_err : (o : Result X (Unit {0}) × S) (x : X) → o.0 ≡ err x → Ended o → Bad (view o.1)
    after_err (ok _, s) x e good = cc
    after_err (err y, s) x e bad = bad

    -- a transaction whose last action alone may touch the view
    pub apply_actions-Ended :
        (last : PolicyApplyAction) (done actions : List PolicyApplyAction) (s : S)
        → All IsKeeping done
        → All IsKeeping actions
        → Bad (view s)
        → ((s' : S) → Bad (view s') → Ended (write last.path last.value s'))
        → Ended (apply_actions write done (actions ++ last ∷ []) s)
    apply_actions-Ended last done [] s kept keeping bad step =
        elim (Result-cases (write last.path last.value s).0) [
          | inl (_, e) ↦
              rw
                (
                  apply_ok write done [] last s e,
                  apply_nil write (last ∷ done) (write last.path last.value s).1,
                )
                (after_ok (write last.path last.value s) e (step s bad))
          | inr (x, e) ↦
              rw
                (
                  apply_err write done [] last s x e,
                  rollback-view done (write last.path last.value s).1 kept,
                )
                (after_err (write last.path last.value s) x e (step s bad))
        ]
    apply_actions-Ended last done (a ∷ rest) s kept (first, others) bad step =
        elim (Result-cases (write a.path a.value s).0) [
          | inl (_, e) ↦ rw (apply_ok write done (rest ++ last ∷ []) a s e) (
              apply_actions-Ended last (a ∷ done) rest (write a.path a.value s).1 (first, kept)
                others (rw (first a.value s) bad) step)
          | inr (x, e) ↦
              rw
                (
                  apply_err write done (rest ++ last ∷ []) a s x e,
                  rollback-view done (write a.path a.value s).1 kept,
                  first a.value s,
                )
                bad
        ]

    -- a transaction of which no action touches the view
    pub apply_actions_kept :
        (done actions : List PolicyApplyAction) (s : S)
        → All IsKeeping done
        → All IsKeeping actions
        → view (apply_actions write done actions s).1 ≡ view s
    apply_actions_kept done [] s kept keeping = rw (apply_nil write done s) refl
    apply_actions_kept done (a ∷ rest) s kept (first, others) =
        elim (Result-cases (write a.path a.value s).0) [
          | inl (_, e) ↦ rw (apply_ok write done rest a s e) (
              apply_actions_kept (a ∷ done) rest (write a.path a.value s).1 (first, kept) others
              ∙ first a.value s)
          | inr (x, e) ↦
              rw (apply_err write done rest a s x e)
                (rollback-view done (write a.path a.value s).1 kept ∙ first a.value s)
        ]

    -- what holds of the actions holds of the plan, which may end before any of them
    pub execute_policy_apply_plan-Ended :
        (check : String → WriteCheck) (plan : PolicyApplyPlan) (s : S)
        → Ended (apply_actions write [] plan.actions s)
        → Bad (view s)
        → Ended (execute_policy_apply_plan write check plan s)
    execute_policy_apply_plan-Ended check plan s ended bad =
        elim (Result-cases (preflight {X = X} check plan.preflight_paths)) [
          | inl (_, e) ↦ rw (execute_checked write check plan s e) ended
          | inr (x, e) ↦ rw (execute_refused write check plan s x e) bad
        ]

    view-Ended :
        (o : Result (ApplyError X) (Unit {0}) × S) → Good (view o.1) → Bad (view o.1) → Ended o
    view-Ended (ok _, s) good bad = good
    view-Ended (err x, s) good bad = bad

    pub apply_actions_kept-Ended :
        (actions : List PolicyApplyAction) (s : S)
        → All IsKeeping actions
        → Good (view s)
        → Bad (view s)
        → Ended (apply_actions write [] actions s)
    apply_actions_kept-Ended actions s keeping good bad =
        let e = apply_actions_kept [] actions s tt keeping in
        view-Ended (apply_actions write [] actions s) (rw e good) (rw e bad)
