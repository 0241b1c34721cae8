-- ===== src/Sysfs/Execute/Atomic.antt =====
-- The transaction is all or nothing, for any writer that changes what it says it changes.
use boostlock.Prelude.{
  String, Bool, true, false, ◌≡◌, refl, sym, ◌∙◌, List, [], ◌∷◌, All, Result, ok, err, Result-cases,
  Bool-cases, inl, inr, str_eq, eq_iff, if◌then◌else◌,
}
use boostlock.Sysfs.Policy.{PolicyApplyAction, PolicyApplyPlan}
use boostlock.Sysfs.Execute.Steps.{apply_ok, apply_err, apply_nil, execute_checked, execute_refused}
use boostlock.Sysfs.Execute.{
  WriteCheck, ApplyError, apply_failed, Writer, preflight, rollback, apply_actions,
  execute_policy_apply_plan, failure,
}

-- Is one of the actions at this path?
abbrev pub touches : String → List PolicyApplyAction → Bool
touches q [] = false
touches q (a ∷ rest) = if str_eq a.path q then true else touches q rest

apply_failed-nil :
    {X : Type 0} {a b : PolicyApplyAction} {x y : X} {errors : List (String × X)}
    → ◌≡◌ {A = Result (ApplyError X) (Unit {0})}
        (err (apply_failed a x errors))
        (err (apply_failed b y []))
    → errors ≡ []
apply_failed-nil h = cc

module _ {X S : Type 0} (write : Writer X S) (view : S → String → String)
    (norm : String → String) where
  -- A write that returns changes its own path to the value (`norm` strips it) and no other path; a
  -- write that raises changes none.
  pub record IsFaithful : Type 0 where
    pub written :
        (p v : String) (s : S)
        → (write p v s).0 ≡ ok tt
        → (q : String) → view (write p v s).1 q ≡ (if str_eq p q then norm v else view s q)
    pub refused :
        (p v : String) (s : S) (x : X)
        → (write p v s).0 ≡ err x
        → (q : String) → view (write p v s).1 q ≡ view s q

  -- The action holds the value that its path shows.
  abbrev pub Snapshot : S → PolicyApplyAction → Type 0
  Snapshot s a = view s a.path ≡ norm a.original_value

  -- what a path shows after the writes of the actions, from what it shows before
  abbrev pub outcome : List PolicyApplyAction → String → String → String
  outcome [] before q = before
  outcome (a ∷ rest) before q = outcome rest (if str_eq a.path q then norm a.value else before) q

  -- both states show the same at the paths that no action touches
  abbrev AgreeOutside : List PolicyApplyAction → S → S → Type 0
  AgreeOutside actions s s0 = (q : String) → touches q actions ≡ false → view s q ≡ view s0 q

  failure-nil :
      (p : String) (r : Result X (Unit {0})) (errors : List (String × X))
      → failure write p r errors ≡ []
      → (r ≡ ok tt) × (errors ≡ [])
  failure-nil p (ok _) errors h = (refl, h)
  failure-nil p (err x) errors h = cc

  module _ (faithful : IsFaithful) where
    -- writing the original value back leaves one path less to restore
    restored :
        (a : PolicyApplyAction) (rest : List PolicyApplyAction) (s s0 : S)
        → Snapshot s0 a
        → AgreeOutside (a ∷ rest) s s0
        → (write a.path a.original_value s).0 ≡ ok tt
        → AgreeOutside rest (write a.path a.original_value s).1 s0
    restored a rest s s0 snap agree e q out = elim (Bool-cases (str_eq a.path q)) [
      | inl same ↦
          rw (faithful.written a.path a.original_value s e q, same)
            (rw (← (eq_iff a.path q).0 same) (sym snap))
      | inr other ↦
          rw (faithful.written a.path a.original_value s e q, other) (agree q (rw other out))
    ]

    rollback_restores :
        (done : List PolicyApplyAction) (s s0 : S)
        → All (Snapshot s0) done
        → AgreeOutside done s s0
        → (rollback write done s).0 ≡ []
        → (q : String) → view (rollback write done s).1 q ≡ view s0 q
    unfolding rollback
    rollback_restores [] s s0 snaps agree clean q = agree q refl
    rollback_restores (a ∷ rest) s s0 snaps agree clean q =
        let (r, s') = write a.path a.original_value s in
        let (fine, quiet) = failure-nil a.path r (rollback write rest s').0 clean in
        rollback_restores rest s' s0 snaps.1 (restored a rest s s0 snaps.0 agree fine) quiet q

    -- one more completed action: the other paths still show what they did
    completed_agrees :
        (a : PolicyApplyAction) (done : List PolicyApplyAction) (s s0 : S)
        → AgreeOutside done s s0
        → (write a.path a.value s).0 ≡ ok tt
        → AgreeOutside (a ∷ done) (write a.path a.value s).1 s0
    completed_agrees a done s s0 agree e q out = elim (Bool-cases (str_eq a.path q)) [
      | inl same ↦ cc (rw same at out)
      | inr other ↦ rw (faithful.written a.path a.value s e q, other) (agree q (rw other at out))
    ]

    apply_restores :
        (done actions : List PolicyApplyAction) (s s0 : S) (a : PolicyApplyAction) (x : X)
        → All (Snapshot s0) done
        → All (Snapshot s0) actions
        → AgreeOutside done s s0
        → (apply_actions write done actions s).0 ≡ err (apply_failed a x [])
        → (q : String) → view (apply_actions write done actions s).1 q ≡ view s0 q
    apply_restores done [] s s0 b y snaps todo agree e q = cc (rw (apply_nil write done s) at e)
    apply_restores done (a ∷ rest) s s0 b y snaps todo agree e q =
        let s' = (write a.path a.value s).1 in
        elim (Result-cases (write a.path a.value s).0) [
          | inl (_, fine) ↦ rw (apply_ok write done rest a s fine) (
              apply_restores (a ∷ done) rest s' s0 b y (todo.0, snaps) todo.1
                (completed_agrees a done s s0 agree fine)
                (rw (apply_ok write done rest a s fine) at e) q)
          | inr (x, failed) ↦ rw (apply_err write done rest a s x failed) (
              rollback_restores done s' s0 snaps
                (λ p out. faithful.refused a.path a.value s x failed p ∙ agree p out)
                (apply_failed-nil (rw (apply_err write done rest a s x failed) at e)) q)
        ]

    apply_outcome :
        (done actions : List PolicyApplyAction) (s : S)
        → (apply_actions write done actions s).0 ≡ ok tt
        → (q : String)
        → view (apply_actions write done actions s).1 q ≡ outcome actions (view s q) q
    apply_outcome done [] s e q = rw (apply_nil write done s)
    apply_outcome done (a ∷ rest) s e q =
        let s' = (write a.path a.value s).1 in
        elim (Result-cases (write a.path a.value s).0) [
          | inl (_, fine) ↦
              rw (apply_ok write done rest a s fine, ← faithful.written a.path a.value s fine q)
                (apply_outcome (a ∷ done) rest s' (rw (apply_ok write done rest a s fine) at e) q)
          | inr (x, failed) ↦ cc (rw (apply_err write done rest a s x failed) at e)
        ]

    -- Where every action holds the value that its path shows, and the writes that roll back succeed
    -- (the error lists none that failed), a failed transaction leaves every path as it was.
    pub execute_all_or_nothing :
        (check : String → WriteCheck) (plan : PolicyApplyPlan) (s : S) (a : PolicyApplyAction)
        (x : X)
        → All (Snapshot s) plan.actions
        → (execute_policy_apply_plan write check plan s).0 ≡ err (apply_failed a x [])
        → (q : String) → view (execute_policy_apply_plan write check plan s).1 q ≡ view s q
    execute_all_or_nothing check plan s a x snaps e q =
        elim (Result-cases (preflight {X = X} check plan.preflight_paths)) [
          | inl (_, clear) ↦ rw (execute_checked write check plan s clear) (
              apply_restores [] plan.actions s s a x tt snaps (λ p _. refl)
                (rw (execute_checked write check plan s clear) at e) q)
          | inr (y, refused) ↦ rw (execute_refused write check plan s y refused) refl
        ]

    -- A transaction that returns has written, at every path, the value of the last action there, and
    -- has left the other paths as they were.
    pub execute_outcome :
        (check : String → WriteCheck) (plan : PolicyApplyPlan) (s : S)
        → (execute_policy_apply_plan write check plan s).0 ≡ ok tt
        → (q : String)
        → view (execute_policy_apply_plan write check plan s).1 q
          ≡ outcome plan.actions (view s q) q
    execute_outcome check plan s e q =
        elim (Result-cases (preflight {X = X} check plan.preflight_paths)) [
          | inl (_, clear) ↦ rw (execute_checked write check plan s clear) (
              apply_outcome [] plan.actions s (rw (execute_checked write check plan s clear) at e)
                q)
          | inr (y, refused) ↦ cc (rw (execute_refused write check plan s y refused) at e)
        ]
