-- ===== src/Examples/Transactions.antt =====
-- Runs of `execute_policy_apply_plan` of boostlock/sysfs.py on files that are a function of the path.
use boostlock.Prelude.{◌≡◌, refl, arith, [], ◌∷◌, String, ok, err, str_eq, if◌then◌else◌, All}
use boostlock.Sysfs.Policy.{governor, active_min_frequency, PolicyApplyAction, PolicyApplyPlan}
use boostlock.Sysfs.Execute.{
  opens, WriteCheck, Writer, execute_policy_apply_plan, apply_failed, preflight, apply_actions,
  rollback, named_action,
}
use boostlock.Sysfs.Execute.Atomic.{
  IsFaithful, Snapshot, outcome, execute_all_or_nothing, execute_outcome,
}
use boostlock.Sysfs.Execute.Message.{execute_names_first}

abbrev set_governor : PolicyApplyAction
set_governor = record {
  policy_id = "policy0";
  control = governor;
  path = "scaling_governor";
  value = "performance";
  original_value = "powersave";
}

abbrev set_min : PolicyApplyAction
set_min = record {
  policy_id = "policy0";
  control = active_min_frequency;
  path = "scaling_min_freq";
  value = "4000000";
  original_value = "400000";
}

abbrev plan : PolicyApplyPlan
plan = record {
  actions = set_governor ∷ set_min ∷ [];
  skipped_controls = [];
  preflight_paths = "scaling_governor" ∷ "scaling_min_freq" ∷ [];
}

abbrev before : String → String
before path = if str_eq path "scaling_governor" then "powersave" else "400000"

abbrev written_at : String → String → (String → String) → String → String
written_at path value s q = if str_eq path q then value else s q

-- every write succeeds
abbrev accept : Writer String (String → String)
accept path value s = (ok tt, written_at path value s)

-- the minimum is refused
abbrev refuse_min : Writer String (String → String)
refuse_min path value s =
    if str_eq path "scaling_min_freq" then (err "EINVAL", s) else (ok tt, written_at path value s)

abbrev view : (String → String) → String → String
view s path = s path

abbrev opens_all : String → WriteCheck
opens_all path = opens

accept-IsFaithful : IsFaithful accept view (λ value. value)
accept-IsFaithful = record { written = λ p v s h q. refl; refused = λ p v s x h q. cc }

refuse_min-IsFaithful : IsFaithful refuse_min view (λ value. value)
refuse_min-IsFaithful = record {
  written = λ p v s h q. ground arith;
  refused = λ p v s x h q. ground arith;
}

refused_min :
    (execute_policy_apply_plan refuse_min opens_all plan before).0
    ≡ err (apply_failed set_governor "EINVAL" [])
unfolding execute_policy_apply_plan preflight apply_actions rollback named_action
refused_min = refl

snapshots : All (Snapshot refuse_min view (λ value. value) before) plan.actions
snapshots = (refl, (refl, tt))

execute_all_or_nothing_example :
    view (execute_policy_apply_plan refuse_min opens_all plan before).1 "scaling_governor"
    ≡ view before "scaling_governor"
execute_all_or_nothing_example =
    execute_all_or_nothing refuse_min view (λ value. value) refuse_min-IsFaithful opens_all plan
      before set_governor "EINVAL" snapshots refused_min "scaling_governor"

accepted : (execute_policy_apply_plan accept opens_all plan before).0 ≡ ok tt
unfolding execute_policy_apply_plan preflight apply_actions
accepted = refl

execute_outcome_example :
    view (execute_policy_apply_plan accept opens_all plan before).1 "scaling_min_freq"
    ≡ outcome accept view (λ value. value) plan.actions "400000" "scaling_min_freq"
execute_outcome_example =
    execute_outcome accept view (λ value. value) accept-IsFaithful opens_all plan before accepted
      "scaling_min_freq"

execute_names_first_example : set_governor ≡ set_governor
execute_names_first_example =
    execute_names_first refuse_min opens_all plan before set_governor set_governor (set_min ∷ [])
      "EINVAL" [] refl refused_min
