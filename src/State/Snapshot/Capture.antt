-- ===== src/State/Snapshot/Capture.antt =====
-- The saved state of one policy comes from that policy's own actions.
use boostlock.Prelude.{
  String, false, ◌&&◌, ◌≡◌, ◌≢◌, refl, ◌∙◌, ap, Option, some, List, [], ◌∷◌, str_eq, eq_iff, arith,
  if◌then◌else◌, Bool-cases, Option-cases, inl, inr,
}
use boostlock.Prelude.Int.{ℤ}
use boostlock.Prelude.Dict.{Dict, String_eq, get, get-set_ne, get-set_self}
use boostlock.Sysfs.Policy.{CpufreqPolicy, PolicyApplyAction}
use boostlock.State.Snapshot.{
  PolicyStateSnapshot, snapshot_or, has_field, set_field, capture, capture_all,
}

module _ (parse_int : String → Option ℤ) (policy : CpufreqPolicy) (id : String) where
  abbrev add_own : PolicyApplyAction → Option PolicyStateSnapshot → Option PolicyStateSnapshot
  add_own a saved =
      if str_eq a.policy_id id && has_field a.control
      then some (
          set_field parse_int a.control a.original_value
            (snapshot_or parse_int saved id policy.cpus))
      else saved

  -- The original values of the policy's own actions, set one after the other on an empty snapshot.
  abbrev pub own_snapshot :
      List PolicyApplyAction → Option PolicyStateSnapshot → Option PolicyStateSnapshot
  own_snapshot [] saved = saved
  own_snapshot (a ∷ rest) saved = own_snapshot rest (add_own a saved)

  module _ (discovered : Dict String CpufreqPolicy) (found : get id discovered ≡ some policy)
      (named : str_eq id "pm_qos" ≡ false) where
    capture_own :
        (a : PolicyApplyAction) (snapshots : Dict String PolicyStateSnapshot)
        → get id (capture parse_int discovered a snapshots) ≡ add_own a (get id snapshots)
    unfolding capture
    capture_own a snapshots = elim (Bool-cases (str_eq a.policy_id id)) [
      | inl own ↦
          let same : a.policy_id ≡ id = (eq_iff a.policy_id id).0 own in
          elim (Bool-cases (has_field a.control)) [
            | inl kept ↦
                rw (own, kept, same, named, found, capture, same) (get-set_self id _ snapshots)
            | inr other ↦ rw (own, other, same, named, capture) refl
          ]
      | inr foreign ↦
          let apart : a.policy_id ≢ id =
            λ same. ground (arith, foreign, (eq_iff a.policy_id id).1 same) in
          elim (Bool-cases (str_eq a.policy_id "pm_qos")) [
            | inl qos ↦ rw (foreign, qos, capture) refl
            | inr here ↦ elim (Bool-cases (has_field a.control)) [
              | inr other ↦ rw (foreign, here, other, capture) refl
              | inl kept ↦ elim (Option-cases (get a.policy_id discovered)) [
                | inl gone ↦ rw (foreign, here, kept, gone, capture) refl
                | inr (p, known) ↦
                    rw (foreign, here, kept, known, capture)
                      (get-set_ne a.policy_id id _ snapshots apart)
              ]
            ]
          ]
    ]

    pub capture_all_own :
        (actions : List PolicyApplyAction) (snapshots : Dict String PolicyStateSnapshot)
        → get id (capture_all parse_int discovered actions snapshots)
          ≡ own_snapshot actions (get id snapshots)
    unfolding capture_all
    capture_all_own [] snapshots = refl
    capture_all_own (a ∷ rest) snapshots =
        capture_all_own rest (capture parse_int discovered a snapshots)
        ∙ ap (own_snapshot rest) (capture_own a snapshots)
