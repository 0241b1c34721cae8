-- ===== src/State/Snapshot/Own.antt =====
-- What the snapshot of a policy holds, by the values that its own actions hold.
use boostlock.Prelude.{
  String, false, ◌&&◌, ◌≡◌, refl, sym, ◌∙◌, ℕ, Bool, true, not, ◌||◌, ◌==◌, Option, none, some,
  List, [], ◌∷◌, str_eq, arith, if◌then◌else◌, Bool-cases, Option-cases, inl, inr,
}
use boostlock.Prelude.Int.{ℤ}
use boostlock.Prelude.Dict.{String_eq, get}
use boostlock.Sysfs.Policy.{
  Control, governor, active_min_frequency, active_max_frequency, boost, cpb,
  energy_performance_preference, energy_perf_bias, device, cpuidle, CpufreqPolicy,
  PolicyApplyAction,
}
use boostlock.State.Snapshot.{
  PolicyStateSnapshot, by_identifier, has_field, set_field, create_policy_snapshot,
}
use boostlock.State.Snapshot.Capture.{own_snapshot, capture_all_own}

-- The controls whose values a snapshot keeps, by number: governor, the two bounds, boost, cpb, and
-- the energy preference and bias. The others have none.
abbrev kept_number : Control → ℕ
kept_number governor = 1
kept_number active_min_frequency = 2
kept_number active_max_frequency = 3
kept_number boost = 4
kept_number cpb = 5
kept_number energy_performance_preference = 6
kept_number energy_perf_bias = 7
kept_number device = 0
kept_number cpuidle = 0

-- the original values that a policy's own actions hold for the control of a number, in order
abbrev pub own_values : String → ℕ → List PolicyApplyAction → List String
own_values id n [] = []
own_values id n (a ∷ rest) =
    let later = own_values id n rest in
    if str_eq a.policy_id id && kept_number a.control == n then a.original_value ∷ later else later

-- the last of some values, or what was there before them
abbrev pub last_or : Option String → List String → Option String
last_or kept [] = kept
last_or kept (v ∷ vs) = last_or (some v) vs

-- whether a policy has an action of its own on a control that is kept
abbrev pub any_own : String → List PolicyApplyAction → Bool
any_own id [] = false
any_own id (a ∷ rest) = str_eq a.policy_id id && not (kept_number a.control == 0) || any_own id rest

module _ (parse_int : String → Option ℤ) where
  -- the last of some values that is a number
  abbrev pub last_number_or : Option ℤ → List String → Option ℤ
  last_number_or kept [] = kept
  last_number_or kept (v ∷ vs) =
      last_number_or (elim (parse_int v) [ none ↦ kept | some n ↦ some n ]) vs

  -- a snapshot `p` once the policy's own actions have been read
  abbrev described : String → List PolicyApplyAction → PolicyStateSnapshot → PolicyStateSnapshot
  described id actions p = record {
    policy_id = p.policy_id;
    cpus = p.cpus;
    governor = last_or p.governor (own_values id 1 actions);
    scaling_min_freq = last_number_or p.scaling_min_freq (own_values id 2 actions);
    scaling_max_freq = last_number_or p.scaling_max_freq (own_values id 3 actions);
    boost = last_or p.boost (own_values id 4 actions);
    cpb = last_or p.cpb (own_values id 5 actions);
    epp = last_or p.epp (own_values id 6 actions);
    epb = last_or p.epb (own_values id 7 actions);
  }

  -- nothing saved yet
  abbrev blank : String → List ℤ → PolicyStateSnapshot
  blank id members = record {
    policy_id = id;
    cpus = members;
    governor = none;
    scaling_min_freq = none;
    scaling_max_freq = none;
    boost = none;
    cpb = none;
    epp = none;
    epb = none;
  }

  -- The snapshot of the policy `id`, where it has an action of its own on a control that is kept: of
  -- each control the last value that those actions hold, and of the bounds the last that is a number.
  abbrev pub saved_of : CpufreqPolicy → String → List PolicyApplyAction → Option PolicyStateSnapshot
  saved_of policy id actions =
      if any_own id actions then some (described id actions (blank id policy.cpus)) else none

  module _ (policy : CpufreqPolicy) (id : String) where
    abbrev Describes : PolicyApplyAction → List PolicyApplyAction → PolicyStateSnapshot → Type 0
    Describes a rest p =
        own_snapshot parse_int policy id (a ∷ rest) (some p) ≡ some (described id (a ∷ rest) p)

    own_step :
        (control : Control) (a : PolicyApplyAction) (rest : List PolicyApplyAction)
        (p : PolicyStateSnapshot)
        → a.control ≡ control
        → str_eq a.policy_id id ≡ true
        → ((q : PolicyStateSnapshot)
            → own_snapshot parse_int policy id rest (some q) ≡ some (described id rest q))
        → Describes a rest p
    unfolding set_field has_field
    own_step governor a rest p e own ih = rw (own, e) (ih _)
    own_step active_min_frequency a rest p e own ih =
        elim (Option-cases (parse_int a.original_value)) [
          | inl h ↦ rw (own, e, h) (ih _)
          | inr (n, h) ↦ rw (own, e, h) (ih _)
        ]
    own_step active_max_frequency a rest p e own ih =
        elim (Option-cases (parse_int a.original_value)) [
          | inl h ↦ rw (own, e, h) (ih _)
          | inr (n, h) ↦ rw (own, e, h) (ih _)
        ]
    own_step boost a rest p e own ih = rw (own, e) (ih _)
    own_step cpb a rest p e own ih = rw (own, e) (ih _)
    own_step energy_performance_preference a rest p e own ih = rw (own, e) (ih _)
    own_step energy_perf_bias a rest p e own ih = rw (own, e) (ih _)
    own_step device a rest p e own ih = rw (own, e) (ih _)
    own_step cpuidle a rest p e own ih = rw (own, e) (ih _)

    own_snapshot-described :
        (actions : List PolicyApplyAction) (p : PolicyStateSnapshot)
        → own_snapshot parse_int policy id actions (some p) ≡ some (described id actions p)
    own_snapshot-described [] p = refl
    own_snapshot-described (a ∷ rest) p = elim (Bool-cases (str_eq a.policy_id id)) [
      | inr foreign ↦ rw foreign (own_snapshot-described rest p)
      | inl own ↦ own_step a.control a rest p refl own (own_snapshot-described rest)
    ]

    has_field-kept : (c : Control) → has_field c ≡ not (kept_number c == 0)
    unfolding has_field
    has_field-kept c = ground arith

    unkept : (c : Control) → has_field c ≡ false → kept_number c ≡ 0
    unfolding has_field
    unkept c h = ground arith

    first_own :
        (a : PolicyApplyAction) (rest : List PolicyApplyAction)
        → str_eq a.policy_id id ≡ true
        → has_field a.control ≡ true
        → own_snapshot parse_int policy id (a ∷ rest) none
          ≡ own_snapshot parse_int policy id (a ∷ rest) (some (blank id policy.cpus))
    first_own a rest own kept = rw (own, kept) refl

    saved_of-some :
        (a : PolicyApplyAction) (rest : List PolicyApplyAction)
        → str_eq a.policy_id id ≡ true
        → has_field a.control ≡ true
        → saved_of policy id (a ∷ rest) ≡ some (described id (a ∷ rest) (blank id policy.cpus))
    saved_of-some a rest own kept =
        let counts : not (kept_number a.control == 0) ≡ true =
          sym (has_field-kept a.control) ∙ kept in
        rw (own, counts) refl

    own_snapshot-saved_of :
        (actions : List PolicyApplyAction)
        → own_snapshot parse_int policy id actions none ≡ saved_of policy id actions
    own_snapshot-saved_of [] = refl
    own_snapshot-saved_of (a ∷ rest) = elim (Bool-cases (str_eq a.policy_id id)) [
      | inr foreign ↦ rw foreign (own_snapshot-saved_of rest)
      | inl own ↦ elim (Bool-cases (has_field a.control)) [
        | inl kept ↦
            first_own a rest own kept
            ∙ own_snapshot-described (a ∷ rest) (blank id policy.cpus)
            ∙ sym (saved_of-some a rest own kept)
        | inr other ↦ rw (own, other, unkept a.control other) (own_snapshot-saved_of rest)
      ]
    ]

-- What is saved of a discovered policy, whose identifier is not `pm_qos`, is what its own actions hold,
-- whatever else is planned: nothing where none of them is on a control that is kept, else its CPUs and,
-- of each such control, the last value that they hold, of the two bounds the last that is a number.
pub create_policy_snapshot-saved_of :
    (parse_int : String → Option ℤ) (policies : List CpufreqPolicy) (policy : CpufreqPolicy)
    (id : String) (actions : List PolicyApplyAction)
    → get id (by_identifier policies []) ≡ some policy
    → str_eq id "pm_qos" ≡ false
    → get id (create_policy_snapshot parse_int policies actions)
      ≡ saved_of parse_int policy id actions
unfolding create_policy_snapshot get
create_policy_snapshot-saved_of parse_int policies policy id actions found named =
    capture_all_own parse_int policy id (by_identifier policies []) found named actions []
    ∙ own_snapshot-saved_of parse_int policy id actions
