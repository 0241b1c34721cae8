-- ===== src/Engine/Duty/Isolation.antt =====
-- The feedback of one policy in a run of `update_samples` calls for several policies.
use boostlock.Prelude.{
  ◌≡◌, ◌≢◌, some, refl, sym, ◌∙◌, ap, String, true, false, List, [], ◌∷◌, Bool-cases, inl, inr,
  arith, str_eq, eq_iff, if◌then◌else◌,
}
use boostlock.Prelude.Int.{ℤ}
use boostlock.Prelude.Float.{Float}
use boostlock.Prelude.Dict.{Dict, String_eq, get, get_or, set, contains, get-set_ne, get-set_self}
use boostlock.Engine.Duty.{
  PolicyDutyState, AdaptiveDutyController, fresh, update_policy, update_samples,
}

module _ (F : Float) where
  open F use {Num}

  -- the arguments of one call
  pub record Feed : Type 0 where
    pub policy_id : String
    pub samples : List ℤ
    pub clamp : Num
    pub load : Num

  abbrev fed : Feed → AdaptiveDutyController F → AdaptiveDutyController F
  fed x c = (update_samples F x.policy_id x.samples x.clamp x.load c).0

  -- the calls in order
  abbrev pub fed_all : List Feed → AdaptiveDutyController F → AdaptiveDutyController F
  fed_all [] c = c
  fed_all (x ∷ xs) c = fed_all xs (fed x c)

  -- those of one policy
  abbrev pub own_feeds : String → List Feed → List Feed
  own_feeds j [] = []
  own_feeds j (x ∷ xs) =
      let rest = own_feeds j xs in if str_eq x.policy_id j then x ∷ rest else rest

  -- Two controllers that run under the same limits and agree on one policy.
  pub record Agree (j : String) (c d : AdaptiveDutyController F) : Type 0 where
    pub default_target : c.target_freq_khz ≡ d.target_freq_khz
    pub min_duty : c.min_duty_pct ≡ d.min_duty_pct
    pub max_duty : c.max_duty_pct ≡ d.max_duty_pct
    pub step : c.duty_step_pct ≡ d.duty_step_pct
    pub threshold : c.load_yield_threshold_pct ≡ d.load_yield_threshold_pct
    pub initial : c.initial_duty_pct ≡ d.initial_duty_pct
    pub target : get j c.policy_targets ≡ get j d.policy_targets
    pub feedback : get j c.policy_states ≡ get j d.policy_states

  Agree-trans :
      (j : String) (b c d : AdaptiveDutyController F) → Agree j b c → Agree j c d → Agree j b d
  Agree-trans j b c d h k = record {
    default_target = h.default_target ∙ k.default_target;
    min_duty = h.min_duty ∙ k.min_duty;
    max_duty = h.max_duty ∙ k.max_duty;
    step = h.step ∙ k.step;
    threshold = h.threshold ∙ k.threshold;
    initial = h.initial ∙ k.initial;
    target = h.target ∙ k.target;
    feedback = h.feedback ∙ k.feedback;
  }

  -- a call changes the two dicts only at its own policy
  abbrev own_target : String → AdaptiveDutyController F → ℤ
  own_target j c = get_or j c.target_freq_khz c.policy_targets

  abbrev own_state : String → AdaptiveDutyController F → PolicyDutyState F
  own_state j c = get_or j (fresh F c.initial_duty_pct) c.policy_states

  abbrev own_update : Feed → AdaptiveDutyController F → PolicyDutyState F
  own_update x c =
      (update_policy F c (own_target x.policy_id c) x.samples x.clamp x.load
        (own_state x.policy_id c)).0

  foreign-Agree :
      (j : String) (x : Feed) (c : AdaptiveDutyController F) → x.policy_id ≢ j → Agree j (fed x c) c
  unfolding update_samples
  foreign-Agree j x c ne = elim (Bool-cases (contains x.policy_id c.policy_targets)) [
    | inl known ↦ rw known (record {
      default_target = refl;
      min_duty = refl;
      max_duty = refl;
      step = refl;
      threshold = refl;
      initial = refl;
      target = refl;
      feedback = simp (get-set_ne, ne);
    })
    | inr unknown ↦ rw unknown (record {
      default_target = refl;
      min_duty = refl;
      max_duty = refl;
      step = refl;
      threshold = refl;
      initial = refl;
      target = simp (get-set_ne, ne);
      feedback = simp (get-set_ne, ne);
    })
  ]

  -- the controller after a call, as far as its own policy sees it
  pub record IsFed (x : Feed) (c r : AdaptiveDutyController F) : Type 0 where
    pub default_target : r.target_freq_khz ≡ c.target_freq_khz
    pub min_duty : r.min_duty_pct ≡ c.min_duty_pct
    pub max_duty : r.max_duty_pct ≡ c.max_duty_pct
    pub step : r.duty_step_pct ≡ c.duty_step_pct
    pub threshold : r.load_yield_threshold_pct ≡ c.load_yield_threshold_pct
    pub initial : r.initial_duty_pct ≡ c.initial_duty_pct
    pub target : get x.policy_id r.policy_targets ≡ some (own_target x.policy_id c)
    pub feedback : get x.policy_id r.policy_states ≡ some (own_update x c)

  contains-get_or :
      (k : String) (v : ℤ) (d : Dict String ℤ) → contains k d ≡ true → get k d ≡ some (get_or k v d)
  unfolding contains get_or
  contains-get_or k v d h = ground arith

  get_or_new : (k : String) (v : ℤ) (d : Dict String ℤ) → contains k d ≡ false → get_or k v d ≡ v
  unfolding contains get_or
  get_or_new k v d h = ground arith

  get_or-set : (k : String) (v w : ℤ) (d : Dict String ℤ) → get_or k v (set k w d) ≡ w
  unfolding get_or
  get_or-set k v w d = rw (get-set_self k w d, get_or) refl

  fed-IsFed : (x : Feed) (c : AdaptiveDutyController F) → IsFed x c (fed x c)
  unfolding update_samples
  fed-IsFed x c = elim (Bool-cases (contains x.policy_id c.policy_targets)) [
    | inl known ↦ rw known (record {
      default_target = refl;
      min_duty = refl;
      max_duty = refl;
      step = refl;
      threshold = refl;
      initial = refl;
      target = contains-get_or x.policy_id c.target_freq_khz c.policy_targets known;
      feedback = get-set_self x.policy_id _ _;
    })
    | inr unknown ↦ rw unknown (record {
      default_target = refl;
      min_duty = refl;
      max_duty = refl;
      step = refl;
      threshold = refl;
      initial = refl;
      target =
          get-set_self x.policy_id c.target_freq_khz c.policy_targets
          ∙ ap some (sym (get_or_new x.policy_id c.target_freq_khz c.policy_targets unknown));
      feedback =
          get-set_self x.policy_id _ _
          ∙ ap
              (λ t. some (update_policy F c t x.samples x.clamp x.load (own_state x.policy_id c)).0)
              (get_or-set x.policy_id c.target_freq_khz c.target_freq_khz c.policy_targets
                ∙ sym (get_or_new x.policy_id c.target_freq_khz c.policy_targets unknown));
    })
  ]

  own_update-Agree :
      (x : Feed) (c d : AdaptiveDutyController F)
      → Agree x.policy_id c d
      → own_update x c ≡ own_update x d
  unfolding update_policy get_or
  own_update-Agree x c d a = cc (
    a.default_target, a.min_duty, a.max_duty, a.step, a.threshold, a.initial, a.target, a.feedback,
  )

  own_target-Agree :
      (j : String) (c d : AdaptiveDutyController F) → Agree j c d → own_target j c ≡ own_target j d
  unfolding get_or
  own_target-Agree j c d a = cc (a.default_target, a.target)

  own-Agree :
      (x : Feed) (c d : AdaptiveDutyController F)
      → Agree x.policy_id c d
      → Agree x.policy_id (fed x c) (fed x d)
  own-Agree x c d a =
      let p = fed-IsFed x c in
      let q = fed-IsFed x d in
      let targets = own_target-Agree x.policy_id c d a in
      record {
        default_target = p.default_target ∙ a.default_target ∙ sym q.default_target;
        min_duty = p.min_duty ∙ a.min_duty ∙ sym q.min_duty;
        max_duty = p.max_duty ∙ a.max_duty ∙ sym q.max_duty;
        step = p.step ∙ a.step ∙ sym q.step;
        threshold = p.threshold ∙ a.threshold ∙ sym q.threshold;
        initial = p.initial ∙ a.initial ∙ sym q.initial;
        target = p.target ∙ ap some targets ∙ sym q.target;
        feedback = p.feedback ∙ ap some (own_update-Agree x c d a) ∙ sym q.feedback;
      }

  own_at :
      (j : String) (x : Feed) (c d : AdaptiveDutyController F)
      → x.policy_id ≡ j
      → Agree j c d
      → Agree j (fed x c) (fed x d)
  own_at j x c d same a = rw (← same) (own-Agree x c d (rw same a))

  fed_all-Agree :
      (j : String) (xs : List Feed) (c d : AdaptiveDutyController F)
      → Agree j c d
      → Agree j (fed_all xs c) (fed_all (own_feeds j xs) d)
  fed_all-Agree j [] c d a = a
  fed_all-Agree j (x ∷ xs) c d a = elim (Bool-cases (str_eq x.policy_id j)) [
    | inl own ↦
        rw (own, own_feeds)
          (fed_all-Agree j xs (fed x c) (fed x d) (own_at j x c d ((eq_iff x.policy_id j).0 own) a))
    | inr other ↦
        let apart : x.policy_id ≢ j =
          λ same. ground (arith, other, (eq_iff x.policy_id j).1 same) in
        rw (other, own_feeds)
          (fed_all-Agree j xs (fed x c) d
            (Agree-trans j (fed x c) c d (foreign-Agree j x c apart) a))
  ]

  -- Whatever calls for other policies come between, a policy's feedback state, its target, the limits
  -- and the thresholds end as its own calls alone leave them.
  pub update_samples-Agree :
      (j : String) (xs : List Feed) (c : AdaptiveDutyController F)
      → Agree j (fed_all xs c) (fed_all (own_feeds j xs) c)
  update_samples-Agree j xs c = fed_all-Agree j xs c c (record {
    default_target = refl;
    min_duty = refl;
    max_duty = refl;
    step = refl;
    threshold = refl;
    initial = refl;
    target = refl;
    feedback = refl;
  })
