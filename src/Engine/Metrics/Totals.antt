-- ===== src/Engine/Metrics/Totals.antt =====
-- The metrics of the policies add up to those of the engine in boostlock/engine.py.
use boostlock.Prelude.{
  ℕ, ◌+◌, String, true, false, ◌≡◌, refl, sym, ◌∙◌, List, [], ◌∷◌, All, arith, str_eq, eq_iff,
  if◌then◌else◌, Bool-cases, inl, inr,
}
use boostlock.Prelude.Int.{ℤ}
use boostlock.Prelude.Float.{Float}
use boostlock.Prelude.Dict.{Dict, String_eq, keys}
use boostlock.Sysfs.Plan.{elem}
use boostlock.Sysfs.Plan.Paths.{Distinct}
use boostlock.Engine.Metrics.{
  PulseMetrics, PolicyPulseMetrics, Books, is_running_state, worker_state, metric_owner, metrics_of,
  pulses, running_count, awake_count, policy_metric, policy_metrics, get_metrics,
}

-- a count over the workers, as the sum of what each adds
abbrev weigh : (PulseMetrics → ℕ) → List PulseMetrics → ℕ
weigh f [] = 0
weigh f (m ∷ ms) = f m + weigh f ms

abbrev beats : PulseMetrics → ℕ
beats m = m.pulses_executed

abbrev runs : PulseMetrics → ℕ
runs m = if is_running_state (worker_state m) then 1 else 0

weigh-beats : (ms : List PulseMetrics) → weigh beats ms ≡ pulses ms
weigh-beats [] = refl
weigh-beats (m ∷ ms) = omega (arith, weigh-beats ms)

weigh-runs : (ms : List PulseMetrics) → weigh runs ms ≡ running_count ms
unfolding running_count
weigh-runs [] = refl
weigh-runs (m ∷ ms) = omega (arith, weigh-runs ms)

awake-running_count : (ms : List PulseMetrics) → awake_count ms ≡ running_count ms
unfolding awake_count running_count worker_state
awake-running_count [] = refl
awake-running_count (m ∷ ms) = ground (arith, awake-running_count ms)

module _ (ids : Dict ℕ String) (f : PulseMetrics → ℕ) where
  -- the sum over the policies
  abbrev over : List String → List PulseMetrics → ℕ
  over [] ms = 0
  over (p ∷ ps) ms = weigh f (metrics_of ids p ms) + over ps ms

  -- what one worker adds to it
  abbrev share : List String → PulseMetrics → ℕ
  share [] m = 0
  share (p ∷ ps) m = (if str_eq (metric_owner ids m) p then f m else 0) + share ps m

  weigh-metrics_of :
      (p : String) (m : PulseMetrics) (ms : List PulseMetrics)
      → weigh f (metrics_of ids p (m ∷ ms))
        ≡ (if str_eq (metric_owner ids m) p then f m else 0) + weigh f (metrics_of ids p ms)
  unfolding metrics_of
  weigh-metrics_of p m ms = elim (Bool-cases (str_eq (metric_owner ids m) p)) [
    | inl own ↦ rw (metrics_of, own) refl
    | inr foreign ↦ rw (metrics_of, foreign) (omega arith)
  ]

  over-cons :
      (ps : List String) (m : PulseMetrics) (ms : List PulseMetrics)
      → over ps (m ∷ ms) ≡ share ps m + over ps ms
  over-cons [] m ms = refl
  over-cons (p ∷ ps) m ms = omega (arith, weigh-metrics_of p m ms, over-cons ps m ms)

  over_none : (ps : List String) → over ps [] ≡ 0
  unfolding metrics_of
  over_none [] = refl
  over_none (p ∷ ps) = omega (arith, over_none ps)

  share_none :
      (ps : List String) (m : PulseMetrics) → elem (metric_owner ids m) ps ≡ false → share ps m ≡ 0
  unfolding elem
  share_none [] m h = refl
  share_none (p ∷ ps) m h = elim (Bool-cases (str_eq (metric_owner ids m) p)) [
    | inl same ↦ let lost : true ≡ false = rw (elem, same) at h in cc
    | inr differ ↦
        let h' : elem (metric_owner ids m) ps ≡ false = rw (elem, differ) at h in
        rw differ (omega (arith, share_none ps m h'))
  ]

  share_one :
      (ps : List String) (m : PulseMetrics)
      → Distinct ps
      → elem (metric_owner ids m) ps ≡ true
      → share ps m ≡ f m
  unfolding elem
  share_one [] m apart h = cc
  share_one (p ∷ ps) m apart h = elim (Bool-cases (str_eq (metric_owner ids m) p)) [
    | inl same ↦
        let e : metric_owner ids m ≡ p = (eq_iff (metric_owner ids m) p).0 same in
        let gone : elem (metric_owner ids m) ps ≡ false = rw e apart.0 in
        rw same (omega (arith, share_none ps m gone))
    | inr differ ↦
        let h' : elem (metric_owner ids m) ps ≡ true = rw (elem, differ) at h in
        rw differ (omega (arith, share_one ps m apart.1 h'))
  ]

  abbrev pub IsOwned : List String → PulseMetrics → Type 0
  IsOwned ps m = elem (metric_owner ids m) ps ≡ true

  over-weigh :
      (ps : List String) (ms : List PulseMetrics)
      → Distinct ps
      → All (IsOwned ps) ms
      → over ps ms ≡ weigh f ms
  over-weigh ps [] apart all = over_none ps
  over-weigh ps (m ∷ ms) apart all =
      over-cons ps m ms ∙ omega (arith, share_one ps m apart all.0, over-weigh ps ms apart all.1)

module _ (F : Float) where
  abbrev pub policy_pulses : List (PolicyPulseMetrics F) → ℕ
  policy_pulses [] = 0
  policy_pulses (p ∷ ps) = p.total_pulses + policy_pulses ps

  abbrev pub policy_workers : List (PolicyPulseMetrics F) → ℕ
  policy_workers [] = 0
  policy_workers (p ∷ ps) = p.active_workers + policy_workers ps

  pulses-over :
      (e : Books F) (ms : List PulseMetrics) (targets : Dict String ℤ)
      → policy_pulses (policy_metrics F e ms targets)
        ≡ over e.cpu_policy_ids beats (keys targets) ms
  unfolding policy_metrics policy_metric
  pulses-over e ms [] = refl
  pulses-over e ms ((p, target) ∷ rest) =
      omega (arith, weigh-beats (metrics_of e.cpu_policy_ids p ms), pulses-over e ms rest)

  workers-over :
      (e : Books F) (ms : List PulseMetrics) (targets : Dict String ℤ)
      → policy_workers (policy_metrics F e ms targets)
        ≡ over e.cpu_policy_ids runs (keys targets) ms
  unfolding policy_metrics policy_metric
  workers-over e ms [] = refl
  workers-over e ms ((p, target) ∷ rest) =
      omega (arith, weigh-runs (metrics_of e.cpu_policy_ids p ms), workers-over e ms rest)

  -- Where every worker belongs to a policy of the engine, and no policy stands there twice, the pulses
  -- of the policies add up to the pulses of the engine, and their active workers to its active workers.
  pub get_metrics-totals :
      (e : Books F) (ms : List PulseMetrics)
      → Distinct (keys e.policy_targets)
      → All (IsOwned e.cpu_policy_ids beats (keys e.policy_targets)) ms
      → (policy_pulses (get_metrics F e ms).policy_metrics ≡ (get_metrics F e ms).total_pulses)
        × (policy_workers (get_metrics F e ms).policy_metrics ≡ (get_metrics F e ms).active_workers)
  unfolding get_metrics
  get_metrics-totals e ms apart owned = (
    pulses-over e ms e.policy_targets
        ∙ over-weigh e.cpu_policy_ids beats (keys e.policy_targets) ms apart owned
        ∙ weigh-beats ms,
    workers-over e ms e.policy_targets
        ∙ over-weigh e.cpu_policy_ids runs (keys e.policy_targets) ms apart owned
        ∙ weigh-runs ms
        ∙ sym (awake-running_count ms),
  )
