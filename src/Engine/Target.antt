-- ===== src/Engine/Target.antt =====
-- `_effective_target_for_policy` and `_configured_target_khz` of boostlock/engine.py, beside the
-- target that the plan of boostlock/sysfs.py writes.
use boostlock.Prelude.{◌≡◌, Option, none, some, List, [], ◌∷◌, if◌then◌else◌}
use boostlock.Prelude.Int.{ℤ, pos, ltb_ℤ}
use boostlock.Config.{Target, auto, other, khz}
use boostlock.Sysfs.Policy.{CpufreqPolicy}
use boostlock.Sysfs.Target.{
  lower_bounds, upper_bounds, interval, clamp_into, effective_policy_target,
}

-- A validated configuration has no `bool` here, and `other` is no number.
-- `configured if isinstance(configured, int) and configured > 0 else None`
unfoldable pub requested_khz : Target → Option ℤ
requested_khz auto = none
requested_khz other = none
requested_khz (khz n) = if ltb_ℤ (pos 0) n then some n else none

-- `_configured_target_khz`
unfoldable pub configured_target_khz : Target → ℤ
configured_target_khz auto = pos 4000000
configured_target_khz other = pos 4000000
configured_target_khz (khz n) = if ltb_ℤ (pos 0) n then n else pos 4000000

-- where the bounds are unknown the request itself is the target
unfoldable pub target_within : Option ℤ → List ℤ → List ℤ → Option ℤ
target_within requested [] uppers = requested
target_within requested (x ∷ xs) [] = requested
target_within requested (x ∷ xs) (y ∷ ys) = clamp_into requested (interval (x ∷ xs) (y ∷ ys))

unfoldable pub effective_target_for_policy : Target → CpufreqPolicy → Option ℤ
unfolding requested_khz target_within
effective_target_for_policy t p = target_within (requested_khz t) (lower_bounds p) (upper_bounds p)

within_agrees :
    (requested : Option ℤ) (lowers uppers : List ℤ) (target : ℤ)
    → clamp_into requested (interval lowers uppers) ≡ some target
    → target_within requested lowers uppers ≡ some target
unfolding target_within interval
within_agrees requested [] uppers target h = cc
within_agrees requested (x ∷ xs) [] target h = cc
within_agrees requested (x ∷ xs) (y ∷ ys) target h = h

-- Where the plan of writes has a target for a policy, the engine drives the policy at that target.
pub effective_target_for_policy-effective_policy_target :
    (t : Target) (p : CpufreqPolicy) (target : ℤ)
    → effective_policy_target p (requested_khz t) ≡ some target
    → effective_target_for_policy t p ≡ some target
unfolding effective_target_for_policy effective_policy_target
effective_target_for_policy-effective_policy_target t p target h =
    within_agrees (requested_khz t) (lower_bounds p) (upper_bounds p) target h
