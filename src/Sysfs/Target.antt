-- ===== src/Sysfs/Target.antt =====
-- `_effective_policy_target` of boostlock/sysfs.py: one request inside a policy's interval.
pub mod Clamp
use boostlock.Prelude.{Option, none, some, List, [], ◌∷◌, if◌then◌else◌}
use boostlock.Prelude.Int.{ℤ, pos, ltb_ℤ, max_ℤ, min_ℤ}
use boostlock.Sysfs.Policy.{CpufreqPolicy}

-- `if limit is not None and limit > 0`
abbrev pub positive : Option ℤ → List ℤ → List ℤ
positive none rest = rest
positive (some limit) rest = if ltb_ℤ (pos 0) limit then limit ∷ rest else rest

unfoldable pub lower_bounds : CpufreqPolicy → List ℤ
lower_bounds p = positive p.hardware_min_khz (positive p.active_min_khz [])

unfoldable pub upper_bounds : CpufreqPolicy → List ℤ
upper_bounds p = positive p.hardware_max_khz (positive p.active_max_khz [])

-- max(...) and min(...) of a list with a first element
unfoldable pub maximum : ℤ → List ℤ → ℤ
maximum m [] = m
maximum m (x ∷ xs) = maximum (max_ℤ m x) xs

unfoldable pub minimum : ℤ → List ℤ → ℤ
minimum m [] = m
minimum m (x ∷ xs) = minimum (min_ℤ m x) xs

-- the interval, unless it is unknown or empty
unfoldable pub interval : List ℤ → List ℤ → Option (ℤ × ℤ)
interval [] _ = none
interval (x ∷ xs) [] = none
interval (x ∷ xs) (y ∷ ys) =
    let lower = maximum x xs in
    let upper = minimum y ys in if ltb_ℤ upper lower then none else some (lower, upper)

abbrev pub request_or : ℤ → Option ℤ → ℤ
request_or upper none = upper
request_or upper (some target) = target

abbrev pub clamp_into : Option ℤ → Option (ℤ × ℤ) → Option ℤ
clamp_into target none = none
clamp_into target (some (lower, upper)) = some (min_ℤ (max_ℤ (request_or upper target) lower) upper)

unfoldable pub effective_policy_target : CpufreqPolicy → Option ℤ → Option ℤ
effective_policy_target p target = clamp_into target (interval (lower_bounds p) (upper_bounds p))
