-- ===== src/Sysfs/Target/Clamp.antt =====
-- The target lies in every known bound of its own policy, and an allowed request is kept.
use boostlock.Prelude.{
  ◌≡◌, ap, false, Bool-cases, Option-cases, Option, none, some, List, [], ◌∷◌, All, arith, ◌⊎◌, inl,
  inr,
}
use boostlock.Prelude.Int.{ltb_ℤ, ℤ, pos, ◌≤ℤ◌, max_ℤ, min_ℤ, eq_of_parts}
use boostlock.Sysfs.Policy.{CpufreqPolicy}
use boostlock.Sysfs.Target.{
  positive, lower_bounds, upper_bounds, maximum, minimum, interval, request_or,
  effective_policy_target,
}

le-max_ℤ : (a b : ℤ) → (a ≤ℤ max_ℤ a b) × (b ≤ℤ max_ℤ a b)
le-max_ℤ a b = ground arith

min_ℤ-le : (a b : ℤ) → (min_ℤ a b ≤ℤ a) × (min_ℤ a b ≤ℤ b)
min_ℤ-le a b = ground arith

≤ℤ_trans : (a b c : ℤ) → a ≤ℤ b → b ≤ℤ c → a ≤ℤ c
≤ℤ_trans a b c h k = omega arith

le-maximum : (m : ℤ) (xs : List ℤ) → (m ≤ℤ maximum m xs) × All (λ x. x ≤ℤ maximum m xs) xs
unfolding maximum
le-maximum m [] = (omega arith, tt)
le-maximum m (x ∷ xs) =
    let (top, rest) = le-maximum (max_ℤ m x) xs in
    let (left, right) = le-max_ℤ m x in (≤ℤ_trans m _ _ left top, (≤ℤ_trans x _ _ right top, rest))

minimum-le : (m : ℤ) (xs : List ℤ) → (minimum m xs ≤ℤ m) × All (λ x. minimum m xs ≤ℤ x) xs
unfolding minimum
minimum-le m [] = (omega arith, tt)
minimum-le m (x ∷ xs) =
    let (low, rest) = minimum-le (min_ℤ m x) xs in
    let (left, right) = min_ℤ-le m x in (≤ℤ_trans _ _ m low left, (≤ℤ_trans _ _ x low right, rest))

-- `t` respects every bound of the lists.
abbrev pub Within : ℤ → List ℤ → List ℤ → Type 0
Within t lows highs = All (λ x. x ≤ℤ t) lows × All (λ x. t ≤ℤ x) highs

All_le_trans : (a b : ℤ) (xs : List ℤ) → a ≤ℤ b → All (λ x. x ≤ℤ a) xs → All (λ x. x ≤ℤ b) xs
All_le_trans a b [] h k = tt
All_le_trans a b (x ∷ xs) h k = (≤ℤ_trans x a b k.0 h, All_le_trans a b xs h k.1)

All_ge_trans : (a b : ℤ) (xs : List ℤ) → a ≤ℤ b → All (λ x. b ≤ℤ x) xs → All (λ x. a ≤ℤ x) xs
All_ge_trans a b [] h k = tt
All_ge_trans a b (x ∷ xs) h k = (≤ℤ_trans a b x h k.0, All_ge_trans a b xs h k.1)

interval-Within :
    (lows highs : List ℤ) {l u : ℤ}
    → interval lows highs ≡ some (l, u)
    → (l ≤ℤ u) × All (λ x. x ≤ℤ l) lows × All (λ x. u ≤ℤ x) highs
unfolding interval
interval-Within [] highs h = cc
interval-Within (x ∷ xs) [] h = cc
interval-Within (x ∷ xs) (y ∷ ys) {l = l} {u = u} h =
    let e : (maximum x xs ≡ l) × (minimum y ys ≡ u) × (maximum x xs ≤ℤ minimum y ys) =
      (ground arith, ground arith, ground arith) in
    (
      rw (← e.0, ← e.1) e.2,
      All_le_trans (maximum x xs) l (x ∷ xs) (rw e.0 (omega arith)) (le-maximum x xs),
      All_ge_trans u (minimum y ys) (y ∷ ys) (rw e.1 (omega arith)) (minimum-le y ys),
    )

clamp_middle : (l u r : ℤ) → l ≤ℤ u → (l ≤ℤ min_ℤ (max_ℤ r l) u) × (min_ℤ (max_ℤ r l) u ≤ℤ u)
clamp_middle l u r h = ground arith

clamp_keeps : (l u r : ℤ) → l ≤ℤ r → r ≤ℤ u → min_ℤ (max_ℤ r l) u ≡ r
clamp_keeps l u r h k = ground (arith, eq_of_parts (min_ℤ (max_ℤ r l) u) r)

pub effective_policy_target-bounds :
    (p : CpufreqPolicy) (request : Option ℤ) {t : ℤ}
    → effective_policy_target p request ≡ some t
    → Within t (lower_bounds p) (upper_bounds p)
unfolding effective_policy_target
effective_policy_target-bounds p request {t} h =
    elim (Option-cases (interval (lower_bounds p) (upper_bounds p))) [
      | inl e ↦ absurd (ground (arith, e))
      | inr ((l, u), e) ↦
          let (le, lows, highs) = interval-Within (lower_bounds p) (upper_bounds p) e in
          let (low, high) = clamp_middle l u (request_or u request) le in
          let same : min_ℤ (max_ℤ (request_or u request) l) u ≡ t = ground (arith, e) in
          (
            All_le_trans l t (lower_bounds p) (rw (← same) low) lows,
            All_ge_trans t u (upper_bounds p) (rw (← same) high) highs,
          )
    ]

-- A limit is unknown, not above 0, or respected.
abbrev pub AtLeast : Option ℤ → ℤ → Type 0
AtLeast none t = Unit
AtLeast (some limit) t = (limit ≤ℤ pos 0) ⊎ (limit ≤ℤ t)

abbrev pub AtMost : Option ℤ → ℤ → Type 0
AtMost none t = Unit
AtMost (some limit) t = (limit ≤ℤ pos 0) ⊎ (t ≤ℤ limit)

positive-AtLeast :
    (limit : Option ℤ) (rest : List ℤ) (t : ℤ)
    → All (λ x. x ≤ℤ t) (positive limit rest)
    → AtLeast limit t × All (λ x. x ≤ℤ t) rest
positive-AtLeast none rest t h = (tt, h)
positive-AtLeast (some limit) rest t h = elim (Bool-cases (ltb_ℤ (pos 0) limit)) [
  | inl above ↦ let k = simp above at h in (inr k.0, k.1)
  | inr low ↦ let k = simp low at h in (inl (ground (arith, low)), k)
]

positive-AtMost :
    (limit : Option ℤ) (rest : List ℤ) (t : ℤ)
    → All (λ x. t ≤ℤ x) (positive limit rest)
    → AtMost limit t × All (λ x. t ≤ℤ x) rest
positive-AtMost none rest t h = (tt, h)
positive-AtMost (some limit) rest t h = elim (Bool-cases (ltb_ℤ (pos 0) limit)) [
  | inl above ↦ let k = simp above at h in (inr k.0, k.1)
  | inr low ↦ let k = simp low at h in (inl (ground (arith, low)), k)
]

-- the limits that the policy file and the hardware set, as far as they are known
pub record IsWithin (p : CpufreqPolicy) (t : ℤ) : Type 0 where
  pub hardware_min : AtLeast p.hardware_min_khz t
  pub active_min : AtLeast p.active_min_khz t
  pub hardware_max : AtMost p.hardware_max_khz t
  pub active_max : AtMost p.active_max_khz t

-- A target that is found is at least the hardware's and the active minimum of the policy and at most
-- the hardware's and the active maximum, each of them where it is known and above 0.
pub effective_policy_target-IsWithin :
    (p : CpufreqPolicy) (request : Option ℤ) {t : ℤ}
    → effective_policy_target p request ≡ some t
    → IsWithin p t
unfolding lower_bounds upper_bounds
effective_policy_target-IsWithin p request {t} h =
    let (lows, highs) = effective_policy_target-bounds p request h in
    let (hardware_min, low) = positive-AtLeast p.hardware_min_khz _ t lows in
    let (hardware_max, high) = positive-AtMost p.hardware_max_khz _ t highs in
    record {
      hardware_min = hardware_min;
      active_min = (positive-AtLeast p.active_min_khz [] t low).0;
      hardware_max = hardware_max;
      active_max = (positive-AtMost p.active_max_khz [] t high).0;
    }

maximum-le : (m r : ℤ) (xs : List ℤ) → m ≤ℤ r → All (λ x. x ≤ℤ r) xs → maximum m xs ≤ℤ r
unfolding maximum
maximum-le m r [] h all = h
maximum-le m r (x ∷ xs) h all =
    let top : max_ℤ m x ≤ℤ r = ground (arith, h, all.0) in maximum-le (max_ℤ m x) r xs top all.1

le-minimum : (m r : ℤ) (xs : List ℤ) → r ≤ℤ m → All (λ x. r ≤ℤ x) xs → r ≤ℤ minimum m xs
unfolding minimum
le-minimum m r [] h all = h
le-minimum m r (x ∷ xs) h all =
    let low : r ≤ℤ min_ℤ m x = ground (arith, h, all.0) in le-minimum (min_ℤ m x) r xs low all.1

-- A request within the bounds of a policy, of which one below and one above are known, is its target.
pub effective_policy_target_kept :
    (p : CpufreqPolicy) (r x y : ℤ) (xs ys : List ℤ)
    → lower_bounds p ≡ x ∷ xs
    → upper_bounds p ≡ y ∷ ys
    → Within r (x ∷ xs) (y ∷ ys)
    → effective_policy_target p (some r) ≡ some r
unfolding effective_policy_target interval
effective_policy_target_kept p r x y xs ys lows highs within =
    let low = maximum-le x r xs within.0.0 within.0.1 in
    let high = le-minimum y r ys within.1.0 within.1.1 in
    let ordered : ltb_ℤ (minimum y ys) (maximum x xs) ≡ false = ground (arith, low, high) in
    rw (lows, highs, ordered, effective_policy_target)
      (ap some (clamp_keeps (maximum x xs) (minimum y ys) r low high))
