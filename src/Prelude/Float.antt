-- ===== src/Prelude/Float.antt =====
-- Python's `float`, away from NaN: the operations that the program uses and the facts of IEEE
-- arithmetic that it relies on. Rounding to the nearest value is monotone, so each law below holds
-- of the rounded operations too.
use Prim.Native.Nat.{ℕ, ◌≤◌}
use mathlib.Core.Path.{◌≡◌}
use mathlib.Core.Bool.{Bool, true, false, not}
use native.Mathlib.Omega.{arith}
use boostlock.Prelude.Tests.{if◌then◌else◌}
use boostlock.Prelude.Int.{ℤ}

pub record Float : Type 1 where
  pub Num : Type 0
  -- a <= b
  pub le : Num → Num → Bool
  pub add : Num → Num → Num
  pub sub : Num → Num → Num
  pub mul : Num → Num → Num
  pub div : Num → Num → Num
  -- the value of an `int`
  pub of_ℤ : ℤ → Num
  -- the literal n / 10000: `lit 1000` is 0.1
  pub lit : ℕ → Num
  pub le_refl : (a : Num) → le a a ≡ true
  pub le_trans : (a b c : Num) → le a b ≡ true → le b c ≡ true → le a c ≡ true
  pub le_total : (a b : Num) → le a b ≡ false → le b a ≡ true
  pub lit_mono : (m n : ℕ) → m ≤ n → le (lit m) (lit n) ≡ true
  pub le-add : (a d : Num) → le (lit 0) d ≡ true → le a (add a d) ≡ true
  pub sub-le : (a d : Num) → le (lit 0) d ≡ true → le (sub a d) a ≡ true
  pub add_comm : (a b : Num) → add a b ≡ add b a
  pub mul_comm : (a b : Num) → mul a b ≡ mul b a
  pub mul_nonneg :
      (a b : Num) → le (lit 0) a ≡ true → le (lit 0) b ≡ true → le (lit 0) (mul a b) ≡ true
  -- a * f <= a for a nonnegative a and f <= 1.0
  pub mul-le : (a f : Num) → le (lit 0) a ≡ true → le f (lit 10000) ≡ true → le (mul a f) a ≡ true
  -- (a + b) / 2.0 lies between a and b
  pub mean_bounds :
      (a b : Num)
      → le a b ≡ true
      → (le a (div (add a b) (lit 20000)) ≡ true) × (le (div (add a b) (lit 20000)) b ≡ true)

module _ (F : Float) where
  open F use {Num, le, lit, le_refl, le_trans, le_total}

  -- a < b
  abbrev pub lt : Num → Num → Bool
  lt a b = not (le b a)

  -- -n / 10000
  abbrev pub neg_lit : ℕ → Num
  neg_lit n = F.sub (lit 0) (lit n)

  unfoldable pub abs : Num → Num
  abs a = if lt a (lit 0) then F.sub (lit 0) a else a

  -- `max(a, b)` returns its first argument unless the second is greater.
  unfoldable pub max : Num → Num → Num
  max a b = if lt a b then b else a

  unfoldable pub min : Num → Num → Num
  min a b = if lt b a then b else a

  pub lt→le : (a b : Num) → lt a b ≡ true → le a b ≡ true
  lt→le a b h = ground (arith, le_total b a)

  pub le_max_left : (a b : Num) → le a (max a b) ≡ true
  unfolding max
  le_max_left a b = ground (arith, le_refl a, le_total b a)

  pub le_max_right : (a b : Num) → le b (max a b) ≡ true
  unfolding max
  le_max_right a b = ground (arith, le_refl b, le_total b a)

  pub max-le : (a b c : Num) → le a c ≡ true → le b c ≡ true → le (max a b) c ≡ true
  unfolding max
  max-le a b c h k = ground arith

  pub min_le_left : (a b : Num) → le (min a b) a ≡ true
  unfolding min
  min_le_left a b = ground (arith, le_refl a, le_total a b)

  pub min_le_right : (a b : Num) → le (min a b) b ≡ true
  unfolding min
  min_le_right a b = ground (arith, le_refl b, le_total a b)

  pub le-min : (a b c : Num) → le c a ≡ true → le c b ≡ true → le c (min a b) ≡ true
  unfolding min
  le-min a b c h k = ground arith

  -- max(lo, min(hi, x)) lies between the two bounds.
  pub clamp_bounds :
      (lo hi x : Num)
      → le lo hi ≡ true
      → (le lo (max lo (min hi x)) ≡ true) × (le (max lo (min hi x)) hi ≡ true)
  clamp_bounds lo hi x h = (le_max_left lo (min hi x), max-le lo (min hi x) hi h (min_le_left hi x))
