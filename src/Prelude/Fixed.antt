-- ===== src/Prelude/Fixed.antt =====
-- Fixed-point numbers with four decimals, at which concrete runs are computed. Differences stop at 0.
use Prim.Native.Nat.{ℕ, ◌+◌, ◌-◌, ◌*◌, ◌/◌, ◌≤◌}
use mathlib.Core.Path.{◌≡◌}
use mathlib.Core.Bool.{true, false}
use native.Mathlib.Omega.{arith}
use boostlock.Prelude.Tests.{leb}
use boostlock.Prelude.Int.{pos_part}
use boostlock.Prelude.Float.{Float}

quotient_bound : (a f : ℕ) → f ≤ 10000 → a * f / 10000 ≤ a
quotient_bound a f h = grind arith

pub fixed_le_refl : (a : ℕ) → leb a a ≡ true
fixed_le_refl a = ground arith

pub fixed_le_trans : (a b c : ℕ) → leb a b ≡ true → leb b c ≡ true → leb a c ≡ true
fixed_le_trans a b c h k = ground arith

pub fixed_le_total : (a b : ℕ) → leb a b ≡ false → leb b a ≡ true
fixed_le_total a b h = ground arith

pub fixed_lit_mono : (m n : ℕ) → m ≤ n → leb m n ≡ true
fixed_lit_mono m n h = ground arith

pub fixed_le-add : (a d : ℕ) → leb 0 d ≡ true → leb a (a + d) ≡ true
fixed_le-add a d h = ground arith

pub fixed_sub-le : (a d : ℕ) → leb 0 d ≡ true → leb (a - d) a ≡ true
fixed_sub-le a d h = ground arith

pub fixed_add_comm : (a b : ℕ) → a + b ≡ b + a
fixed_add_comm a b = omega arith

pub fixed_mul_comm : (a b : ℕ) → a * b / 10000 ≡ b * a / 10000
fixed_mul_comm a b = omega arith

pub fixed_mean_bounds :
    (a b : ℕ)
    → leb a b ≡ true
    → (leb a ((a + b) * 10000 / 20000) ≡ true) × (leb ((a + b) * 10000 / 20000) b ≡ true)
fixed_mean_bounds a b h = (ground arith, ground arith)

pub fixed_mul_nonneg : (a b : ℕ) → leb 0 a ≡ true → leb 0 b ≡ true → leb 0 (a * b / 10000) ≡ true
fixed_mul_nonneg a b h k = ground arith

pub fixed_mul-le : (a f : ℕ) → leb 0 a ≡ true → leb f 10000 ≡ true → leb (a * f / 10000) a ≡ true
fixed_mul-le a f h k = ground (arith, quotient_bound a f)

abbrev pub fixed : Float
fixed = record {
  Num = ℕ;
  le = leb;
  add = λ a b. a + b;
  sub = λ a b. a - b;
  mul = λ a b. a * b / 10000;
  div = λ a b. a * 10000 / b;
  of_ℤ = λ z. pos_part z * 10000;
  lit = λ n. n;
  le_refl = fixed_le_refl;
  le_trans = fixed_le_trans;
  le_total = fixed_le_total;
  lit_mono = fixed_lit_mono;
  le-add = fixed_le-add;
  sub-le = fixed_sub-le;
  add_comm = fixed_add_comm;
  mul_comm = fixed_mul_comm;
  mul_nonneg = fixed_mul_nonneg;
  mul-le = fixed_mul-le;
  mean_bounds = fixed_mean_bounds;
}
