-- ===== src/Prelude/Descriptors.antt =====
-- Sets of file descriptors.
use Prim.Native.Nat.{ℕ}
use mathlib.Core.Path.{◌≡◌, refl, fun_ext}
use mathlib.Core.Logic.{inl, inr}
use mathlib.Core.Bool.{Bool, true, false}
use boostlock.Prelude.Tests.{Bool-cases, ◌==◌, ==_iff, if◌then◌else◌}

-- a set of descriptors
abbrev pub Fds : Type 0
Fds = ℕ → Bool

abbrev pub with_fd : ℕ → Fds → Fds
with_fd fd fds n = if n == fd then true else fds n

abbrev pub without_fd : ℕ → Fds → Fds
without_fd fd fds n = if n == fd then false else fds n

pub without-with_fd : (fd : ℕ) (fds : Fds) → fds fd ≡ false → without_fd fd (with_fd fd fds) ≡ fds
without-with_fd fd fds h = fun_ext λ n. elim (Bool-cases (n == fd)) [
  | inl same ↦ let e : n ≡ fd = (==_iff n fd).0 same in rw (same, e, h)
  | inr other ↦ rw other refl
]
