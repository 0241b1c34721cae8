-- ===== src/State/Restore/Bounds.antt =====
-- `_restore_policy_bounds` of boostlock/state.py against a kernel that refuses a minimum above the
-- maximum.
use boostlock.Prelude.{
  String, Bool, true, false, ◌≡◌, refl, ◌∙◌, some, Result, ok, Bool-cases, inl, inr, arith,
}
use boostlock.Prelude.Int.{ℤ, ◌≤ℤ◌, ltb_ℤ}
use boostlock.Prelude.Decimal.{str_ℤ}
use boostlock.Sysfs.Policy.{active_min_frequency, active_max_frequency, CpufreqPolicy}
use boostlock.State.Snapshot.{PolicyStateSnapshot}
use boostlock.State.Restore.{write_live_policy_path, write_both, restore_policy_bounds, Written}

-- The two files of a policy, as cpufreq keeps them: each is there, the minimum `a` is taken unless it
-- is above the maximum, and the maximum `b` unless it is below the minimum.
pub record IsCpufreq {X S : Type 0} (is_file : String → S → Bool)
    (write : String → String → S → Result X (Unit {0}) × S) (min_path max_path : String)
    (low high : S → ℤ) (a b : ℤ) : Type 0 where
  pub min_there : (s : S) → is_file min_path s ≡ true
  pub max_there : (s : S) → is_file max_path s ≡ true
  pub min_taken :
      (s : S)
      → a ≤ℤ high s
      → ((write min_path (str_ℤ a) s).0 ≡ ok tt)
        × (low (write min_path (str_ℤ a) s).1 ≡ a)
        × (high (write min_path (str_ℤ a) s).1 ≡ high s)
  pub max_taken :
      (s : S)
      → low s ≤ℤ b
      → ((write max_path (str_ℤ b) s).0 ≡ ok tt)
        × (high (write max_path (str_ℤ b) s).1 ≡ b)
        × (low (write max_path (str_ℤ b) s).1 ≡ low s)

module _ {X S : Type 0} (resolve : String → String) (is_file : String → S → Bool)
    (write : String → String → S → Result X (Unit {0}) × S) where
  live_write :
      (path value : String) (s : S)
      → is_file path s ≡ true
      → (write path value s).0 ≡ ok tt
      → write_live_policy_path resolve is_file write (some path) value s
        ≡ (ok tt, (write path value s).1)
  unfolding write_live_policy_path
  live_write path value s there taken = rw (there, taken, write_live_policy_path) refl

  module _ (min_path max_path : String) (low high : S → ℤ) (a b : ℤ)
      (kernel : IsCpufreq is_file write min_path max_path low high a b) where
    -- the bounds after a restore that succeeds
    abbrev pub Restored : Written resolve is_file write → Type 0
    Restored r = (r.0 ≡ ok tt) × (low r.1 ≡ a) × (high r.1 ≡ b)

    min_first :
        (s : S)
        → a ≤ℤ high s
        → a ≤ℤ b
        → Restored (write_both resolve is_file write (some min_path) a (some max_path) b s)
    unfolding write_both
    min_first s fits ordered =
        let s1 = (write min_path (str_ℤ a) s).1 in
        let (ok1, low1, high1) = kernel.min_taken s fits in
        let (ok2, high2, low2) = kernel.max_taken s1 (rw low1 ordered) in
        rw
          (
            live_write min_path (str_ℤ a) s (kernel.min_there s) ok1,
            live_write max_path (str_ℤ b) s1 (kernel.max_there s1) ok2,
            write_both,
          )
          (refl, low2 ∙ low1, high2)

    max_first :
        (s : S)
        → low s ≤ℤ b
        → a ≤ℤ b
        → Restored (write_both resolve is_file write (some max_path) b (some min_path) a s)
    unfolding write_both
    max_first s fits ordered =
        let s1 = (write max_path (str_ℤ b) s).1 in
        let (ok1, high1, low1) = kernel.max_taken s fits in
        let (ok2, low2, high2) = kernel.min_taken s1 (rw high1 ordered) in
        rw
          (
            live_write max_path (str_ℤ b) s (kernel.max_there s) ok1,
            live_write min_path (str_ℤ a) s1 (kernel.min_there s1) ok2,
            write_both,
          )
          (refl, low2, high2 ∙ high1)

    -- Where the policy's own bounds are those that the files hold, and the saved bounds are in order,
    -- the two writes are made in an order that the kernel accepts, and the files end with the saved
    -- bounds.
    pub restore_policy_bounds-Restored :
        (p : CpufreqPolicy) (snapshot : PolicyStateSnapshot) (s : S)
        → p.writable_paths active_min_frequency ≡ some min_path
        → p.writable_paths active_max_frequency ≡ some max_path
        → p.active_min_khz ≡ some (low s)
        → p.active_max_khz ≡ some (high s)
        → snapshot.scaling_min_freq ≡ some a
        → snapshot.scaling_max_freq ≡ some b
        → low s ≤ℤ high s
        → a ≤ℤ b
        → Restored (restore_policy_bounds resolve is_file write p snapshot s)
    unfolding restore_policy_bounds
    restore_policy_bounds-Restored p snapshot s at_min at_max is_low is_high is_a is_b live
          ordered =
        let in_order_saved : ltb_ℤ b a ≡ false = ground (arith, ordered) in
        elim (Bool-cases (ltb_ℤ (high s) a)) [
          | inl above ↦
              let fits : low s ≤ℤ b = ground (arith, above, ordered, live) in
              rw
                (
                  is_a, is_b, in_order_saved, at_min, at_max, is_low, is_high, above,
                  restore_policy_bounds,
                )
                (max_first s fits ordered)
          | inr below ↦
              let fits : a ≤ℤ high s = ground (arith, below) in
              rw
                (
                  is_a, is_b, in_order_saved, at_min, at_max, is_low, is_high, below,
                  restore_policy_bounds,
                )
                (min_first s fits ordered)
        ]
