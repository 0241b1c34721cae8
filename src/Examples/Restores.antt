-- ===== src/Examples/Restores.antt =====
-- A restore of boostlock/state.py on one CPU whose bounds take three values.
use Prim.Native.String.{◌++◌}
use boostlock.Prelude.{
  ◌⊎◌, inl, inr, String, true, false, ◌≡◌, refl, some, List, [], ◌∷◌, Result, ok, arith, str_eq,
  if◌then◌else◌,
}
use boostlock.Prelude.Int.{ℤ, pos, ◌≤ℤ◌, leb_ℤ}
use boostlock.Prelude.Decimal.{str_ℤ}
use boostlock.Sysfs.Access.{SysfsError, SysfsFiles, content, Writing, done, write_failed}
use boostlock.State.Legacy.{restore_cpu_bounds}
use boostlock.State.Legacy.Order.{IsCpufreqNode, AtBounds, restore_cpu_bounds-AtBounds}

data Level : Type 0 where
  slow middle fast : Level

abbrev value : Level → ℤ
value slow = pos 3
value middle = pos 5
value fast = pos 8

abbrev digit_of : Level → String
digit_of slow = "3"
digit_of middle = "5"
digit_of fast = "8"

record Node : Type 0 where
  low : Level
  high : Level

abbrev min_file : String
min_file = "devices/system/cpu/cpu0/cpufreq/scaling_min_freq"

-- the writes that the example makes: 5 as the minimum, 8 as the maximum
abbrev write_text : String → String → Node → Writing × Node
write_text path text s =
    let minimum : Writing × Node =
      if leb_ℤ (pos 5) (value s.high)
      then (done, record s { low = middle })
      else (write_failed, s) in
    let maximum : Writing × Node = (done, record s { high = fast }) in
    if str_eq path min_file then minimum else maximum

abbrev fs : SysfsFiles Node
fs = record {
  exists = λ path s. true;
  is_file = λ path s. true;
  is_dir = λ path s. false;
  iterdir = λ path s. [];
  read_text = λ path s. content (digit_of (if str_eq path min_file then s.low else s.high));
  write_text = write_text;
  strip = λ text. if str_eq text "5\n" then "5" else if str_eq text "8\n" then "8" else text;
  split = λ text. text ∷ [];
  parse_int = λ text.
      if str_eq text "3"
      then some (pos 3)
      else if str_eq text "5"
      then some (pos 5)
      else some (pos 8);
}

abbrev online : Node → Result SysfsError (List ℤ)
online s = ok (pos 0 ∷ [])

abbrev low_of : Node → ℤ
low_of s = value s.low

abbrev high_of : Node → ℤ
high_of s = value s.high

shown : (l : Level) → fs.parse_int (fs.strip (digit_of l)) ≡ some (value l)
shown slow = refl
shown middle = refl
shown fast = refl

printed :
    (n : ℤ)
    → (n ≡ pos 5) ⊎ (n ≡ pos 8)
    → fs.parse_int (fs.strip (fs.strip (str_ℤ n) ++ "\n")) ≡ some n
unfolding str_ℤ
printed n (inl e) = rw e refl
printed n (inr e) = rw e refl

min_taken :
    (text : String) (l h : Level)
    → pos 5 ≤ℤ value h
    → (t : Node) × (fs.write_text min_file text (record { low = l; high = h }) ≡ (done, t))
      × (low_of t ≡ pos 5)
      × (high_of t ≡ value h)
min_taken text l slow fits = absurd (omega (arith, fits))
min_taken text l middle fits = (record { low = middle; high = middle }, refl, refl, refl)
min_taken text l fast fits = (record { low = middle; high = fast }, refl, refl, refl)

kernel : IsCpufreqNode fs (pos 0) low_of high_of (pos 5) (pos 8)
unfolding str_ℤ
kernel = record {
  printed = printed;
  min_there = λ s. (refl, refl);
  max_there = λ s. (refl, refl);
  min_shown = λ s. (digit_of s.low, refl, shown s.low);
  max_shown = λ s. (digit_of s.high, refl, shown s.high);
  min_taken = λ text s denotes fits. min_taken text s.low s.high fits;
  max_taken = λ text s denotes fits. (record { low = s.low; high = fast }, refl, refl, refl);
}

-- the live maximum is below the saved minimum
abbrev lowered : Node
lowered = record { low = slow; high = slow }

restore_cpu_bounds-AtBounds_example :
    AtBounds fs online
      (pos 0)
      low_of
      high_of
      (pos 5)
      (pos 8)
      kernel
      (restore_cpu_bounds fs online (pos 0) (some (pos 5)) (some (pos 8)) lowered)
restore_cpu_bounds-AtBounds_example =
    restore_cpu_bounds-AtBounds fs online (pos 0) low_of high_of (pos 5) (pos 8) kernel lowered
      (omega arith) (omega arith)
