-- ===== src/Sysfs/CpuRange.antt =====
-- `parse_cpu_range` of boostlock/sysfs.py. A set of CPUs is the list that `sorted` makes of it.
pub mod Members
use boostlock.Prelude.{
  ℕ, zero, suc, String, Bool, true, false, Option, none, some, List, [], ◌∷◌, map, str_eq,
  if◌then◌else◌,
}
use boostlock.Prelude.Int.{ℤ, pos, pos_part, leb_ℤ, ◌+ℤ◌, ◌-ℤ◌}

-- What the parsing calls on strings: `strip`, the split at commas, the split at the first dash, where
-- there is one, and `int`, which is none where it raises.
pub record RangeText : Type 0 where
  pub strip : String → String
  pub split_commas : String → List String
  pub split_dash : String → Option (String × String)
  pub int : String → Option ℤ

-- `range(start, start + count)`
unfoldable pub range_from : ℕ → ℤ → List ℤ
range_from zero start = []
range_from (suc count) start = start ∷ range_from count (start +ℤ pos 1)

abbrev pub range : ℤ → ℤ → List ℤ
range start stop = range_from (pos_part (stop -ℤ start)) start

-- `cpus.add(n)`
unfoldable pub add : ℤ → List ℤ → List ℤ
add n [] = n ∷ []
add n (m ∷ ms) =
    let rest = add n ms in
    if leb_ℤ n m then (if leb_ℤ m n then m ∷ ms else n ∷ m ∷ ms) else m ∷ rest

-- `cpus.update(ns)`
unfoldable pub update : List ℤ → List ℤ → List ℤ
unfolding add
update [] cpus = cpus
update (n ∷ ns) cpus = update ns (add n cpus)

module _ (text : RangeText) where
  abbrev pub bounds_cpus : Option ℤ → Option ℤ → List ℤ
  bounds_cpus (some start) (some end) = range start (end +ℤ pos 1)
  bounds_cpus _ _ = []

  abbrev pub single_cpu : Option ℤ → List ℤ
  single_cpu (some n) = n ∷ []
  single_cpu none = []

  -- what a part with a dash, or one without, adds
  abbrev pub dashed_cpus : Option (String × String) → String → List ℤ
  dashed_cpus (some (start_s, end_s)) part = bounds_cpus (text.int start_s) (text.int end_s)
  dashed_cpus none part = single_cpu (text.int part)

  unfoldable pub part_cpus : String → List ℤ
  unfolding range_from
  part_cpus part = if str_eq part "" then [] else dashed_cpus (text.split_dash part) part

  -- the loop over the parts
  unfoldable pub collect : List String → List ℤ → List ℤ
  unfolding part_cpus update
  collect [] cpus = cpus
  collect (part ∷ parts) cpus = collect parts (update (part_cpus (text.strip part)) cpus)

  unfoldable pub parse_cpu_range : String → List ℤ
  unfolding collect
  parse_cpu_range range_str =
      let stripped = text.strip range_str in
      if str_eq stripped "" then [] else collect (text.split_commas stripped) []
