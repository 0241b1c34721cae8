-- ===== src/Sysfs/CpuRange/Members.antt =====
-- What a CPU range lists.
use boostlock.Prelude.{
  ℕ, zero, suc, String, Bool, true, false, not, ◌&&◌, ◌||◌, Option, none, some, List, [], ◌∷◌, All,
  str_eq, if◌then◌else◌, ◌≡◌, refl, ◌∙◌, ap, arith, Bool-cases, inl, inr,
}
use boostlock.Prelude.Int.{ℤ, pos, pos_part, leb_ℤ, ltb_ℤ, ◌+ℤ◌, ◌-ℤ◌}
use boostlock.Sysfs.CpuRange.{
  RangeText, range_from, range, add, update, bounds_cpus, single_cpu, dashed_cpus, part_cpus,
  collect, parse_cpu_range,
}

abbrev same : ℤ → ℤ → Bool
same a b = leb_ℤ a b && leb_ℤ b a

-- `n in cpus`
abbrev pub has : ℤ → List ℤ → Bool
has n [] = false
has n (m ∷ ms) = same n m || has n ms

abbrev pub Above : ℤ → List ℤ → Type 0
Above low cpus = All (λ k. ltb_ℤ low k ≡ true) cpus

-- strictly ascending, so without duplicates
abbrev pub IsAscending : List ℤ → Type 0
IsAscending [] = Unit
IsAscending (m ∷ ms) = Above m ms × IsAscending ms

ltb_trans : (a b c : ℤ) → ltb_ℤ a b ≡ true → ltb_ℤ b c ≡ true → ltb_ℤ a c ≡ true
ltb_trans a b c h1 h2 = ground arith

ltb_of_leb : (a b : ℤ) → leb_ℤ b a ≡ false → ltb_ℤ a b ≡ true
ltb_of_leb a b h = ground arith

has-add : (n m : ℤ) (cpus : List ℤ) → has n (add m cpus) ≡ (same n m || has n cpus)
unfolding add
has-add n m [] = refl
has-add n m (k ∷ ks) = ground (arith, has-add n m ks)

if_All :
    (low : ℤ) (b : Bool) (xs ys : List ℤ)
    → Above low xs
    → Above low ys
    → Above low (if b then xs else ys)
if_All low true xs ys hx hy = hx
if_All low false xs ys hx hy = hy

lower_All : (low n : ℤ) (cpus : List ℤ) → ltb_ℤ low n ≡ true → Above n cpus → Above low cpus
lower_All low n [] below all = tt
lower_All low n (k ∷ ks) below (above, all) =
    (ltb_trans low n k below above, lower_All low n ks below all)

All-add : (low n : ℤ) (cpus : List ℤ) → ltb_ℤ low n ≡ true → Above low cpus → Above low (add n cpus)
unfolding add
All-add low n [] below all = (below, tt)
All-add low n (k ∷ ks) below (above, all) =
    if_All low (leb_ℤ n k) _ _
      (if_All low (leb_ℤ k n) (k ∷ ks) (n ∷ k ∷ ks) (above, all) (below, (above, all)))
      (above, All-add low n ks below all)

add-IsAscending : (n : ℤ) (cpus : List ℤ) → IsAscending cpus → IsAscending (add n cpus)
unfolding add
add-IsAscending n [] ascending = (tt, tt)
add-IsAscending n (k ∷ ks) (above, ascending) = elim (Bool-cases (leb_ℤ n k)) [
  | inl below ↦ elim (Bool-cases (leb_ℤ k n)) [
    | inl equal ↦ rw (below, equal, add) (above, ascending)
    | inr less ↦
        rw (below, less, add)
          ((ltb_of_leb n k less, lower_All n k ks (ltb_of_leb n k less) above), (above, ascending))
  ]
  | inr greater ↦
      rw (greater, add)
        (All-add k n ks (ltb_of_leb k n greater) above, add-IsAscending n ks ascending)
]

update-IsAscending : (ns cpus : List ℤ) → IsAscending cpus → IsAscending (update ns cpus)
unfolding update
update-IsAscending [] cpus ascending = ascending
update-IsAscending (n ∷ ns) cpus ascending =
    update-IsAscending ns (add n cpus) (add-IsAscending n cpus ascending)

or_swap : (a b c : Bool) → (a || (b || c)) ≡ ((b || a) || c)
or_swap a b c = ground arith

has-update : (n : ℤ) (ns cpus : List ℤ) → has n (update ns cpus) ≡ (has n ns || has n cpus)
unfolding update
has-update n [] cpus = refl
has-update n (m ∷ ms) cpus =
    has-update n ms (add m cpus)
    ∙ ap (λ b. has n ms || b) (has-add n m cpus)
    ∙ or_swap (has n ms) (same n m) (has n cpus)

has-range_from :
    (n : ℤ) (count : ℕ) (start : ℤ)
    → has n (range_from count start) ≡ (leb_ℤ start n && ltb_ℤ n (start +ℤ pos count))
unfolding range_from ◌+ℤ◌
has-range_from n zero start = ground arith
has-range_from n (suc count) start = ground (arith, has-range_from n count (start +ℤ pos 1))

has-range : (n start end : ℤ) → has n (range start (end +ℤ pos 1)) ≡ (leb_ℤ start n && leb_ℤ n end)
unfolding ◌+ℤ◌ ◌-ℤ◌
has-range n start end = has-range_from n (pos_part ((end +ℤ pos 1) -ℤ start)) start ∙ ground arith

module _ (text : RangeText) where
  -- whether a part of the range names the CPU `n`
  abbrev within : ℤ → Option ℤ → Option ℤ → Bool
  within n (some start) (some end) = leb_ℤ start n && leb_ℤ n end
  within n _ _ = false

  abbrev is_it : ℤ → Option ℤ → Bool
  is_it n (some m) = same n m
  is_it n none = false

  abbrev names_dashed : ℤ → Option (String × String) → String → Bool
  names_dashed n (some (start_s, end_s)) part = within n (text.int start_s) (text.int end_s)
  names_dashed n none part = is_it n (text.int part)

  abbrev pub names_cpu : ℤ → String → Bool
  names_cpu n part = not (str_eq part "") && names_dashed n (text.split_dash part) part

  abbrev pub some_names : ℤ → List String → Bool
  some_names n [] = false
  some_names n (part ∷ parts) = names_cpu n (text.strip part) || some_names n parts

  has-bounds_cpus : (n : ℤ) (a b : Option ℤ) → has n (bounds_cpus text a b) ≡ within n a b
  has-bounds_cpus n (some start) (some end) = has-range n start end
  has-bounds_cpus n (some start) none = refl
  has-bounds_cpus n none b = refl

  has-single_cpu : (n : ℤ) (a : Option ℤ) → has n (single_cpu text a) ≡ is_it n a
  has-single_cpu n (some m) = ground arith
  has-single_cpu n none = refl

  has-dashed_cpus :
      (n : ℤ) (halves : Option (String × String)) (part : String)
      → has n (dashed_cpus text halves part) ≡ names_dashed n halves part
  has-dashed_cpus n (some (a, b)) part = has-bounds_cpus n (text.int a) (text.int b)
  has-dashed_cpus n none part = has-single_cpu n (text.int part)

  has-part_cpus : (n : ℤ) (part : String) → has n (part_cpus text part) ≡ names_cpu n part
  unfolding part_cpus
  has-part_cpus n part = elim (Bool-cases (str_eq part "")) [
    | inl empty ↦ rw (empty, part_cpus) refl
    | inr full ↦ rw (full, part_cpus) (has-dashed_cpus n (text.split_dash part) part)
  ]

  collect-IsAscending :
      (parts : List String) (cpus : List ℤ)
      → IsAscending cpus
      → IsAscending (collect text parts cpus)
  unfolding collect
  collect-IsAscending [] cpus ascending = ascending
  collect-IsAscending (part ∷ parts) cpus ascending =
      collect-IsAscending parts (update (part_cpus text (text.strip part)) cpus)
        (update-IsAscending (part_cpus text (text.strip part)) cpus ascending)

  has-collect :
      (n : ℤ) (parts : List String) (cpus : List ℤ)
      → has n (collect text parts cpus) ≡ (some_names n parts || has n cpus)
  unfolding collect
  has-collect n [] cpus = refl
  has-collect n (part ∷ parts) cpus =
      has-collect n parts (update (part_cpus text (text.strip part)) cpus)
      ∙ ap (λ b. some_names n parts || b)
          (has-update n (part_cpus text (text.strip part)) cpus
            ∙ ap (λ b. b || has n cpus) (has-part_cpus n (text.strip part)))
      ∙ or_swap (some_names n parts) (names_cpu n (text.strip part)) (has n cpus)

  or_none : (b : Bool) → (b || false) ≡ b
  or_none b = ground arith

  -- The CPUs of a range come strictly ascending, and an integer is among them exactly where one of
  -- the parts names it: a part without a dash as its value, one with a dash as a value from its first
  -- to its second bound, and a part that does not parse not at all.
  pub parse_cpu_range_lem :
      (range_str : String)
      → IsAscending (parse_cpu_range text range_str)
        × ((n : ℤ)
            → has n (parse_cpu_range text range_str) ≡ (
                not (str_eq (text.strip range_str) "")
                && some_names n (text.split_commas (text.strip range_str))))
  unfolding parse_cpu_range
  parse_cpu_range_lem range_str = elim (Bool-cases (str_eq (text.strip range_str) "")) [
    | inl empty ↦ rw (empty, parse_cpu_range) (tt, λ n. refl)
    | inr full ↦
        rw (full, parse_cpu_range)
          (
            collect-IsAscending (text.split_commas (text.strip range_str)) [] tt,
            λ n.
                has-collect n (text.split_commas (text.strip range_str)) []
                ∙ or_none (some_names n (text.split_commas (text.strip range_str))),
          )
  ]
