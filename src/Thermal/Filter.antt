-- ===== src/Thermal/Filter.antt =====
-- `SpikeFilter` of boostlock/thermal.py: a median over the last samples.
pub mod Bounds
use boostlock.Prelude.{
  ℕ, zero, suc, ◌-◌, ◌/◌, ◌%◌, Bool, ◌||◌, List, [], ◌∷◌, ◌++◌, ltb, ◌==◌, length, if◌then◌else◌,
}
use boostlock.Prelude.Float
use boostlock.Prelude.Float.{Float}

pub record SpikeFilter (F : Float) : Type 0 where
  pub window_size : ℕ
  pub min_temp_c : F.Num
  pub max_temp_c : F.Num
  pub history : List F.Num

module _ (F : Float) where
  open F use {Num, le, lit}

  -- SpikeFilter(window_size), with the default range
  unfoldable pub new : ℕ → SpikeFilter F
  new window = record {
    window_size = if ltb window 1 then 1 else window;
    min_temp_c = Float.neg_lit F 200000;
    max_temp_c = lit 1300000;
    history = [];
  }

  unfoldable pub insert_sorted : Num → List Num → List Num
  insert_sorted x [] = x ∷ []
  insert_sorted x (y ∷ ys) =
      let rest = insert_sorted x ys in if le x y then x ∷ y ∷ ys else y ∷ rest

  unfoldable pub sorted : List Num → List Num
  unfolding insert_sorted
  sorted [] = []
  sorted (x ∷ xs) = insert_sorted x (sorted xs)

  abbrev nth : List Num → ℕ → Num
  nth [] i = lit 0
  nth (x ∷ xs) zero = x
  nth (x ∷ xs) (suc i) = nth xs i

  -- statistics.median: the middle of the sorted data, or the mean of the middle two
  unfoldable pub median : List Num → Num
  unfolding sorted
  median xs =
      let n = length xs in
      let s = sorted xs in
      if n % 2 == 1
      then nth s (n / 2)
      else F.div (F.add (nth s (n / 2 - 1)) (nth s (n / 2))) (lit 20000)

  -- xs[-1], with a value for the empty list
  unfoldable pub last : Num → List Num → Num
  last d [] = d
  last d (x ∷ xs) = last x xs

  -- `if len > window: pop(0)`
  unfoldable pub trim : ℕ → List Num → List Num
  trim window [] = []
  trim window (x ∷ xs) = if ltb window (length (x ∷ xs)) then xs else x ∷ xs

  -- the last sample, or the bounded value where there is none
  unfoldable pub rejected : SpikeFilter F → Num → Num
  rejected f val = last (Float.max F f.min_temp_c (Float.min F f.max_temp_c val)) f.history

  unfoldable pub add_sample : Num → SpikeFilter F → SpikeFilter F × Num
  add_sample val f =
      if Float.lt F val f.min_temp_c || Float.lt F f.max_temp_c val
      then (f, rejected f val)
      else (let kept = trim f.window_size (f.history ++ val ∷ []) in
          (record f { history = kept }, median kept))

  unfoldable pub reset : SpikeFilter F → SpikeFilter F
  reset f = record f { history = [] }
