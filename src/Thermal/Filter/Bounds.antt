-- ===== src/Thermal/Filter/Bounds.antt =====
-- The filter's window and the range of what it returns.
use boostlock.Prelude.{
  ℕ, zero, suc, ◌-◌, ◌/◌, ◌%◌, ◌≤◌, ◌<◌, ◌≡◌, true, false, arith, inl, inr, Bool-cases, ◌==◌, ltb,
  ◌||◌, List, [], ◌∷◌, ◌++◌, All, All-append, length, length-append, if◌then◌else◌,
}
use boostlock.Prelude.Float
use boostlock.Prelude.Float.{Float}
use boostlock.Thermal.Filter.{
  SpikeFilter, insert_sorted, sorted, median, nth, last, trim, rejected, add_sample,
}

module _ (F : Float) where
  open F use {Num, le, lit, le_trans, le_total, mean_bounds}

  abbrev pub InRange : Num → Num → Num → Type 0
  InRange lo hi x = (le lo x ≡ true) × (le x hi ≡ true)

  -- At most `window_size` samples are kept, and each lies in the accepted range.
  pub record IsValid (f : SpikeFilter F) : Type 0 where
    pub window_pos : 0 < f.window_size
    pub range : le f.min_temp_c f.max_temp_c ≡ true
    pub fits : length f.history ≤ f.window_size
    pub samples : All (InRange f.min_temp_c f.max_temp_c) f.history

  length-insert_sorted : (x : Num) (xs : List Num) → length (insert_sorted F x xs) ≡ suc (length xs)
  unfolding insert_sorted
  length-insert_sorted x [] = omega arith
  length-insert_sorted x (y ∷ ys) = ground (arith, length-insert_sorted x ys)

  length-sorted : (xs : List Num) → length (sorted F xs) ≡ length xs
  unfolding sorted
  length-sorted [] = omega arith
  length-sorted (x ∷ xs) = omega (arith, length-insert_sorted x (sorted F xs), length-sorted xs)

  All-insert_sorted :
      (P : Num → Type 0) (x : Num) (xs : List Num) → P x → All P xs → All P (insert_sorted F x xs)
  unfolding insert_sorted
  All-insert_sorted P x [] h k = (h, tt)
  All-insert_sorted P x (y ∷ ys) h k =
      elim (le x y) as (λ b. All P (if b then x ∷ y ∷ ys else y ∷ insert_sorted F x ys)) [
        | true ↦ (h, k)
        | false ↦ (k.0, All-insert_sorted P x ys h k.1)
      ]

  All-sorted : (P : Num → Type 0) (xs : List Num) → All P xs → All P (sorted F xs)
  unfolding sorted
  All-sorted P [] h = h
  All-sorted P (x ∷ xs) h = All-insert_sorted P x (sorted F xs) h.0 (All-sorted P xs h.1)

  All-nth : (P : Num → Type 0) (xs : List Num) (i : ℕ) → All P xs → i < length xs → P (nth F xs i)
  All-nth P [] i h k = absurd (omega arith)
  All-nth P (x ∷ xs) zero h k = h.0
  All-nth P (x ∷ xs) (suc i) h k = All-nth P xs i h.1 (omega arith)

  -- the mean of two samples in range is in range
  mean-InRange :
      (lo hi a b : Num)
      → InRange lo hi a
      → InRange lo hi b
      → InRange lo hi (F.div (F.add a b) (lit 20000))
  mean-InRange lo hi a b h k =
      let m = F.div (F.add a b) (lit 20000) in
      elim (Bool-cases (le a b)) [
        | inl e ↦
            (le_trans lo a m h.0 (mean_bounds a b e).0, le_trans m b hi (mean_bounds a b e).1 k.1)
        | inr e ↦ rw (F.add_comm a b) (
          le_trans lo b (F.div (F.add b a) (lit 20000)) k.0 (mean_bounds b a (le_total a b e)).0,
          le_trans (F.div (F.add b a) (lit 20000)) a hi (mean_bounds b a (le_total a b e)).1 h.1,
        )
      ]

  -- The median of samples in a range lies in it.
  median-InRange :
      (lo hi : Num) (xs : List Num)
      → 0 < length xs
      → All (InRange lo hi) xs
      → InRange lo hi (median F xs)
  unfolding median
  median-InRange lo hi xs some_sample h =
      let n = length xs in
      let s = sorted F xs in
      let at_index =
        λ (i : ℕ) (p : i < length s). All-nth (InRange lo hi) s i (All-sorted _ xs h) p in
      elim (Bool-cases (n % 2 == 1)) [
        | inl odd ↦ rw odd (at_index (n / 2) (omega (arith, length-sorted xs)))
        | inr even ↦ rw even (
            mean-InRange lo hi _ _ (at_index (n / 2 - 1) (omega (arith, length-sorted xs)))
              (at_index (n / 2) (omega (arith, length-sorted xs))))
      ]

  All-last : (P : Num → Type 0) (x : Num) (xs : List Num) → P x → All P xs → P (last F x xs)
  unfolding last
  All-last P x [] h k = h
  All-last P x (y ∷ ys) h k = All-last P y ys k.0 k.1

  All-trim : (P : Num → Type 0) (w : ℕ) (xs : List Num) → All P xs → All P (trim F w xs)
  unfolding trim
  All-trim P w [] h = h
  All-trim P w (x ∷ xs) h = elim (Bool-cases (ltb w (length (x ∷ xs)))) [
    | inl long ↦ rw long h.1
    | inr short ↦ rw short h
  ]

  -- after one more sample the window is not empty and not overfull
  length-trim :
      (w : ℕ) (x : Num) (xs : List Num)
      → 0 < w
      → length xs ≤ w
      → (0 < length (trim F w (xs ++ x ∷ []))) × (length (trim F w (xs ++ x ∷ [])) ≤ w)
  unfolding trim
  length-trim w x [] h k = ground arith
  length-trim w x (y ∷ ys) h k = ground (arith, length-append ys (x ∷ []))

  accepted-IsValid :
      (f : SpikeFilter F) (val : Num)
      → IsValid f
      → InRange f.min_temp_c f.max_temp_c val
      → let kept = trim F f.window_size (f.history ++ val ∷ []) in
        IsValid (record f { history = kept }) × InRange f.min_temp_c f.max_temp_c (median F kept)
  accepted-IsValid f val h k =
      let P = InRange f.min_temp_c f.max_temp_c in
      let (some_sample, fits) = length-trim f.window_size val f.history h.window_pos h.fits in
      let kept =
        All-trim P f.window_size (f.history ++ val ∷ [])
          (All-append P f.history (val ∷ []) h.samples (k, tt)) in
      (
        record { window_pos = h.window_pos; range = h.range; fits = fits; samples = kept },
        median-InRange f.min_temp_c f.max_temp_c _ some_sample kept,
      )

  rejected-InRange :
      (f : SpikeFilter F) (val : Num)
      → IsValid f
      → InRange f.min_temp_c f.max_temp_c (rejected F f val)
  unfolding rejected
  rejected-InRange f val h =
      All-last (InRange f.min_temp_c f.max_temp_c) _ f.history
        (Float.clamp_bounds F f.min_temp_c f.max_temp_c val h.range) h.samples

  -- Every sample, a spike outside the range included, leaves the filter's window filled with
  -- accepted samples, at most `window_size` of them, and the value returned lies in the range.
  pub add_sample-IsValid :
      (f : SpikeFilter F) (val : Num)
      → IsValid f
      → IsValid (add_sample F val f).0 × InRange f.min_temp_c f.max_temp_c (add_sample F val f).1
  unfolding add_sample
  add_sample-IsValid f val h =
      elim (Bool-cases (Float.lt F val f.min_temp_c || Float.lt F f.max_temp_c val)) [
        | inl out ↦ rw out (h, rejected-InRange f val h)
        | inr within ↦ rw within (accepted-IsValid f val h (ground arith, ground arith))
      ]
