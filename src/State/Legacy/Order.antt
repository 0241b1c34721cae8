-- ===== src/State/Legacy/Order.antt =====
-- The bounds of one CPU in `_restore_legacy_snapshot` of boostlock/state.py, against a kernel that
-- refuses a minimum above the maximum.
use Prim.Native.String.{◌++◌}
use boostlock.Prelude.{
  Option, none, ap, String, ◌⊎◌, true, false, ◌≡◌, refl, ◌∙◌, some, List, Result, ok, Bool-cases,
  inl, inr, arith,
}
use boostlock.Prelude.Int.{ℤ, pos, ◌≤ℤ◌, ltb_ℤ}
use boostlock.Prelude.Decimal.{str_ℤ}
use boostlock.Sysfs.Access.{
  SysfsError, SysfsFiles, content, done, Effect, write_file, get_scaling_min_freq,
  get_scaling_max_freq,
}
use boostlock.State.Legacy.{restore_cpu_bounds, write_bounds}

module _ {S : Type 0} (fs : SysfsFiles S) where
  abbrev min_path : ℤ → String
  min_path cpu = "devices/system/cpu/cpu" ++ str_ℤ cpu ++ "/cpufreq/scaling_min_freq"

  abbrev max_path : ℤ → String
  max_path cpu = "devices/system/cpu/cpu" ++ str_ℤ cpu ++ "/cpufreq/scaling_max_freq"

  -- what Python reads as an integer, blanks around it aside
  abbrev Denotes : String → ℤ → Type 0
  Denotes text n = fs.parse_int (fs.strip text) ≡ some n

  -- The two files of a CPU, as cpufreq keeps them: both are there and show the bounds, the minimum
  -- `a` is taken unless it is above the maximum, and the maximum `b` unless it is below the minimum.
  -- Python reads back the integer that it has written on a line of its own.
  pub record IsCpufreqNode (cpu : ℤ) (low high : S → ℤ) (a b : ℤ) : Type 0 where
    pub printed : (n : ℤ) → (n ≡ a) ⊎ (n ≡ b) → Denotes (fs.strip (str_ℤ n) ++ "\n") n
    pub min_there :
        (s : S) → (fs.exists (min_path cpu) s ≡ true) × (fs.is_file (min_path cpu) s ≡ true)
    pub max_there :
        (s : S) → (fs.exists (max_path cpu) s ≡ true) × (fs.is_file (max_path cpu) s ≡ true)
    pub min_shown :
        (s : S)
        → (text : String) × (fs.read_text (min_path cpu) s ≡ content text) × Denotes text (low s)
    pub max_shown :
        (s : S)
        → (text : String) × (fs.read_text (max_path cpu) s ≡ content text) × Denotes text (high s)
    pub min_taken :
        (text : String) (s : S)
        → Denotes text a
        → a ≤ℤ high s
        → (t : S) × (fs.write_text (min_path cpu) text s ≡ (done, t))
          × (low t ≡ a)
          × (high t ≡ high s)
    pub max_taken :
        (text : String) (s : S)
        → Denotes text b
        → low s ≤ℤ b
        → (t : S) × (fs.write_text (max_path cpu) text s ≡ (done, t))
          × (high t ≡ b)
          × (low t ≡ low s)

  -- `_read_int` of a text that is a number
  parsed_lem :
      (o : Option ℤ) {n : ℤ}
      → o ≡ some n
      → ◌≡◌ {A = Result SysfsError (Option ℤ)}
          (ok (elim o [ none ↦ some (pos 0) | some m ↦ some m ]))
          (ok (some n))
  parsed_lem none h = cc
  parsed_lem (some m) h = ap ok h

  min_read :
      (cpu : ℤ) (low high : S → ℤ) (a b : ℤ) (kernel : IsCpufreqNode cpu low high a b) (s : S)
      → get_scaling_min_freq fs (some (pos 0)) cpu s ≡ ok (some (low s))
  unfolding get_scaling_min_freq
  min_read cpu low high a b kernel s =
      let (text, shown, denotes) = kernel.min_shown s in
      rw ((kernel.min_there s).1, shown) (parsed_lem _ denotes)

  max_read :
      (cpu : ℤ) (low high : S → ℤ) (a b : ℤ) (kernel : IsCpufreqNode cpu low high a b) (s : S)
      → get_scaling_max_freq fs (some (pos 0)) cpu s ≡ ok (some (high s))
  unfolding get_scaling_max_freq
  max_read cpu low high a b kernel s =
      let (text, shown, denotes) = kernel.max_shown s in
      rw ((kernel.max_there s).1, shown) (parsed_lem _ denotes)

  write_file-done :
      (path value : String) (s t : S)
      → fs.exists path s ≡ true
      → fs.write_text path (fs.strip value ++ "\n") s ≡ (done, t)
      → write_file fs true path value s ≡ (ok true, t)
  unfolding write_file
  write_file-done path value s t there written = rw (there, written) refl

  module _ (online : S → Result SysfsError (List ℤ)) (cpu : ℤ) (low high : S → ℤ) (a b : ℤ)
      (kernel : IsCpufreqNode cpu low high a b) where
    abbrev pub AtBounds : Effect fs → Type 0
    AtBounds r = (r.0 ≡ ok tt) × (low r.1 ≡ a) × (high r.1 ≡ b)

    min_first :
        (s : S)
        → ltb_ℤ (high s) a ≡ false
        → a ≤ℤ b
        → AtBounds (write_bounds fs online cpu (high s) (some a) (some b) s)
    min_first s below ordered =
        let fits : a ≤ℤ high s = ground (arith, below) in
        let (t, written, low_t, high_t) = kernel.min_taken _ s (kernel.printed a (inl refl)) fits in
        let first = write_file-done (min_path cpu) (str_ℤ a) s t (kernel.min_there s).0 written in
        let (u, rewritten, high_u, low_u) =
          kernel.max_taken _ t (kernel.printed b (inr refl)) (rw low_t ordered) in
        let second =
          write_file-done (max_path cpu) (str_ℤ b) t u (kernel.max_there t).0 rewritten in
        rw (below, first, second) (refl, low_u ∙ low_t, high_u)

    max_first :
        (s : S)
        → ltb_ℤ (high s) a ≡ true
        → low s ≤ℤ high s
        → a ≤ℤ b
        → AtBounds (write_bounds fs online cpu (high s) (some a) (some b) s)
    max_first s above live ordered =
        let fits : low s ≤ℤ b = ground (arith, above, ordered, live) in
        let (t, written, high_t, low_t) = kernel.max_taken _ s (kernel.printed b (inr refl)) fits in
        let first = write_file-done (max_path cpu) (str_ℤ b) s t (kernel.max_there s).0 written in
        let (u, rewritten, low_u, high_u) =
          kernel.min_taken _ t (kernel.printed a (inl refl)) (rw high_t ordered) in
        let second =
          write_file-done (min_path cpu) (str_ℤ a) t u (kernel.min_there t).0 rewritten in
        rw (above, first, second) (refl, low_u, high_u ∙ high_t)

    -- Saved bounds that are in order are written in an order that the kernel accepts, whatever bounds
    -- the CPU has by then, and the files end with the saved bounds.
    pub restore_cpu_bounds-AtBounds :
        (s : S)
        → low s ≤ℤ high s
        → a ≤ℤ b
        → AtBounds (restore_cpu_bounds fs online cpu (some a) (some b) s)
    unfolding restore_cpu_bounds
    restore_cpu_bounds-AtBounds s live ordered = elim (Bool-cases (ltb_ℤ (high s) a)) [
      | inl above ↦
          rw
            (
              restore_cpu_bounds,
              min_read cpu low high a b kernel s,
              max_read cpu low high a b kernel s,
            )
            (max_first s above live ordered)
      | inr below ↦
          rw
            (
              restore_cpu_bounds,
              min_read cpu low high a b kernel s,
              max_read cpu low high a b kernel s,
            )
            (min_first s below ordered)
    ]
