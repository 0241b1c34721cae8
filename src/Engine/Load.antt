-- ===== src/Engine/Load.antt =====
-- `ExternalLoadMonitor` of boostlock/engine.py, from the fields of the first line of /proc/stat.
pub mod Bounds
use boostlock.Prelude.{ℕ, ◌+◌, Option, none, some, List, [], ◌∷◌, sum, if◌then◌else◌}
use boostlock.Prelude.Int.{ℤ, pos, ◌-ℤ◌, leb_ℤ}
use boostlock.Prelude.Float
use boostlock.Prelude.Float.{Float}

pub record ExternalLoadMonitor : Type 0 where
  pub prev_idle : Option ℕ
  pub prev_total : Option ℕ

-- `fields[3] + (fields[4] if len(fields) > 4 else 0)`; `none` for fewer than four fields
unfoldable pub idle_ticks : List ℕ → Option ℕ
idle_ticks (_ ∷ _ ∷ _ ∷ idle ∷ []) = some idle
idle_ticks (_ ∷ _ ∷ _ ∷ idle ∷ iowait ∷ _) = some (idle + iowait)
idle_ticks _ = none

module _ (F : Float) where
  open F use {Num, lit}

  unfoldable pub busy_pct : ℤ → ℤ → Num
  busy_pct delta_idle delta_total =
      if leb_ℤ delta_total (pos 0)
      then lit 0
      else Float.max F (lit 0) (
          Float.min F (lit 1000000) (
            F.mul (lit 1000000)
              (F.sub (lit 10000) (F.div (F.of_ℤ delta_idle) (F.of_ℤ delta_total)))))

  abbrev since : Option ℕ → Option ℕ → ℕ → ℕ → Num
  since (some idle0) (some total0) idle total =
      busy_pct (pos idle -ℤ pos idle0) (pos total -ℤ pos total0)
  since _ _ idle total = lit 0

  abbrev sampled : ExternalLoadMonitor → ℕ → Option ℕ → ExternalLoadMonitor × Num
  sampled m total none = (m, lit 0)
  sampled m total (some idle) = (
    record { prev_idle = some idle; prev_total = some total },
    since m.prev_idle m.prev_total idle total,
  )

  -- `none`: the file is missing, does not start with "cpu ", or a field is no number.
  unfoldable pub get_external_load_pct :
      Option (List ℕ) → ExternalLoadMonitor → ExternalLoadMonitor × Num
  unfolding idle_ticks busy_pct
  get_external_load_pct none m = (m, lit 0)
  get_external_load_pct (some fields) m = sampled m (sum fields) (idle_ticks fields)
