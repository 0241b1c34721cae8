-- ===== src/Config.antt =====
-- boostlock/config.py: the settings, their validation and the duty alias.
pub mod Validity
use boostlock.Prelude.{
  ℕ, String, Bool, true, false, not, ◌&&◌, ◌||◌, List, [], ◌∷◌, Result, ok, err, raise_if, ◌>>=◌,
  ◌>>◌, if◌then◌else◌,
}
use boostlock.Prelude.Int.{ℤ, pos, leb_ℤ, ltb_ℤ}
use boostlock.Prelude.Float
use boostlock.Prelude.Float.{Float}

-- `target_frequency_khz`: "auto", an `int`, or a value of another type (a `bool` among them).
pub data Target : Type 0 where
  auto other : Target
  khz : ℤ → Target

pub data ConfigValidationError : Type 0 where
  bad_target bad_limit bad_warn bad_recover bad_min_duty bad_max_duty : ConfigValidationError
  bad_duty_order bad_step bad_poll bad_latency : ConfigValidationError

pub record BoostLockConfig (F : Float) : Type 0 where
  pub target_frequency_khz : Target
  pub min_pulse_duty_pct : F.Num
  pub max_pulse_duty_pct : F.Num
  pub duty_step_pct : F.Num
  pub thermal_limit_c : F.Num
  pub thermal_warn_c : F.Num
  pub thermal_recover_c : F.Num
  pub poll_interval_ms : ℤ
  pub dma_latency_us : ℤ
  pub governor : String
  pub epp : String
  pub pid_file : String
  pub socket_path : String
  pub snapshot_path : String
  pub log_file : String

-- the keys of a dict of new values that `from_dict` merges; it drops the unknown ones
pub data Setting (F : Float) : Type 0 where
  target_frequency_khz : Target → Setting F
  min_pulse_duty_pct max_pulse_duty_pct duty_step_pct : F.Num → Setting F
  thermal_limit_c thermal_warn_c thermal_recover_c : F.Num → Setting F
  poll_interval_ms dma_latency_us : ℤ → Setting F
  governor epp pid_file socket_path snapshot_path log_file : String → Setting F
  unknown : String → Setting F

-- the target test of `validate`
unfoldable pub accepts_target : Target → Bool
accepts_target auto = true
accepts_target other = false
accepts_target (khz n) = not (leb_ℤ n (pos 0) || ltb_ℤ (pos 10000000) n)

module _ (F : Float) where
  open F use {Num, le, lit}

  abbrev lt : Num → Num → Bool
  lt = Float.lt F

  unfoldable pub default : BoostLockConfig F
  default = record {
    target_frequency_khz = khz (pos 4000000);
    min_pulse_duty_pct = lit 50000;
    max_pulse_duty_pct = lit 500000;
    duty_step_pct = lit 20000;
    thermal_limit_c = lit 1000000;
    thermal_warn_c = lit 900000;
    thermal_recover_c = lit 850000;
    poll_interval_ms = pos 100;
    dma_latency_us = pos 0;
    governor = "performance";
    epp = "performance";
    pid_file = "/var/run/boostlock/boostlock.pid";
    socket_path = "/var/run/boostlock/boostlock.sock";
    snapshot_path = "/var/run/boostlock/snapshot.json";
    log_file = "/var/log/boostlock.log";
  }

  -- the setter of `pulse_duty_cycle`
  unfoldable pub set_pulse_duty_cycle : Num → BoostLockConfig F → BoostLockConfig F
  set_pulse_duty_cycle value c =
      let pct = if le value (lit 10000) then F.mul value (lit 1000000) else value in
      let c' = record c { min_pulse_duty_pct = pct } in
      if lt c'.max_pulse_duty_pct c'.min_pulse_duty_pct
      then record c' { max_pulse_duty_pct = pct }
      else c'

  unfoldable pub validate : BoostLockConfig F → Result ConfigValidationError (Unit {0})
  validate c = do
    raise_if (not (accepts_target c.target_frequency_khz)) bad_target
    raise_if (not (le (lit 500000) c.thermal_limit_c && le c.thermal_limit_c (lit 1150000)))
        bad_limit
    raise_if (not (le (lit 300000) c.thermal_warn_c && lt c.thermal_warn_c c.thermal_limit_c))
        bad_warn
    raise_if (not (le (lit 200000) c.thermal_recover_c && lt c.thermal_recover_c c.thermal_warn_c))
        bad_recover
    raise_if (not (le (lit 0) c.min_pulse_duty_pct && le c.min_pulse_duty_pct (lit 1000000)))
        bad_min_duty
    raise_if (not (le (lit 0) c.max_pulse_duty_pct && le c.max_pulse_duty_pct (lit 1000000)))
        bad_max_duty
    raise_if (lt c.max_pulse_duty_pct c.min_pulse_duty_pct) bad_duty_order
    raise_if (not (le (lit 1000) c.duty_step_pct && le c.duty_step_pct (lit 500000))) bad_step
    raise_if (ltb_ℤ c.poll_interval_ms (pos 10)) bad_poll
    raise_if (ltb_ℤ c.dma_latency_us (pos 0)) bad_latency

  -- one key of `merged.update(...)` followed by `from_dict`
  abbrev assign : BoostLockConfig F → Setting F → BoostLockConfig F
  assign c (target_frequency_khz v) = record c { target_frequency_khz = v }
  assign c (min_pulse_duty_pct v) = record c { min_pulse_duty_pct = v }
  assign c (max_pulse_duty_pct v) = record c { max_pulse_duty_pct = v }
  assign c (duty_step_pct v) = record c { duty_step_pct = v }
  assign c (thermal_limit_c v) = record c { thermal_limit_c = v }
  assign c (thermal_warn_c v) = record c { thermal_warn_c = v }
  assign c (thermal_recover_c v) = record c { thermal_recover_c = v }
  assign c (poll_interval_ms v) = record c { poll_interval_ms = v }
  assign c (dma_latency_us v) = record c { dma_latency_us = v }
  assign c (governor v) = record c { governor = v }
  assign c (epp v) = record c { epp = v }
  assign c (pid_file v) = record c { pid_file = v }
  assign c (socket_path v) = record c { socket_path = v }
  assign c (snapshot_path v) = record c { snapshot_path = v }
  assign c (log_file v) = record c { log_file = v }
  assign c (unknown _) = c

  unfoldable pub merge : BoostLockConfig F → List (Setting F) → BoostLockConfig F
  merge c [] = c
  merge c (s ∷ rest) = merge (assign c s) rest
