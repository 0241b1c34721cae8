-- ===== src/Thermal/Rapl.antt =====
-- `RAPLMonitor.read_power` of boostlock/thermal.py: package power from the energy counter.
pub mod Wrap
use boostlock.Prelude.{String, Bool, false, not, ◌&&◌, Option, none, some, if◌then◌else◌}
use boostlock.Prelude.Int.{ℤ, pos, ◌+ℤ◌, ◌-ℤ◌, leb_ℤ, ltb_ℤ}
use boostlock.Prelude.Float
use boostlock.Prelude.Float.{Float}

pub record RaplMonitor (F : Float) : Type 0 where
  pub last_energy_uj : Option ℤ
  pub last_timestamp : F.Num
  pub max_energy_range_uj : Option ℤ

-- What the package directory and the clock show at one poll.
pub record PowerFiles (F : Float) : Type 0 where
  pub available : Bool
  pub name : Option String
  pub energy_uj : Option ℤ
  pub now : F.Num

pub record RaplReading (F : Float) : Type 0 where
  pub name : String
  pub energy_uj : ℤ
  pub power_w : Option F.Num
  pub timestamp : F.Num

-- `if delta_uj < 0 and self._max_energy_range_uj: delta_uj += ...`; a range of 0 is false
unfoldable pub energy_delta : ℤ → ℤ → Option ℤ → ℤ
energy_delta current prev none = current -ℤ prev
energy_delta current prev (some range) =
    let delta = current -ℤ prev in
    let is_zero = leb_ℤ range (pos 0) && leb_ℤ (pos 0) range in
    if ltb_ℤ delta (pos 0) && not is_zero then delta +ℤ range else delta

module _ (F : Float) where
  open F use {Num, lit}

  -- the power since the last reading, where there is one long enough ago
  unfoldable pub power_since : Option ℤ → Num → Option ℤ → ℤ → Num → Option Num
  unfolding energy_delta
  power_since none prev_time range current now = none
  power_since (some prev) prev_time range current now =
      let dt = F.sub now prev_time in
      let delta = energy_delta current prev range in
      if Float.lt F (lit 0) prev_time && Float.lt F (lit 1) dt && leb_ℤ (pos 0) delta
      then some (F.div (F.div (F.of_ℤ delta) (lit 10000000000)) dt)
      else none

  abbrev named : Option String → String
  named none = "package-0"
  named (some s) = s

  abbrev measured : RaplMonitor F → PowerFiles F → Option ℤ → RaplMonitor F × Option (RaplReading F)
  measured m files none = (m, none)
  measured m files (some current) = (
    record m { last_energy_uj = some current; last_timestamp = files.now },
    some (record {
      name = named files.name;
      energy_uj = current;
      power_w =
          power_since m.last_energy_uj m.last_timestamp m.max_energy_range_uj current files.now;
      timestamp = files.now;
    }),
  )

  unfoldable pub read_power : PowerFiles F → RaplMonitor F → RaplMonitor F × Option (RaplReading F)
  unfolding power_since
  read_power files m = if files.available then measured m files files.energy_uj else (m, none)
