-- ===== src/Thermal/Guard.antt =====
-- `ThermalGuard` of boostlock/thermal.py: thresholds, the tripwire latch and the duty clamp.
pub mod Invariant
pub mod Latch
use boostlock.Prelude.{
  String, Bool, true, false, not, ◌&&◌, ◌||◌, Option, none, some, List, [], ◌∷◌, ◌++◌,
  if◌then◌else◌,
}
use boostlock.Prelude.Float
use boostlock.Prelude.Float.{Float}
use boostlock.Prelude.Dict.{Dict}
use boostlock.Thermal.Sensor.{ThermalSensor, Files, read_temp_c, read_all, target_sensors}
use boostlock.Thermal.Filter.{SpikeFilter, add_sample}
use boostlock.Thermal.Rapl.{RaplMonitor, RaplReading, PowerFiles, read_power}

pub data ThermalState : Type 0 where
  normal warning throttled critical : ThermalState

pub record ThermalGuard (F : Float) : Type 0 where
  pub thermal_warn_c : F.Num
  pub thermal_limit_c : F.Num
  pub thermal_recover_c : F.Num
  -- whether the callbacks are given
  pub on_warning : Bool
  pub on_tripwire : Bool
  pub on_recovery : Bool
  pub filter : SpikeFilter F
  pub rapl : RaplMonitor F
  pub sensors : List ThermalSensor
  pub state : ThermalState
  pub is_tripped : Bool
  pub clamp_factor : F.Num
  pub current_temp_c : F.Num

pub record ThermalReading (F : Float) : Type 0 where
  pub timestamp : F.Num
  pub current_temp_c : F.Num
  pub sensors : Dict String F.Num
  pub state : ThermalState
  pub clamp_factor : F.Num
  pub is_tripped : Bool
  pub package_power_w : Option F.Num

-- A callback that an update makes. Its exception is caught and logged, so the guard goes on.
pub data Callback (F : Float) : Type 0 where
  call_warning : F.Num → Callback F
  call_tripwire call_recovery : Callback F

module _ (F : Float) where
  open F use {Num, le, lit}

  -- the highest reading of the target sensors, filtered, or 50.0 where none can be read
  unfoldable pub highest : Num → List Num → Num
  highest m [] = m
  highest m (t ∷ ts) = highest (if Float.lt F m t then t else m) ts

  abbrev filtered : ThermalGuard F → List Num → ThermalGuard F × Num
  filtered g [] = (g, lit 500000)
  filtered g (t ∷ ts) =
      let (f, temp) = add_sample F (highest t ts) g.filter in (record g { filter = f }, temp)

  unfoldable pub get_cpu_temperature : Files F → ThermalGuard F → ThermalGuard F × Num
  get_cpu_temperature files g = filtered g (read_all F files (target_sensors F g.sensors))

  abbrev cons_reading : String → Option Num → Dict String Num → Dict String Num
  cons_reading k none d = d
  cons_reading k (some t) d = (k, t) ∷ d

  -- `get_all_temperatures`; sensor ids are distinct
  unfoldable pub all_temperatures : Files F → List ThermalSensor → Dict String Num
  all_temperatures files [] = []
  all_temperatures files (s ∷ rest) =
      cons_reading s.sensor_id (read_temp_c F files s) (all_temperatures files rest)

  abbrev called : Bool → Callback F → List (Callback F)
  called true c = c ∷ []
  called false c = []

  -- the clamp between the warning and the limit: 1.0 falling to 0.0
  unfoldable pub warning_clamp : ThermalGuard F → Num → Num
  warning_clamp g temp =
      let span = Float.max F (lit 1) (F.sub g.thermal_limit_c g.thermal_warn_c) in
      Float.max F (lit 0) (Float.min F (lit 10000) (F.div (F.sub g.thermal_limit_c temp) span))

  -- the state transition of `update_state` at a temperature, with the callback that it makes
  unfoldable pub transition : Num → ThermalGuard F → ThermalGuard F × List (Callback F)
  transition temp g0 =
      let g = record g0 { current_temp_c = temp } in
      if le g.thermal_limit_c temp
      then (
        record g { state = critical; is_tripped = true; clamp_factor = lit 0 },
        called (not g.is_tripped && g.on_tripwire) call_tripwire,
      )
      else if g.is_tripped
      then (if le temp g.thermal_recover_c
          then (
            record g { state = normal; is_tripped = false; clamp_factor = lit 10000 },
            called g.on_recovery call_recovery,
          )
          else (record g { state = throttled; clamp_factor = lit 0 }, []))
      else if le g.thermal_warn_c temp
      then (
        record g { state = warning; clamp_factor = warning_clamp g temp },
        called g.on_warning (call_warning (warning_clamp g temp)),
      )
      else (record g { state = normal; clamp_factor = lit 10000 }, [])

  abbrev power_of : Option (RaplReading F) → Option Num
  power_of none = none
  power_of (some r) = r.power_w

  -- the package power is read last, and a reading is made of the new state
  abbrev finish :
      PowerFiles F
      → Dict String Num
      → ThermalGuard F × List (Callback F)
      → ThermalGuard F × ThermalReading F × List (Callback F)
  finish power temps (g, calls) =
      let (rapl, reading) = read_power F power g.rapl in
      (
        record g { rapl = rapl },
        record {
          timestamp = power.now;
          current_temp_c = g.current_temp_c;
          sensors = temps;
          state = g.state;
          clamp_factor = g.clamp_factor;
          is_tripped = g.is_tripped;
          package_power_w = power_of reading;
        },
        calls,
      )

  -- `update_state`, with a given temperature or with the sensors' one
  unfoldable pub update_state :
      Files F
      → PowerFiles F
      → Option Num
      → ThermalGuard F
      → ThermalGuard F × ThermalReading F × List (Callback F)
  update_state files power (some temp) g = finish power [] (transition temp g)
  update_state files power none g =
      let temps = all_temperatures files g.sensors in
      let (g', temp) = get_cpu_temperature files g in finish power temps (transition temp g')

  -- `_monitor_loop`: one update for each round's files, with the readings and callbacks in order
  unfoldable pub monitor :
      List (Files F × PowerFiles F)
      → ThermalGuard F
      → ThermalGuard F × List (ThermalReading F) × List (Callback F)
  monitor [] g = (g, [], [])
  monitor ((files, power) ∷ rounds) g =
      let (g', reading, calls) = update_state files power none g in
      let (g'', readings, more) = monitor rounds g' in (g'', reading ∷ readings, calls ++ more)

  abbrev is_critical : ThermalState → Bool
  is_critical critical = true
  is_critical _ = false

  -- the part of `calculate_duty_clamp` after the update
  unfoldable pub duty_clamp : Num → ThermalGuard F → Num
  duty_clamp requested g =
      if g.is_tripped || is_critical g.state
      then lit 0
      else Float.max F (lit 0) (F.mul requested g.clamp_factor)

  unfoldable pub calculate_duty_clamp :
      Files F → PowerFiles F → Num → Option Num → ThermalGuard F → ThermalGuard F × Num
  unfolding duty_clamp
  calculate_duty_clamp files power requested none g = (g, duty_clamp requested g)
  calculate_duty_clamp files power requested (some temp) g =
      let g' = (update_state files power (some temp) g).0 in (g', duty_clamp requested g')
