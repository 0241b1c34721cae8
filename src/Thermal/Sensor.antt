-- ===== src/Thermal/Sensor.antt =====
-- `ThermalSensor` of boostlock/thermal.py, and the collection of readings.
use boostlock.Prelude.{String, Bool, ◌&&◌, Option, none, some, List, [], ◌∷◌, if◌then◌else◌}
use boostlock.Prelude.Float
use boostlock.Prelude.Float.{Float}

pub record ThermalSensor : Type 0 where
  pub sensor_id : String
  pub path : String
  pub is_cpu : Bool

module _ (F : Float) where
  open F use {Num, le, lit}

  -- What the sensor files hold when they are read: the number, or `none` where the file is missing
  -- or `float(raw)` raises.
  abbrev pub Files : Type 0
  Files = String → Option Num

  -- sysfs reports millidegrees; a reading outside -40..150 is dropped.
  unfoldable pub sane_temp_c : Num → Option Num
  sane_temp_c val =
      let temp_c =
        if Float.lt F (lit 10000000) (Float.abs F val) then F.div val (lit 10000000) else val in
      if le (Float.neg_lit F 400000) temp_c && le temp_c (lit 1500000) then some temp_c else none

  unfoldable pub read_temp_c : Files → ThermalSensor → Option Num
  unfolding sane_temp_c
  read_temp_c files s = elim (files s.path) [ none ↦ none | some val ↦ sane_temp_c val ]

  abbrev pub cons_some : Option Num → List Num → List Num
  cons_some none ts = ts
  cons_some (some t) ts = t ∷ ts

  -- the loop of `get_cpu_temperature` over the target sensors
  unfoldable pub read_all : Files → List ThermalSensor → List Num
  unfolding read_temp_c
  read_all files [] = []
  read_all files (s ∷ rest) = cons_some (read_temp_c files s) (read_all files rest)

  unfoldable pub cpu_sensors : List ThermalSensor → List ThermalSensor
  cpu_sensors [] = []
  cpu_sensors (s ∷ rest) = let others = cpu_sensors rest in if s.is_cpu then s ∷ others else others

  -- `cpu_sensors if cpu_sensors else self._sensors`
  unfoldable pub target_sensors : List ThermalSensor → List ThermalSensor
  unfolding cpu_sensors
  target_sensors sensors = elim (cpu_sensors sensors) [ [] ↦ sensors | s ∷ rest ↦ s ∷ rest ]
