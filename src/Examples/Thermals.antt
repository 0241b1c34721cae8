-- ===== src/Examples/Thermals.antt =====
-- Runs of boostlock/thermal.py: a sensor that reads 105 and then 60 degrees.
use boostlock.Prelude.{
  ◌≡◌, refl, true, false, arith, List, [], ◌∷◌, none, some, All, ◌+◌, ◌-◌, ◌%◌, ℕ,
}
use boostlock.Prelude.Float
use boostlock.Prelude.Fixed.{fixed}
use boostlock.Prelude.Int.{pos}
use boostlock.Thermal.Sensor.{
  Files, read_all, target_sensors, cpu_sensors, read_temp_c, sane_temp_c,
}
use boostlock.Thermal.Filter.{SpikeFilter, add_sample, trim, median, sorted, insert_sorted}
use boostlock.Thermal.Filter.Bounds.{IsValid, InRange, add_sample-IsValid}
use boostlock.Thermal.Rapl.{PowerFiles, energy_delta, read_power}
use boostlock.Thermal.Rapl.Wrap.{energy_delta-mod}
use boostlock.Thermal.Guard.{
  ThermalGuard, normal, throttled, monitor, update_state, get_cpu_temperature, highest, transition,
  all_temperatures,
}
use boostlock.Thermal.Guard.Invariant.{IsConsistent, update_state-IsConsistent}
use boostlock.Thermal.Guard.Latch.{
  tripwires, recoveries, latched, Held, Hot, monitor_balance, monitor_latch,
}

abbrev window : SpikeFilter fixed
window = record { window_size = 3; min_temp_c = 0; max_temp_c = 1300000; history = [] }

abbrev guard : ThermalGuard fixed
guard = record {
  thermal_warn_c = 900000;
  thermal_limit_c = 1000000;
  thermal_recover_c = 850000;
  on_warning = true;
  on_tripwire = true;
  on_recovery = true;
  filter = record { window_size = 1; min_temp_c = 0; max_temp_c = 1300000; history = [] };
  rapl = record { last_energy_uj = none; last_timestamp = 0; max_energy_range_uj = none };
  sensors = record { sensor_id = "cpu"; path = "temp1_input"; is_cpu = true } ∷ [];
  state = normal;
  is_tripped = false;
  clamp_factor = 10000;
  current_temp_c = 500000;
}

abbrev tripped : ThermalGuard fixed
tripped = record guard { state = throttled; is_tripped = true; clamp_factor = 0 }

abbrev at_temp : ℕ → Files fixed × PowerFiles fixed
at_temp t = (λ path. some t, record { available = false; name = none; energy_uj = none; now = 0 })

abbrev hot_then_cool : List (Files fixed × PowerFiles fixed)
hot_then_cool = at_temp 1050000000 ∷ at_temp 600000000 ∷ []

-- the hot round trips, the cool one recovers
monitor_test :
    (tripwires fixed (monitor fixed hot_then_cool guard).2 ≡ 1)
    × (recoveries fixed (monitor fixed hot_then_cool guard).2 ≡ 1)
unfolding monitor update_state get_cpu_temperature highest transition read_all target_sensors
    cpu_sensors read_temp_c sane_temp_c add_sample trim median sorted insert_sorted read_power
    all_temperatures Float.abs
monitor_test = (refl, refl)

add_sample-IsValid_example :
    IsValid fixed (add_sample fixed 455000 window).0
    × InRange fixed 0 1300000 (add_sample fixed 455000 window).1
add_sample-IsValid_example =
    add_sample-IsValid fixed window 455000
      (record { window_pos = omega arith; range = refl; fits = omega arith; samples = tt })

energy_delta-mod_example :
    energy_delta (pos 5) (pos 90) (some (pos 100)) ≡ pos ((5 + 100 - 90) % 100)
energy_delta-mod_example = energy_delta-mod 5 90 100 (omega arith) (omega arith)

update_state-IsConsistent_example :
    IsConsistent fixed (update_state fixed (at_temp 0).0 (at_temp 0).1 (some 950000) guard).0
update_state-IsConsistent_example =
    update_state-IsConsistent fixed (at_temp 0).0 (at_temp 0).1 (some 950000) guard

monitor_balance_example :
    let (h, _, calls) = monitor fixed hot_then_cool guard in
    tripwires fixed calls + latched fixed guard ≡ recoveries fixed calls + latched fixed h
monitor_balance_example = monitor_balance fixed hot_then_cool guard refl refl

readings-Hot : All (Hot fixed 850000) (monitor fixed (at_temp 900000000 ∷ []) tripped).1
unfolding monitor update_state get_cpu_temperature highest transition read_all target_sensors
    cpu_sensors read_temp_c sane_temp_c add_sample trim median sorted insert_sorted read_power
    all_temperatures Float.abs
readings-Hot = (refl, tt)

monitor_latch_example :
    ((monitor fixed (at_temp 900000000 ∷ []) tripped).0.is_tripped ≡ true)
    × All (Held fixed) (monitor fixed (at_temp 900000000 ∷ []) tripped).1
    × ((monitor fixed (at_temp 900000000 ∷ []) tripped).2 ≡ [])
monitor_latch_example = monitor_latch fixed (at_temp 900000000 ∷ []) tripped refl readings-Hot
