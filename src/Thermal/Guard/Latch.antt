-- ===== src/Thermal/Guard/Latch.antt =====
-- The tripwire as a latch over the rounds of the monitor: when it holds, and when it calls back.
use boostlock.Prelude.{ℕ, suc, ◌+◌, ◌≡◌, refl, true, false, arith, List, [], ◌∷◌, ◌++◌, All, none}
use boostlock.Prelude.Float.{Float}
use boostlock.Thermal.Sensor.{Files, read_all, target_sensors}
use boostlock.Thermal.Rapl.{PowerFiles}
use boostlock.Thermal.Guard.{
  ThermalGuard, ThermalReading, Callback, call_warning, call_tripwire, call_recovery, filtered,
  get_cpu_temperature, transition, update_state, monitor,
}

module _ (F : Float) where
  open F use {Num, le, lit}

  abbrev pub tripwires : List (Callback F) → ℕ
  tripwires [] = 0
  tripwires (call_tripwire ∷ cs) = suc (tripwires cs)
  tripwires (call_recovery ∷ cs) = tripwires cs
  tripwires (call_warning _ ∷ cs) = tripwires cs

  abbrev pub recoveries : List (Callback F) → ℕ
  recoveries [] = 0
  recoveries (call_tripwire ∷ cs) = recoveries cs
  recoveries (call_recovery ∷ cs) = suc (recoveries cs)
  recoveries (call_warning _ ∷ cs) = recoveries cs

  abbrev pub latched : ThermalGuard F → ℕ
  latched g = elim g.is_tripped [ true ↦ 1 | false ↦ 0 ]

  abbrev Same : ThermalGuard F → ThermalGuard F → Type 0
  Same g h =
      (h.is_tripped ≡ g.is_tripped)
      × (h.thermal_recover_c ≡ g.thermal_recover_c)
      × (h.on_tripwire ≡ g.on_tripwire)
      × (h.on_recovery ≡ g.on_recovery)

  filtered-Same : (g : ThermalGuard F) (ts : List Num) → Same g (filtered F g ts).0
  filtered-Same g [] = (refl, refl, refl, refl)
  filtered-Same g (t ∷ ts) = (refl, refl, refl, refl)

  get_cpu_temperature-Same :
      (files : Files F) (g : ThermalGuard F) → Same g (get_cpu_temperature F files g).0
  unfolding get_cpu_temperature
  get_cpu_temperature-Same files g = filtered-Same g (read_all F files (target_sensors F g.sensors))

  -- one transition keeps the settings, and balances the callbacks with the latch
  transition_step :
      (t : Num) (g : ThermalGuard F)
      → g.on_tripwire ≡ true
      → g.on_recovery ≡ true
      → let (h, calls) = transition F t g in
        (h.thermal_recover_c ≡ g.thermal_recover_c)
        × (h.on_tripwire ≡ true)
        × (h.on_recovery ≡ true)
        × (tripwires calls + latched g ≡ recoveries calls + latched h)
  unfolding transition
  transition_step t g p q = ground arith

  transition_latch :
      (t : Num) (g : ThermalGuard F)
      → g.is_tripped ≡ true
      → le t g.thermal_recover_c ≡ false
      → let (h, calls) = transition F t g in
        (h.is_tripped ≡ true)
        × (h.clamp_factor ≡ lit 0)
        × (h.current_temp_c ≡ t)
        × (h.thermal_recover_c ≡ g.thermal_recover_c)
        × (calls ≡ [])
  unfolding transition
  transition_latch t g p q = ground arith

  transition_temp : (t : Num) (g : ThermalGuard F) → (transition F t g).0.current_temp_c ≡ t
  unfolding transition
  transition_temp t g = ground arith

  update_step :
      (files : Files F) (power : PowerFiles F) (g : ThermalGuard F)
      → g.on_tripwire ≡ true
      → g.on_recovery ≡ true
      → let (h, _, calls) = update_state F files power none g in
        (h.on_tripwire ≡ true)
        × (h.on_recovery ≡ true)
        × (tripwires calls + latched g ≡ recoveries calls + latched h)
  unfolding update_state
  update_step files power g p q =
      let (g', temp) = get_cpu_temperature F files g in
      let (trip, _, on_trip, on_rec) = get_cpu_temperature-Same files g in
      ground (arith, transition_step temp g')

  update_latch :
      (files : Files F) (power : PowerFiles F) (g : ThermalGuard F)
      → g.is_tripped ≡ true
      → let (h, r, calls) = update_state F files power none g in
        le r.current_temp_c g.thermal_recover_c ≡ false
        → (h.is_tripped ≡ true)
          × (r.is_tripped ≡ true)
          × (r.clamp_factor ≡ lit 0)
          × (h.thermal_recover_c ≡ g.thermal_recover_c)
          × (calls ≡ [])
  unfolding update_state
  update_latch files power g p q =
      let (g', temp) = get_cpu_temperature F files g in
      let (trip, recover, _, _) = get_cpu_temperature-Same files g in
      ground (arith, transition_temp temp g', transition_latch temp g')

  tripwires-append :
      (xs ys : List (Callback F)) → tripwires (xs ++ ys) ≡ tripwires xs + tripwires ys
  tripwires-append [] ys = omega arith
  tripwires-append (call_tripwire ∷ xs) ys = omega (arith, tripwires-append xs ys)
  tripwires-append (call_recovery ∷ xs) ys = tripwires-append xs ys
  tripwires-append (call_warning _ ∷ xs) ys = tripwires-append xs ys

  recoveries-append :
      (xs ys : List (Callback F)) → recoveries (xs ++ ys) ≡ recoveries xs + recoveries ys
  recoveries-append [] ys = omega arith
  recoveries-append (call_tripwire ∷ xs) ys = recoveries-append xs ys
  recoveries-append (call_recovery ∷ xs) ys = omega (arith, recoveries-append xs ys)
  recoveries-append (call_warning _ ∷ xs) ys = recoveries-append xs ys

  -- Over any rounds of a monitor with both callbacks, the tripwire calls and the recovery calls
  -- balance: their numbers differ by the latch at the start and at the end, so a trip calls once.
  pub monitor_balance :
      (rounds : List (Files F × PowerFiles F)) (g : ThermalGuard F)
      → g.on_tripwire ≡ true
      → g.on_recovery ≡ true
      → let (h, _, calls) = monitor F rounds g in
        tripwires calls + latched g ≡ recoveries calls + latched h
  unfolding monitor
  monitor_balance [] g p q = refl
  monitor_balance ((files, power) ∷ rounds) g p q =
      let (h, _, calls) = update_state F files power none g in
      let (trip, recover, one) = update_step files power g p q in
      let (_, _, more) = monitor F rounds h in
      omega (
        arith,
        one,
        monitor_balance rounds h trip recover,
        tripwires-append calls more,
        recoveries-append calls more,
      )

  -- the reading says that the guard is tripped and grants nothing
  abbrev pub Held : ThermalReading F → Type 0
  Held r = (r.is_tripped ≡ true) × (r.clamp_factor ≡ lit 0)

  -- the reading lies above the recovery limit
  abbrev pub Hot : Num → ThermalReading F → Type 0
  Hot limit r = le r.current_temp_c limit ≡ false

  -- While every reading stays above the recovery limit, a tripped guard stays tripped, each
  -- reading has a clamp of 0.0, and no callback is made.
  pub monitor_latch :
      (rounds : List (Files F × PowerFiles F)) (g : ThermalGuard F)
      → g.is_tripped ≡ true
      → All (Hot g.thermal_recover_c) (monitor F rounds g).1
      → ((monitor F rounds g).0.is_tripped ≡ true)
        × All Held (monitor F rounds g).1
        × ((monitor F rounds g).2 ≡ [])
  unfolding monitor
  monitor_latch [] g p hot = (p, tt, refl)
  monitor_latch ((files, power) ∷ rounds) g p (now, later) =
      let h = (update_state F files power none g).0 in
      let (trip, held, clamp, recover, quiet) = update_latch files power g p now in
      let (end, all_held, silence) = monitor_latch rounds h trip (rw recover later) in
      (end, ((held, clamp), all_held), rw (quiet, silence) refl)
