-- ===== src/Thermal/Guard/Invariant.antt =====
-- What holds of the guard after every update, and the bounds of the duty that it grants.
use boostlock.Prelude.{◌≡◌, Bool, true, false, arith, Option, none, some}
use boostlock.Prelude.Float
use boostlock.Prelude.Float.{Float}
use boostlock.Thermal.Sensor.{Files}
use boostlock.Thermal.Rapl.{RaplMonitor, PowerFiles}
use boostlock.Thermal.Guard.{
  ThermalState, normal, warning, throttled, critical, ThermalGuard, warning_clamp, transition,
  update_state, get_cpu_temperature, duty_clamp,
}

module _ (F : Float) where
  open F use {Num, le, lit}

  -- the states and clamps that a tripped guard and a free one have
  abbrev pub Agrees : Bool → ThermalState → Num → Type 0
  Agrees true critical clamp = clamp ≡ lit 0
  Agrees true throttled clamp = clamp ≡ lit 0
  Agrees false normal clamp = clamp ≡ lit 10000
  Agrees false warning clamp = Unit
  Agrees _ _ clamp = ⊥

  -- The latch, the state and the clamp agree.
  pub record IsConsistent (g : ThermalGuard F) : Type 0 where
    pub agrees : Agrees g.is_tripped g.state g.clamp_factor
    pub clamp_low : le (lit 0) g.clamp_factor ≡ true
    pub clamp_high : le g.clamp_factor (lit 10000) ≡ true

  warning_clamp_bounds :
      (g : ThermalGuard F) (temp : Num)
      → (le (lit 0) (warning_clamp F g temp) ≡ true)
        × (le (warning_clamp F g temp) (lit 10000) ≡ true)
  unfolding warning_clamp
  warning_clamp_bounds g temp =
      Float.clamp_bounds F (lit 0) (lit 10000) _ (F.lit_mono 0 10000 (omega arith))

  transition-IsConsistent : (temp : Num) (g : ThermalGuard F) → IsConsistent (transition F temp g).0
  unfolding transition
  transition-IsConsistent temp g = ground (
    arith,
    warning_clamp_bounds (record g { current_temp_c = temp }) temp,
    F.le_refl (lit 0),
    F.le_refl (lit 10000),
    F.lit_mono 0 10000 (omega arith),
  )

  with_rapl :
      {g : ThermalGuard F} (r : RaplMonitor F)
      → IsConsistent g
      → IsConsistent (record g { rapl = r })
  with_rapl r v = record { agrees = v.agrees; clamp_low = v.clamp_low; clamp_high = v.clamp_high }

  -- Whatever the guard's past, the sensors and the power files: after an update the tripped guard
  -- is critical or throttled with a clamp of 0.0, any other is normal or warning, a normal one has
  -- a clamp of 1.0, and the clamp lies between 0.0 and 1.0.
  pub update_state-IsConsistent :
      (files : Files F) (power : PowerFiles F) (temp : Option Num) (g : ThermalGuard F)
      → IsConsistent (update_state F files power temp g).0
  unfolding update_state
  update_state-IsConsistent files power none g =
      let (g', temp) = get_cpu_temperature F files g in
      with_rapl _ (transition-IsConsistent temp g')
  update_state-IsConsistent files power (some temp) g = with_rapl _ (transition-IsConsistent temp g)

  -- The duty granted by a consistent guard for a nonnegative request lies between 0.0 and the
  -- request.
  pub duty_clamp_bounds :
      (requested : Num) (g : ThermalGuard F)
      → IsConsistent g
      → le (lit 0) requested ≡ true
      → (le (lit 0) (duty_clamp F requested g) ≡ true)
        × (le (duty_clamp F requested g) requested ≡ true)
  unfolding duty_clamp
  duty_clamp_bounds requested g h k =
      let d = F.mul requested g.clamp_factor in
      ground (
        arith,
        F.le_refl (lit 0),
        F.mul_nonneg requested g.clamp_factor k h.clamp_low,
        F.mul-le requested g.clamp_factor k h.clamp_high,
        Float.le_max_left F (lit 0) d,
        Float.max-le F (lit 0) d requested k,
      )
