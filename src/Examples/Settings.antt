-- ===== src/Examples/Settings.antt =====
-- Runs of boostlock/config.py on the default settings.
use boostlock.Prelude.{◌≡◌, ◌↔◌, refl, ok, err, [], ◌∷◌}
use boostlock.Prelude.Fixed.{fixed}
use boostlock.Config.{default, validate, merge, thermal_warn_c, bad_warn, accepts_target}
use boostlock.Config.Validity.{IsValid, validate-iff-IsValid}

-- a warning that is moved above the limit is refused
merge_test :
    validate fixed (merge fixed (default fixed) (thermal_warn_c 1010000 ∷ [])) ≡ err bad_warn
unfolding merge default validate accepts_target
merge_test = refl

default_checks : validate fixed (default fixed) ≡ ok tt
unfolding default validate accepts_target
default_checks = refl

default-IsValid : IsValid fixed (default fixed)
default-IsValid = (validate-iff-IsValid fixed (default fixed)).0 default_checks

validate-iff-IsValid_example :
    (validate fixed (default fixed) ≡ ok tt) ↔ IsValid fixed (default fixed)
validate-iff-IsValid_example = validate-iff-IsValid fixed (default fixed)
