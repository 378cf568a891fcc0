-- ===== src/Tests/Vins.antt =====
-- The VIN validator at concrete texts.
use iov_vehicle_tbox_prov.Base.{ℕ, ◌≡◌, ◌≢◌, ◌↔◌, refl, arith, true, false, Str, codes}
use iov_vehicle_tbox_prov.Vin
use iov_vehicle_tbox_prov.Vin.Chars.{standard_value}
use iov_vehicle_tbox_prov.Vin.Spec.{IsVin, validate_iff}
use iov_vehicle_tbox_prov.Vin.Detection.{substitution_detected}
use iov_vehicle_tbox_prov.Tests.{vin}

abbrev wrong_vin : Str
wrong_vin = codes "1HGBH41J0MN109186"

nine-eight : ◌≢◌ {A = ℕ} 9 8
nine-eight h = omega arith

wrong_vin-validates : Vin.validate wrong_vin ≡ false
unfolding Vin.validate
wrong_vin-validates = refl

validate_iff_example : (Vin.validate vin ≡ true) ↔ IsVin vin
validate_iff_example = validate_iff vin

-- The second VIN differs at a character of the same value.
substitution_detected_example : standard_value 77 ≡ standard_value 68
unfolding Vin.validate
substitution_detected_example =
    substitution_detected (codes "1HGBH41JX") (codes "N109186") 77 68 nine-eight refl refl
