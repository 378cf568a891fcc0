-- ===== src/Errors/Names.antt =====
-- The codes of include/tbox/prov/errors.h and their wire values.
use iov_vehicle_tbox_prov.Base.{ℕ, ◌≡◌, refl, Bool, true, false, arith}
use iov_vehicle_tbox_prov.Errors.{ErrorCode, success, unnamed, code_value, of_value}

-- A code that an enumerator names.
abbrev pub is_named : ErrorCode → Bool
is_named (unnamed n) = false
is_named _ = true

-- The cast takes the value of a named code back to the code.
pub of_value-code_value : (c : ErrorCode) → is_named c ≡ true → of_value (code_value c) ≡ c
unfolding of_value code_value
of_value-code_value (unnamed n) h = ground arith
of_value-code_value success h = refl
of_value-code_value _ h = refl

-- No value is lost by the cast.
pub code_value-of_value : (n : ℕ) → code_value (of_value n) ≡ n
unfolding of_value code_value
code_value-of_value n = ground arith
