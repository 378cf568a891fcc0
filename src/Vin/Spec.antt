-- ===== src/Vin/Spec.antt =====
-- An independent description of a VIN for src/vin_validator.cpp.
use iov_vehicle_tbox_prov.Base.{
  ℕ, ◌+◌, ◌*◌, ◌-◌, ◌%◌, ◌≤◌, ◌≡◌, ◌↔◌, refl, ◌==◌, leb, if◌then◌else◌, true, not, ◌&&◌, ◌||◌,
  Option-cases, inl, inr, Option, none, some, List, [], ◌∷◌, arith, Str, length, All, is_ascii,
}
use iov_vehicle_tbox_prov.Vin.{
  weights, to_upper, check_charset, check_length, check_digit, weighted_sum, validate,
  remainder_digit, calculate_check_digit, char_at, get_validation_error, no_error, bad_length,
  bad_charset, bad_check_digit,
}
use iov_vehicle_tbox_prov.Vin.Chars.{
  standard_value, has_value, char_value-eq-standard_value, valued_is_ascii,
  char_allowed-eq-has_value,
}

abbrev pub value_or_zero : ℕ → ℕ
value_or_zero c = elim (standard_value c) [ none ↦ 0 | some v ↦ v ]

-- The weighted total of a text.
abbrev pub total : List ℕ → Str → ℕ
total [] vin = 0
total (w ∷ ws) [] = 0
total (w ∷ ws) (c ∷ vin) = value_or_zero c * w + total ws vin

-- What a check character stands for: X is ten.
unfoldable pub check_value : ℕ → Option ℕ
check_value c =
    if c == b'X' || c == b'x'
    then some 10
    else if leb b'0' c && leb c b'9'
    then some (c - 48)
    else none

-- A VIN: seventeen characters that have a value, the ninth of which stands for the remainder of
-- the weighted total by eleven.
pub record IsVin (vin : Str) : Type 0 where
  pub long : length vin ≡ 17
  pub valued : All (λ c. has_value (standard_value c) ≡ true) vin
  pub balanced : check_value (char_at vin 8) ≡ some (total weights vin % 11)

check_charset_iff :
    (vin : Str) → (check_charset vin ≡ true) ↔ All (λ c. has_value (standard_value c) ≡ true) vin
unfolding check_charset
check_charset_iff [] = (λ _. tt, λ _. refl)
check_charset_iff (c ∷ vin) =
    ground
      (arith, check_charset_iff vin, char_allowed-eq-has_value c, char_value-eq-standard_value c)

pub weighted_sum-eq-total :
    (ws : List ℕ) (vin : Str) (acc : ℕ)
    → length ws ≤ length vin
    → All (λ c. has_value (standard_value c) ≡ true) vin
    → weighted_sum ws vin acc ≡ some (acc + total ws vin)
unfolding weighted_sum
weighted_sum-eq-total [] vin acc h all = ground arith
weighted_sum-eq-total (w ∷ ws) [] acc h all = absurd (omega arith)
weighted_sum-eq-total (w ∷ ws) (c ∷ vin) acc h all = elim (Option-cases (standard_value c)) [
  | inl e ↦ absurd (ground (arith, e))
  | inr (v, e) ↦
      ground (arith, e, char_value-eq-standard_value c, weighted_sum-eq-total ws vin (acc + v * w))
]

-- The character of a remainder is the (upper case) one that stands for it.
remainder_digit_iff :
    (t c : ℕ) → ((remainder_digit t == to_upper c) ≡ true) ↔ (check_value c ≡ some (t % 11))
unfolding remainder_digit check_value to_upper
remainder_digit_iff t c = ground arith

check_digit_iff :
    (vin : Str)
    → length vin ≡ 17
    → All (λ c. has_value (standard_value c) ≡ true) vin
    → (check_digit vin ≡ true) ↔ (check_value (char_at vin 8) ≡ some (total weights vin % 11))
unfolding check_digit calculate_check_digit
check_digit_iff vin long valued =
    rw (weighted_sum-eq-total weights vin 0 (omega arith) valued)
      (ground (arith, remainder_digit_iff (total weights vin) (char_at vin 8)))

validate_lem :
    (vin : Str) → validate vin ≡ (check_length vin && check_charset vin && check_digit vin)
unfolding validate
validate_lem vin = refl

check_length_iff : (vin : Str) → (check_length vin ≡ true) ↔ (length vin ≡ 17)
unfolding check_length
check_length_iff vin = ground arith

pub get_validation_error_lem :
    (vin : Str)
    → get_validation_error vin ≡ (
        if not (check_length vin)
        then bad_length
        else if not (check_charset vin)
        then bad_charset
        else if not (check_digit vin)
        then bad_check_digit
        else no_error)
unfolding get_validation_error
get_validation_error_lem vin = refl

-- `validate` accepts exactly the VINs of the independent description: seventeen characters that
-- have a value, the ninth of which stands for the weighted total modulo 11.
pub validate_iff : (vin : Str) → (validate vin ≡ true) ↔ IsVin vin
validate_iff vin = rw validate_lem (
  λ h.
      let long = (check_length_iff vin).0 (ground arith) in
      let valued = (check_charset_iff vin).0 (ground arith) in
      record {
        long = long;
        valued = valued;
        balanced = (check_digit_iff vin long valued).0 (ground arith);
      },
  λ v. ground (
    arith,
    (check_length_iff vin).1 v.long,
    (check_charset_iff vin).1 v.valued,
    (check_digit_iff vin v.long v.valued).1 v.balanced,
  ),
)

-- The message of `get_validation_error` is empty exactly for the texts that `validate` accepts.
pub get_validation_error_iff :
    (vin : Str) → (get_validation_error vin ≡ no_error) ↔ (validate vin ≡ true)
get_validation_error_iff vin = rw (get_validation_error_lem, validate_lem) (ground arith)

All-valued_is_ascii :
    (vin : Str) → All (λ c. has_value (standard_value c) ≡ true) vin → is_ascii vin ≡ true
All-valued_is_ascii [] h = refl
All-valued_is_ascii (c ∷ vin) h = ground (arith, All-valued_is_ascii vin h.1, valued_is_ascii c h.0)

pub validate-is_ascii : (vin : Str) → validate vin ≡ true → is_ascii vin ≡ true
validate-is_ascii vin h = All-valued_is_ascii vin ((validate_iff vin).0 h).valued
