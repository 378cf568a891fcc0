-- ===== src/Vin.antt =====
-- src/vin_validator.cpp, include/vin_validator.h and the `VinConstraints` of
-- include/tbox/prov/types.h. `std::isalnum` and the like are those of the C locale.
pub mod Chars
pub mod Spec
pub mod Detection
use iov_vehicle_tbox_prov.Base.{
  ℕ, zero, suc, ◌+◌, ◌-◌, ◌*◌, ◌%◌, ◌==◌, leb, if◌then◌else◌, Bool, true, false, not, ◌&&◌, ◌||◌,
  Option, none, some, List, [], ◌∷◌, Str, codes, length, get_elem?,
}

abbrev pub vin_length : ℕ
vin_length = 17

abbrev pub excluded_chars : Str
excluded_chars = codes "IOQ"

abbrev pub check_digit_position : ℕ
check_digit_position = 9

abbrev is_lower : ℕ → Bool
is_lower c = leb b'a' c && leb c b'z'

abbrev pub is_upper : ℕ → Bool
is_upper c = leb b'A' c && leb c b'Z'

abbrev pub is_digit : ℕ → Bool
is_digit c = leb b'0' c && leb c b'9'

-- `std::isalpha`
abbrev is_alpha : ℕ → Bool
is_alpha c = is_upper c || is_lower c

-- `std::isalnum`
abbrev is_alnum : ℕ → Bool
is_alnum c = is_alpha c || is_digit c

-- `std::toupper`
unfoldable pub to_upper : ℕ → ℕ
to_upper c = if is_lower c then c - 32 else c

-- `std::string::find` of one character, as a test against `npos`
abbrev pub contains : Str → ℕ → Bool
contains [] c = false
contains (d ∷ s) c = d == c || contains s c

unfoldable pub check_length : Str → Bool
check_length vin = length vin == vin_length

-- One round of the loop of `check_charset`: false is its `return false`.
unfoldable pub char_allowed : ℕ → Bool
unfolding to_upper
char_allowed c = if not (is_alnum c) then false else not (contains excluded_chars (to_upper c))

unfoldable pub check_charset : Str → Bool
unfolding char_allowed
check_charset [] = true
check_charset (c ∷ rest) = if char_allowed c then check_charset rest else false

-- The `std::map` of the transliteration.
abbrev pub transliteration : List (ℕ × ℕ)
transliteration =
    (b'A', 1)
    ∷ (b'B', 2)
    ∷ (b'C', 3)
    ∷ (b'D', 4)
    ∷ (b'E', 5)
    ∷ (b'F', 6)
    ∷ (b'G', 7)
    ∷ (b'H', 8)
    ∷ (b'J', 1)
    ∷ (b'K', 2)
    ∷ (b'L', 3)
    ∷ (b'M', 4)
    ∷ (b'N', 5)
    ∷ (b'P', 7)
    ∷ (b'R', 9)
    ∷ (b'S', 2)
    ∷ (b'T', 3)
    ∷ (b'U', 4)
    ∷ (b'V', 5)
    ∷ (b'W', 6)
    ∷ (b'X', 7)
    ∷ (b'Y', 8)
    ∷ (b'Z', 9)
    ∷ (b'1', 1)
    ∷ (b'2', 2)
    ∷ (b'3', 3)
    ∷ (b'4', 4)
    ∷ (b'5', 5)
    ∷ (b'6', 6)
    ∷ (b'7', 7)
    ∷ (b'8', 8)
    ∷ (b'9', 9)
    ∷ (b'0', 0)
    ∷ []

unfoldable pub map_find : ℕ → List (ℕ × ℕ) → Option ℕ
map_find c [] = none
map_find c ((k, v) ∷ rest) = if k == c then some v else map_find c rest

abbrev pub weights : List ℕ
weights = 8 ∷ 7 ∷ 6 ∷ 5 ∷ 4 ∷ 3 ∷ 2 ∷ 10 ∷ 0 ∷ 9 ∷ 8 ∷ 7 ∷ 6 ∷ 5 ∷ 4 ∷ 3 ∷ 2 ∷ []

-- The value of one character in the loop: `transliteration.find(std::toupper(vin[i]))`.
unfoldable pub char_value : ℕ → Option ℕ
unfolding map_find to_upper
char_value c = map_find (to_upper c) transliteration

-- The loop of `calculate_check_digit` over the weights that are left; `none` is its early
-- return. Past the end of the text `vin[i]` is the terminating NUL, which the map lacks.
unfoldable pub weighted_sum : List ℕ → Str → ℕ → Option ℕ
unfolding char_value
weighted_sum [] vin sum = some sum
weighted_sum (w ∷ ws) [] sum = none
weighted_sum (w ∷ ws) (c ∷ vin) sum = elim (char_value c) [
  | none ↦ none
  | some v ↦ weighted_sum ws vin (sum + v * w)
]

-- The remainder of the weighted sum as a character.
unfoldable pub remainder_digit : ℕ → ℕ
remainder_digit sum = let remainder = sum % 11 in if remainder == 10 then b'X' else b'0' + remainder

unfoldable pub calculate_check_digit : Str → ℕ
unfolding weighted_sum remainder_digit
calculate_check_digit vin = elim (weighted_sum weights vin 0) [
  | none ↦ b'X'
  | some sum ↦ remainder_digit sum
]

-- `vin[i]`, NUL at the end of the text.
abbrev pub char_at : Str → ℕ → ℕ
char_at vin i = elim (get_elem? vin i) [ none ↦ 0 | some c ↦ c ]

unfoldable pub check_digit : Str → Bool
unfolding calculate_check_digit to_upper
check_digit vin =
    if not (length vin == vin_length)
    then false
    else calculate_check_digit vin == to_upper (char_at vin (check_digit_position - 1))

unfoldable pub validate : Str → Bool
unfolding check_length check_charset check_digit
validate vin = check_length vin && check_charset vin && check_digit vin

-- The three messages of `get_validation_error`, and its empty text.
pub data ValidationError : Type 0 where
  no_error bad_length bad_charset bad_check_digit : ValidationError

unfoldable pub get_validation_error : Str → ValidationError
unfolding check_length check_charset check_digit
get_validation_error vin =
    if not (check_length vin)
    then bad_length
    else if not (check_charset vin)
    then bad_charset
    else if not (check_digit vin)
    then bad_check_digit
    else no_error

-- The integer that `char_to_value` returns: `none` is its -1.
unfoldable pub char_to_value : ℕ → Option ℕ
unfolding to_upper
char_to_value c =
    let u = to_upper c in
    if is_digit u
    then some (u - b'0')
    else if is_alpha u
    then (if u == b'I' || u == b'O' || u == b'Q' then none else some (u - b'A' + 1))
    else none
