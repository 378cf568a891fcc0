-- ===== src/Vin/Chars.antt =====
-- One character of a VIN: the map of src/vin_validator.cpp and the ISO 3779 table as arithmetic.
use iov_vehicle_tbox_prov.Base.{
  ℕ, ◌-◌, ◌≤◌, ◌<◌, ◌≡◌, refl, ◌==◌, leb, ltb, if◌then◌else◌, Bool, true, false, not, ◌&&◌, ◌||◌,
  Bool-cases, inl, inr, Option, none, some, arith, passes_below, passes_below-at,
}
use iov_vehicle_tbox_prov.Vin.{to_upper, char_allowed, char_value}

-- The value of a VIN character: A to H are 1 to 8, J to R are 1 to 9, S to Z are 2 to 9, in either
-- case, and a digit is itself. I, O and Q have no value.
unfoldable pub standard_value : ℕ → Option ℕ
standard_value c =
    let u = (if leb 97 c && leb c 122 then c - 32 else c) in
    if u == b'I' || u == b'O' || u == b'Q'
    then none
    else if leb b'0' u && leb u b'9'
    then some (u - 48)
    else if leb b'A' u && leb u b'H'
    then some (u - 64)
    else if leb b'J' u && leb u b'R'
    then some (u - 73)
    else if leb b'S' u && leb u b'Z'
    then some (u - 81)
    else none

abbrev pub has_value : Option ℕ → Bool
has_value none = false
has_value (some v) = true

abbrev same_value : Option ℕ → Option ℕ → Bool
same_value none none = true
same_value (some a) (some b) = a == b
same_value _ _ = false

same_value-eq : (a b : Option ℕ) → same_value a b ≡ true → a ≡ b
same_value-eq none none h = refl
same_value-eq (some a) (some b) h = ground arith
same_value-eq none (some b) h = ground arith
same_value-eq (some a) none h = ground arith

char_value_table : passes_below (λ c. same_value (char_value c) (standard_value c)) 128 ≡ true
unfolding passes_below char_value standard_value
char_value_table = refl

char_allowed_table :
    passes_below
      (λ c. if char_allowed c then has_value (char_value c) else not (has_value (char_value c)))
      128
    ≡ true
unfolding passes_below char_value char_allowed
char_allowed_table = refl

module _ (c : ℕ) (high : 128 ≤ c) where
  to_upper_high : to_upper c ≡ c
  unfolding to_upper
  to_upper_high = ground arith

  char_value_high : char_value c ≡ none
  unfolding char_value
  char_value_high = ground arith

  standard_value_high : standard_value c ≡ none
  unfolding standard_value
  standard_value_high = ground arith

  char_allowed_high : char_allowed c ≡ false
  unfolding char_allowed
  char_allowed_high = ground arith

pub char_value-eq-standard_value : (c : ℕ) → char_value c ≡ standard_value c
char_value-eq-standard_value c = elim (Bool-cases (ltb c 128)) [
  | inl low ↦ same_value-eq _ _ (passes_below-at _ 128 char_value_table c (ground arith))
  | inr high ↦ rw (char_value_high c (ground arith), standard_value_high c (ground arith))
]

-- The characters that the charset test lets through are those that the map holds.
pub char_allowed-eq-has_value : (c : ℕ) → char_allowed c ≡ has_value (char_value c)
char_allowed-eq-has_value c = elim (Bool-cases (ltb c 128)) [
  | inl low ↦ let t = passes_below-at _ 128 char_allowed_table c (ground arith) in ground arith
  | inr high ↦ rw (char_value_high c (ground arith), char_allowed_high c (ground arith))
]

pub standard_value-lt : (c v : ℕ) → standard_value c ≡ some v → v < 10
unfolding standard_value
standard_value-lt c v h = ground arith

-- Only 7-bit characters have a value.
pub valued_is_ascii : (c : ℕ) → has_value (standard_value c) ≡ true → ltb c 128 ≡ true
valued_is_ascii c h = elim (Bool-cases (ltb c 128)) [
  | inl low ↦ low
  | inr high ↦ absurd (ground (arith, h, standard_value_high c (ground arith)))
]
