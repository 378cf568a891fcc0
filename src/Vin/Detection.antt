-- ===== src/Vin/Detection.antt =====
-- Typing errors and the check digit of src/vin_validator.cpp.
use iov_vehicle_tbox_prov.Base.{
  ℕ, zero, suc, ◌+◌, ◌*◌, ◌-◌, ◌%◌, ◌≤◌, ◌<◌, ◌≡◌, ◌≢◌, refl, ◌∙◌, sym, ◌==◌, leb, Bool, true, not,
  ◌&&◌, ◌||◌, inl, inr, none, some, List, [], ◌∷◌, ◌++◌, arith, Str, length, get_elem?, All,
  passes_below, passes_below-at, length-append, Option-cases, ap,
}
use iov_vehicle_tbox_prov.Vin.{weights, char_at, validate}
use iov_vehicle_tbox_prov.Vin.Chars.{standard_value, standard_value-lt, has_value}
use iov_vehicle_tbox_prov.Vin.Spec.{value_or_zero, total, IsVin, validate_iff}

abbrev drop : ℕ → List ℕ → List ℕ
drop zero ws = ws
drop (suc n) [] = []
drop (suc n) (w ∷ ws) = drop n ws

abbrev weight_at : List ℕ → ℕ → ℕ
weight_at ws i = elim (get_elem? ws i) [ none ↦ 0 | some w ↦ w ]

-- The total of a text around one character.
total-append-cons :
    (ws : List ℕ) (pre : Str) (c : ℕ) (suf : Str)
    → total ws (pre ++ c ∷ suf)
      ≡ value_or_zero c * weight_at ws (length pre)
        + (total ws pre + total (drop (suc (length pre)) ws) suf)
total-append-cons [] [] c suf = ground arith
total-append-cons [] (p ∷ pre) c suf = ground arith
total-append-cons (w ∷ ws) [] c suf = omega arith
total-append-cons (w ∷ ws) (p ∷ pre) c suf = omega (arith, total-append-cons ws pre c suf)

char_at-append-cons :
    (pre : Str) (a b : ℕ) (suf : Str) (i : ℕ)
    → length pre ≢ i
    → char_at (pre ++ a ∷ suf) i ≡ char_at (pre ++ b ∷ suf) i
char_at-append-cons [] a b suf zero h = absurd (h refl)
char_at-append-cons [] a b suf (suc i) h = refl
char_at-append-cons (p ∷ pre) a b suf zero h = refl
char_at-append-cons (p ∷ pre) a b suf (suc i) h = char_at-append-cons pre a b suf i (omega arith)

abbrev good_weight : ℕ → Bool
good_weight i = i == 8 || (leb 1 (weight_at weights i) && leb (weight_at weights i) 10)

good_weight_table : passes_below good_weight 17 ≡ true
unfolding passes_below
good_weight_table = refl

weight_bounds : (i : ℕ) → i < 17 → i ≢ 8 → (1 ≤ weight_at weights i) × (weight_at weights i ≤ 10)
weight_bounds i h n = let t = passes_below-at good_weight 17 good_weight_table i h in ground arith

-- Multiplication by a weight from 1 to 10 tells digits apart modulo 11.
abbrev apart : ℕ → ℕ → ℕ → Bool
apart w a b = a == b || w == 0 || not ((a * w + 110 - b * w) % 11 == 0)

apart_table : passes_below (λ w. passes_below (λ a. passes_below (apart w a) 10) 10) 11 ≡ true
unfolding passes_below
apart_table = refl

scaled_eq :
    (w a b k : ℕ) → 1 ≤ w → w ≤ 10 → a < 10 → b < 10 → (a * w + k) % 11 ≡ (b * w + k) % 11 → a ≡ b
scaled_eq w a b k lo hi ha hb e =
    let t =
      passes_below-at _ 10
        (passes_below-at _ 10 (passes_below-at _ 11 apart_table w (omega arith)) a ha) b hb in
    let x : b * w ≤ 9 * 10 = grind arith in
    let d : (a * w + 110 - b * w) % 11 ≡ 0 = omega arith in ground arith

value_or_zero-lt : (c : ℕ) → value_or_zero c < 10
value_or_zero-lt c = elim (Option-cases (standard_value c)) [
  | inl e ↦ rw (e, value_or_zero) (omega arith)
  | inr (v, e) ↦ rw (e, value_or_zero) (standard_value-lt c v e)
]

valued_at :
    (pre : Str) (c : ℕ) (suf : Str)
    → All (λ d. has_value (standard_value d) ≡ true) (pre ++ c ∷ suf)
    → has_value (standard_value c) ≡ true
valued_at [] c suf h = h.0
valued_at (p ∷ pre) c suf h = valued_at pre c suf h.1

-- Equal totals modulo 11 around one character of a weight from 1 to 10.
same_character :
    (pre suf : Str) (a b : ℕ)
    → IsVin (pre ++ a ∷ suf)
    → IsVin (pre ++ b ∷ suf)
    → length pre < 17
    → length pre ≢ 8
    → value_or_zero a ≡ value_or_zero b
same_character pre suf a b va vb short ne =
    let (lo, hi) = weight_bounds (length pre) short ne in
    let k = total weights pre + total (drop (suc (length pre)) weights) suf in
    let same : total weights (pre ++ a ∷ suf) % 11 ≡ total weights (pre ++ b ∷ suf) % 11 =
      cc (va.balanced, vb.balanced, char_at-append-cons pre a b suf 8 ne) in
    scaled_eq (weight_at weights (length pre)) (value_or_zero a) (value_or_zero b) k lo hi
      (value_or_zero-lt a) (value_or_zero-lt b)
      (ap (λ (t : ℕ). t % 11) (sym (total-append-cons weights pre a suf))
        ∙ same
        ∙ ap (λ (t : ℕ). t % 11) (total-append-cons weights pre b suf))

-- If two accepted texts differ in one character that is not the check digit, the two characters
-- have the same value: the validator detects every other substitution.
pub substitution_detected :
    (pre suf : Str) (a b : ℕ)
    → length pre ≢ 8
    → validate (pre ++ a ∷ suf) ≡ true
    → validate (pre ++ b ∷ suf) ≡ true
    → standard_value a ≡ standard_value b
substitution_detected pre suf a b ne ha hb =
    let va = (validate_iff (pre ++ a ∷ suf)).0 ha in
    let vb = (validate_iff (pre ++ b ∷ suf)).0 hb in
    let short : length pre < 17 = omega (arith, length-append {0} pre (a ∷ suf), va.long) in
    ground (
      arith,
      same_character pre suf a b va vb short ne,
      valued_at pre a suf va.valued,
      valued_at pre b suf vb.valued,
    )
