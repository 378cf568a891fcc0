-- ===== src/Base/Decimal.antt =====
-- The decimal text of a number, as an output stream writes an unsigned integer.
use Prim.Native.Nat.{ℕ, zero, suc, ◌+◌, ◌-◌, ◌*◌, ◌/◌, ◌%◌, ◌≤◌}
use mathlib.Core.Path.{◌≡◌, refl}
use mathlib.Core.Bool.{Bool, true, false}
use mathlib.Core.Logic.{inl, inr}
use mathlib.Core.List.{[], ◌∷◌, ◌++◌}
use native.Mathlib.Omega.{arith}
use iov_vehicle_tbox_prov.Base.Tests.{ltb, if◌then◌else◌, Bool-cases}
use iov_vehicle_tbox_prov.Base.Bytes.{Str}

-- A number has at most as many digits as it counts, and one.
unfoldable digits_within : ℕ → ℕ → Str
digits_within zero n = (48 + n % 10) ∷ []
digits_within (suc fuel) n =
    let higher = digits_within fuel (n / 10) in
    if ltb n 10 then (48 + n) ∷ [] else higher ++ ((48 + n % 10) ∷ [])

unfoldable pub decimal : ℕ → Str
unfolding digits_within
decimal n = digits_within n n

-- The number that a text of digits stands for, and the number of a text after one of another.
abbrev pub number_from : ℕ → Str → ℕ
number_from n [] = n
number_from n (c ∷ s) = number_from (n * 10 + (c - 48)) s

number_from-append : (n : ℕ) (s t : Str) → number_from n (s ++ t) ≡ number_from (number_from n s) t
number_from-append n [] t = refl
number_from-append n (c ∷ s) t = number_from-append (n * 10 + (c - 48)) s t

number_from-digits_within : (fuel n : ℕ) → n ≤ fuel → number_from 0 (digits_within fuel n) ≡ n
unfolding digits_within
number_from-digits_within zero n h = omega (arith, h)
number_from-digits_within (suc fuel) n h = elim (Bool-cases (ltb n 10)) [
  | inl small ↦ simp small (omega arith)
  | inr large ↦
      let ten : 10 ≤ n = ground (arith, large) in
      let rest = number_from-digits_within fuel (n / 10) (omega (arith, ten, h)) in
      simp (large, number_from-append 0 (digits_within fuel (n / 10)) ((48 + n % 10) ∷ []), rest)
        (omega arith)
]

-- The digits are read back as the number.
pub number_from-decimal : (n : ℕ) → number_from 0 (decimal n) ≡ n
unfolding decimal
number_from-decimal n = number_from-digits_within n n (omega arith)

-- Every byte is a decimal digit.
abbrev pub is_digits : Str → Bool
is_digits [] = true
is_digits (c ∷ s) = if ltb c 48 then false else (if ltb c 58 then is_digits s else false)

is_digits-append : (s t : Str) → is_digits s ≡ true → is_digits t ≡ true → is_digits (s ++ t) ≡ true
is_digits-append [] t h k = k
is_digits-append (c ∷ s) t h k = ground (arith, h, k, is_digits-append s t)

is_digits-digits_within : (fuel n : ℕ) → is_digits (digits_within fuel n) ≡ true
unfolding digits_within
is_digits-digits_within zero n = ground arith
is_digits-digits_within (suc fuel) n = elim (Bool-cases (ltb n 10)) [
  | inl small ↦ simp small (ground (arith, small))
  | inr large ↦ simp large (
      is_digits-append (digits_within fuel (n / 10)) ((48 + n % 10) ∷ [])
        (is_digits-digits_within fuel (n / 10)) (ground arith))
]

pub is_digits-decimal : (n : ℕ) → is_digits (decimal n) ≡ true
unfolding decimal
is_digits-decimal n = is_digits-digits_within n n
