-- ===== src/Masking/Laws.antt =====
-- What the texts of src/prov_service.cpp and src/prov_context.cpp for log events tell apart.
use iov_vehicle_tbox_prov.Base.{
  ℕ, zero, suc, ◌+◌, ◌-◌, ◌*◌, ◌/◌, ◌%◌, ◌≤◌, ◌≡◌, ◌↔◌, refl, sym, ap, ◌∙◌, ltb, if◌then◌else◌,
  true, Bool-cases, inl, inr, [], ◌∷◌, ◌++◌, Str, codes, length, decimal, is_digits,
  is_digits-decimal, number_from, number_from-decimal, ◌==◌, arith,
}
use iov_vehicle_tbox_prov.Store.{hex_digit}
use iov_vehicle_tbox_prov.Masking.{
  hex_within, hex, zeros, padded, hash_identifier, generate_request_id,
}

-- The value of a hexadecimal digit, and of a text of them after one of another value.
abbrev hex_value : ℕ → ℕ
hex_value c = if ltb c 58 then c - 48 else c - 87

abbrev value_from : ℕ → Str → ℕ
value_from n [] = n
value_from n (c ∷ s) = value_from (n * 16 + hex_value c) s

value_from-append : (n : ℕ) (s t : Str) → value_from n (s ++ t) ≡ value_from (value_from n s) t
value_from-append n [] t = refl
value_from-append n (c ∷ s) t = value_from-append (n * 16 + hex_value c) s t

hex_value-hex_digit : (d : ℕ) → hex_value (hex_digit d) ≡ d % 16
hex_value-hex_digit d = ground arith

value_from-hex_within : (fuel n : ℕ) → n ≤ fuel → value_from 0 (hex_within fuel n) ≡ n
unfolding hex_within
value_from-hex_within zero n h = rw (hex_value-hex_digit n) (omega (arith, h))
value_from-hex_within (suc fuel) n h = elim (Bool-cases (ltb n 16)) [
  | inl small ↦ simp small (rw (hex_value-hex_digit n) (ground (arith, small)))
  | inr large ↦
      let sixteen : 16 ≤ n = ground (arith, large) in
      let rest = value_from-hex_within fuel (n / 16) (omega (arith, sixteen, h)) in
      simp large (
        value_from-append 0 (hex_within fuel (n / 16)) (hex_digit n ∷ [])
        ∙ rw (rest, hex_value-hex_digit n) (omega arith))
]

value_from-zeros : (n : ℕ) (s : Str) → value_from 0 (zeros n ++ s) ≡ value_from 0 s
value_from-zeros zero s = refl
value_from-zeros (suc n) s = value_from-zeros n s

value_from-padded : (n : ℕ) → value_from 0 (padded 16 (hex n)) ≡ n
unfolding padded hex
value_from-padded n =
    value_from-zeros (16 - length (hex n)) (hex n) ∙ value_from-hex_within n n (omega arith)

append-cancel : (s t u : Str) → s ++ t ≡ s ++ u → t ≡ u
append-cancel [] t u h = h
append-cancel (c ∷ s) t u h = append-cancel s t u (ground (arith, h))

-- Two masks of one type are equal exactly if the hashes of the two values are: a mask tells
-- nothing more of a value than its hash.
pub hash_identifier_iff :
    (hash : Str → ℕ) (type' v w : Str)
    → (hash_identifier hash type' v ≡ hash_identifier hash type' w) ↔ (hash v ≡ hash w)
unfolding hash_identifier
hash_identifier_iff hash type' v w = (
  λ same.
      let tails = append-cancel (codes "-") _ _ (append-cancel type' _ _ same) in
      sym (value_from-padded (hash v)) ∙ ap (value_from 0) tails ∙ value_from-padded (hash w),
  λ e. ap (λ h. type' ++ (codes "-" ++ padded 16 (hex h))) e,
)

-- The texts before and after the first dash.
abbrev before_dash : Str → Str
before_dash [] = []
before_dash (c ∷ s) = let rest = before_dash s in if c == 45 then [] else c ∷ rest

abbrev after_dash : Str → Str
after_dash [] = []
after_dash (c ∷ s) = let rest = after_dash s in if c == 45 then s else rest

before_dash-digits : (s t : Str) → is_digits s ≡ true → before_dash (s ++ (45 ∷ t)) ≡ s
before_dash-digits [] t h = refl
before_dash-digits (c ∷ s) t h = ground (arith, h, before_dash-digits s t)

after_dash-digits : (s t : Str) → is_digits s ≡ true → after_dash (s ++ (45 ∷ t)) ≡ t
after_dash-digits [] t h = refl
after_dash-digits (c ∷ s) t h = ground (arith, h, after_dash-digits s t)

decimal-injective : (m n : ℕ) → decimal m ≡ decimal n → m ≡ n
decimal-injective m n h = sym (number_from-decimal m) ∙ ap (number_from 0) h ∙ number_from-decimal n

-- Two request ids are equal exactly if they are of the same millisecond and the same number was
-- drawn for them.
pub generate_request_id_iff :
    (now later drawn again : ℕ)
    → (generate_request_id now drawn ≡ generate_request_id later again)
      ↔ ((now / 1000000 ≡ later / 1000000) × (drawn ≡ again))
unfolding generate_request_id
generate_request_id_iff now later drawn again = (
  λ same.
      let rest = append-cancel (codes "prov-") _ _ same in
      let times =
        sym (before_dash-digits _ _ (is_digits-decimal (now / 1000000)))
        ∙ ap before_dash rest
        ∙ before_dash-digits _ _ (is_digits-decimal (later / 1000000)) in
      let draws =
        sym (after_dash-digits (decimal (now / 1000000)) _ (is_digits-decimal (now / 1000000)))
        ∙ ap after_dash rest
        ∙ after_dash-digits (decimal (later / 1000000)) _ (is_digits-decimal (later / 1000000)) in
      (decimal-injective _ _ times, decimal-injective _ _ draws),
  λ (times, draws). rw (times, draws) refl,
)
