-- ===== src/Store/Paths.antt =====
-- The paths of keys and of temporary files, of src/framework_store.cpp.
use mathlib.Core.List.{append_cancel_left, append_cancel_right}
use iov_vehicle_tbox_prov.Base.{
  ℕ, ◌≡◌, ◌≢◌, sym, ap, ◌∙◌, false, Bool-cases, inl, inr, ◌++◌, Str, str_eq, str_eq_iff,
  str_eq_refl, codes, last_or, last_or-append, arith,
}
use iov_vehicle_tbox_prov.Store.{Store, key_path, temp_path, hex_digit, hex_digits}

key_path-injective : (st : Store) (j k : Str) → key_path st j ≡ key_path st k → j ≡ k
unfolding key_path
key_path-injective st j k e =
    append_cancel_right j k (codes ".json")
      (append_cancel_left (codes "/") _ _ (append_cancel_left st.service_path _ _ e))

-- The last byte of a key's path is the n of ".json".
last-key_path : (st : Store) (k : Str) → last_or 0 (key_path st k) ≡ b'n'
unfolding key_path
last-key_path st k =
    last_or-append 0 st.service_path (codes "/" ++ (k ++ codes ".json"))
    ∙ last_or-append b'/' k (codes ".json")

last-temp_path :
    (path : Str) (rolls : ℕ → ℕ) → last_or 0 (temp_path path rolls) ≡ hex_digit (rolls 7)
last-temp_path path rolls = last_or-append 0 path (codes ".tmp." ++ hex_digits 8 0 rolls)

hex_digit-ne : (d : ℕ) → hex_digit d ≢ b'n'
hex_digit-ne d = ground arith

module _ (st : Store) where
  pub str_eq-key_path : (j k : Str) → str_eq (key_path st j) (key_path st k) ≡ str_eq j k
  str_eq-key_path j k = elim (Bool-cases (str_eq j k)) [
    | inl same ↦ rw ((str_eq_iff j k).0 same) (str_eq_refl (key_path st k) ∙ sym (str_eq_refl k))
    | inr other ↦ elim (Bool-cases (str_eq (key_path st j) (key_path st k))) [
      | inl e ↦
          absurd (cc (other, (str_eq_iff j k).1 (key_path-injective st j k ((str_eq_iff _ _).0 e))))
      | inr e ↦ e ∙ sym other
    ]
  ]

  pub str_eq-temp_path :
      (path : Str) (rolls : ℕ → ℕ) (k : Str) → str_eq (temp_path path rolls) (key_path st k) ≡ false
  str_eq-temp_path path rolls k =
      elim (Bool-cases (str_eq (temp_path path rolls) (key_path st k))) [
        | inl e ↦ absurd (
            hex_digit-ne (rolls 7) (
              sym (last-temp_path path rolls)
              ∙ ap (last_or 0) ((str_eq_iff (temp_path path rolls) (key_path st k)).0 e)
              ∙ last-key_path st k))
        | inr e ↦ e
      ]
