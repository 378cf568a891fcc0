-- ===== src/Json/Documents.antt =====
-- Documents that are built member by member.
use iov_vehicle_tbox_prov.Base.{
  ℕ, ◌≡◌, true, Bool-cases, inl, inr, some, List, [], ◌∷◌, Str, str_eq, arith, All,
}
use iov_vehicle_tbox_prov.Json.{JsonValue, JsonLibrary, IsLawful, is_text}

module _ (J : JsonLibrary) where
  abbrev pub IsText : J.Doc → Type 0
  IsText d = (k : Str) (v : JsonValue) → J.get d k ≡ some v → is_text J v ≡ true

  -- `j[k₁] = v₁; j[k₂] = v₂; …` from `j`
  abbrev pub with_members : J.Doc → List (Str × JsonValue) → J.Doc
  with_members d [] = d
  with_members d ((k, v) ∷ rest) = with_members (J.set d k v) rest

  abbrev pub document : List (Str × JsonValue) → J.Doc
  document = with_members J.null

module _ (J : JsonLibrary) (L : IsLawful J) where
  pub set-IsText :
      (d : J.Doc) (k : Str) (v : JsonValue)
      → IsText J d
      → is_text J v ≡ true
      → IsText J (J.set d k v)
  set-IsText d k v h t j w e = elim (Bool-cases (str_eq k j)) [
    | inl same ↦ ground (arith, L.get-set d k v j, same, t, e)
    | inr else' ↦ h j w (ground (arith, L.get-set d k v j, else', e))
  ]

  pub with_members-IsText :
      (d : J.Doc) (members : List (Str × JsonValue))
      → IsText J d
      → All (λ m. is_text J m.1 ≡ true) members
      → IsText J (with_members J d members)
  with_members-IsText d [] h all = h
  with_members-IsText d ((k, v) ∷ rest) h all =
      with_members-IsText (J.set d k v) rest (set-IsText d k v h all.0) all.1

  null-IsText : IsText J J.null
  null-IsText k v e = cc (L.get-null k)

  pub document-IsText :
      (members : List (Str × JsonValue))
      → All (λ m. is_text J m.1 ≡ true) members
      → IsText J (document J members)
  document-IsText members all = with_members-IsText J.null members null-IsText all

  -- A document of texts in UTF-8 is dumped.
  pub dump-document :
      (n : ℕ) (members : List (Str × JsonValue))
      → All (λ m. is_text J m.1 ≡ true) members
      → (s : Str) × (J.dump n (document J members) ≡ some s) × (J.utf8 s ≡ true)
  dump-document n members all =
      L.dump-text n (document J members) (with_members-IsText J.null members null-IsText all)
