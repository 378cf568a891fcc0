-- ===== src/Json/Example.antt =====
-- A JSON library that meets the laws: documents are lists of members, and a dump is a sequence of
-- length-prefixed parts. It shows that the laws can hold, and runs the program in the tests.
use iov_vehicle_tbox_prov.Base.{
  ℕ, zero, suc, ◌≡◌, refl, sym, ap, ◌∙◌, if◌then◌else◌, true, false, Option, none, some, List, [],
  ◌∷◌, ◌++◌, Str, str_eq, length,
}
use iov_vehicle_tbox_prov.Json.{
  JsonLibrary, IsLawful, JsonValue, text, number, boolean, byte_array, other, ◌>>=◌,
}

abbrev Members : Type 0
Members = List (Str × JsonValue)

unfoldable lookup : Members → Str → Option JsonValue
lookup [] j = none
lookup ((k, v) ∷ rest) j = if str_eq k j then some v else lookup rest j

-- The parts of a dump, each before the rest.
unfoldable put_text : Str → List ℕ → List ℕ
put_text s rest = length s ∷ (s ++ rest)

unfoldable put_value : JsonValue → List ℕ → List ℕ
unfolding put_text
put_value (text s) rest = 0 ∷ put_text s rest
put_value (number n) rest = 1 ∷ n ∷ rest
put_value (boolean true) rest = 2 ∷ rest
put_value (boolean false) rest = 3 ∷ rest
put_value (byte_array bs) rest = 4 ∷ put_text bs rest
put_value other rest = 5 ∷ rest

unfoldable put_members : Members → List ℕ
unfolding put_value put_text
put_members [] = 0 ∷ []
put_members ((k, v) ∷ rest) = 1 ∷ put_text k (put_value v (put_members rest))

-- The parts of a dump, each with what follows it.
unfoldable take_codes : ℕ → List ℕ → Option (List ℕ × List ℕ)
take_codes zero s = some ([], s)
take_codes (suc n) [] = none
take_codes (suc n) (c ∷ s) = do (cs, rest) ← take_codes n s; some (c ∷ cs, rest)

unfoldable take_text : List ℕ → Option (List ℕ × List ℕ)
unfolding take_codes
take_text [] = none
take_text (n ∷ s) = take_codes n s

unfoldable take_value : List ℕ → Option (JsonValue × List ℕ)
unfolding take_text
take_value [] = none
take_value (zero ∷ s) = do (cs, rest) ← take_text s; some (text cs, rest)
take_value (suc zero ∷ []) = none
take_value (suc zero ∷ n ∷ s) = some (number n, s)
take_value (suc (suc zero) ∷ s) = some (boolean true, s)
take_value (suc (suc (suc zero)) ∷ s) = some (boolean false, s)
take_value (suc (suc (suc (suc zero))) ∷ s) = do
  (cs, rest) ← take_text s
  some (byte_array cs, rest)
take_value (suc (suc (suc (suc (suc n)))) ∷ s) = some (other, s)

-- The members of a dump, at most as many as the first number.
unfoldable take_members : ℕ → List ℕ → Option Members
unfolding take_value take_text
take_members zero s = some []
take_members (suc fuel) [] = none
take_members (suc fuel) (zero ∷ s) = some []
take_members (suc fuel) (suc n ∷ s) = do
  (k, after) ← take_text s
  (v, rest) ← take_value after
  members ← take_members fuel rest
  some ((k, v) ∷ members)

unfoldable take_document : List ℕ → Option Members
unfolding take_members
take_document [] = none
take_document (n ∷ s) = take_members n s

take_codes-length : (s rest : List ℕ) → take_codes (length s) (s ++ rest) ≡ some (s, rest)
unfolding take_codes
take_codes-length [] rest = refl
take_codes-length (c ∷ s) rest = simp (take_codes-length s rest) refl

take_text-put_text : (s rest : List ℕ) → take_text (put_text s rest) ≡ some (s, rest)
unfolding take_text put_text
take_text-put_text s rest = take_codes-length s rest

take_value-put_value :
    (v : JsonValue) (rest : List ℕ) → take_value (put_value v rest) ≡ some (v, rest)
unfolding take_value put_value
take_value-put_value (text s) rest = simp (take_text-put_text s rest) refl
take_value-put_value (number n) rest = refl
take_value-put_value (boolean true) rest = refl
take_value-put_value (boolean false) rest = refl
take_value-put_value (byte_array bs) rest = simp (take_text-put_text bs rest) refl
take_value-put_value other rest = refl

take_members-put_members : (d : Members) → take_members (length d) (put_members d) ≡ some d
unfolding take_members put_members
take_members-put_members [] = refl
take_members-put_members ((k, v) ∷ rest) =
    simp (take_text-put_text, take_value-put_value, take_members-put_members rest) refl

unfoldable pub example : JsonLibrary
unfolding lookup put_members take_document
example = record {
  Doc = Members;
  null = [];
  set = λ d k v. (k, v) ∷ d;
  get = lookup;
  utf8 = λ _. true;
  dump = λ _ d. some (length d ∷ put_members d);
  parse = take_document;
}

abbrev parsed_or_none : Option Str → Option Members
parsed_or_none none = none
parsed_or_none (some s) = take_document s

pub example-IsLawful : IsLawful example
unfolding example lookup put_members take_document
example-IsLawful = record {
  get-null = λ k. refl;
  get-set = λ d k v j. refl;
  parse-dump = λ n d s h. (d, ap parsed_or_none (sym h) ∙ take_members-put_members d, λ k. refl);
  dump-text = λ n d h. (length d ∷ put_members d, refl, refl);
  dump-parsed = λ n d s e h p m k v t. (_, refl);
  utf8-ascii = λ s h. refl;
  parse-empty = refl;
}
