-- ===== src/Json.antt =====
-- nlohmann::json, which is not part of the repository: a parameter with the laws that the program
-- relies on. Only members of objects are read and written by this program.
pub mod Documents
pub mod Example
use iov_vehicle_tbox_prov.Base.{
  ℕ, ◌%◌, ◌^◌, ◌≡◌, if◌then◌else◌, Bool, true, false, Option, none, some, List, [], Str, str_eq,
  is_ascii,
}

-- The value of a member. `other` is null, a nested object, an array of anything but bytes.
pub data JsonValue : Type 0 where
  text : Str → JsonValue
  number : ℕ → JsonValue
  boolean : Bool → JsonValue
  byte_array : List ℕ → JsonValue
  other : JsonValue

pub record JsonLibrary : Type 1 where
  pub Doc : Type 0
  -- `nlohmann::json j;`
  pub null : Doc
  -- `j[key] = value;`
  pub set : Doc → Str → JsonValue → Doc
  -- the member of that name, if `j` is an object that has one
  pub get : Doc → Str → Option JsonValue
  -- whether a text is UTF-8
  pub utf8 : Str → Bool
  -- `j.dump(indent)`, -1 being written 0; `none` is an exception
  pub dump : ℕ → Doc → Option Str
  -- `nlohmann::json::parse`; `none` is an exception
  pub parse : Str → Option Doc

-- A value whose texts are UTF-8.
abbrev pub is_text : JsonLibrary → JsonValue → Bool
is_text J (text s) = J.utf8 s
is_text J (number n) = true
is_text J (boolean b) = true
is_text J (byte_array bs) = true
is_text J other = false

pub record IsLawful (J : JsonLibrary) : Type 0 where
  pub get-null : (k : Str) → J.get J.null k ≡ none
  pub get-set :
      (d : J.Doc) (k : Str) (v : JsonValue) (j : Str)
      → J.get (J.set d k v) j ≡ (if str_eq k j then some v else J.get d j)
  -- a dumped document is read back with the same members
  pub parse-dump :
      (n : ℕ) (d : J.Doc) (s : Str)
      → J.dump n d ≡ some s
      → (e : J.Doc) × (J.parse s ≡ some e) × ((k : Str) → J.get e k ≡ J.get d k)
  -- `dump` throws at nothing but a text that is not UTF-8, and writes UTF-8
  pub dump-text :
      (n : ℕ) (d : J.Doc)
      → ((k : Str) (v : JsonValue) → J.get d k ≡ some v → is_text J v ≡ true)
      → (s : Str) × (J.dump n d ≡ some s) × (J.utf8 s ≡ true)
  -- a member can be set in a document read back from a dump, and that is dumped again
  pub dump-parsed :
      (n : ℕ) (d : J.Doc) (s : Str) (e : J.Doc)
      → J.dump n d ≡ some s
      → J.parse s ≡ some e
      → (m : ℕ) (k : Str) (v : JsonValue) → is_text J v ≡ true
      → (r : Str) × (J.dump m (J.set e k v) ≡ some r)
  pub utf8-ascii : (s : Str) → is_ascii s ≡ true → J.utf8 s ≡ true
  -- the empty text is no document
  pub parse-empty : J.parse [] ≡ none

-- `get<T>()` of a member; `none` is an exception, also where there is no such member.
abbrev pub get_text : Option JsonValue → Option Str
get_text (some (text s)) = some s
get_text _ = none

-- `get<uint32_t>()`, which takes a truth value too
abbrev pub get_uint32 : Option JsonValue → Option ℕ
get_uint32 (some (number n)) = some (n % 2 ^ 32)
get_uint32 (some (boolean true)) = some 1
get_uint32 (some (boolean false)) = some 0
get_uint32 _ = none

-- `get<time_t>()`, and `get` of an enumeration before it is cut to a byte
abbrev pub get_number : Option JsonValue → Option ℕ
get_number (some (number n)) = some n
get_number _ = none

abbrev pub get_bool : Option JsonValue → Option Bool
get_bool (some (boolean b)) = some b
get_bool _ = none

abbrev pub get_bytes : Option JsonValue → Option (List ℕ)
get_bytes (some (byte_array bs)) = some bs
get_bytes _ = none

-- `j.value(key, fallback)` on an object
abbrev pub value_text : Option JsonValue → Str → Option Str
value_text none fallback = some fallback
value_text m fallback = get_text m

abbrev pub value_number : Option JsonValue → ℕ → Option ℕ
value_number none fallback = some fallback
value_number m fallback = get_number m

abbrev pub value_bool : Option JsonValue → Bool → Option Bool
value_bool none fallback = some fallback
value_bool m fallback = get_bool m

infixl 5 ◌>>=◌
abbrev pub ◌>>=◌ {ℓ κ} : {A : Type ℓ} {B : Type κ} → Option A → (A → Option B) → Option B
none >>= f = none
some a >>= f = f a
