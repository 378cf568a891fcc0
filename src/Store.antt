-- ===== src/Store.antt =====
-- include/framework_store.h and src/framework_store.cpp, over the part of std::filesystem and
-- std::fstream that they use: regular files by path, directories, and what may go wrong.
pub mod Paths
pub mod Laws
pub mod Directories
pub mod Dictionary
pub mod Whole
use iov_vehicle_tbox_prov.Base.{
  ℕ, zero, suc, ◌+◌, ◌%◌, ltb, if◌then◌else◌, Bool, true, false, ◌||◌, Option, none, some, List, [],
  ◌∷◌, ◌++◌, Str, str_eq, codes,
}
use iov_vehicle_tbox_prov.Json.{JsonLibrary, JsonValue, text, get_text, ◌>>=◌}
use iov_vehicle_tbox_prov.Json.Documents.{document}

-- What happens to a call that changes the file system: nothing wrong; the file cannot be opened or
-- the call fails; the device takes only the first bytes, which a stream reports by no exception;
-- the rename fails.
pub data Fault : Type 0 where
  clear open_failed rename_failed : Fault
  short_write : ℕ → Fault

-- One such call: its fault, and the results of `dis(gen)` that it draws.
pub record Event : Type 0 where
  pub fault : Fault
  pub rolls : ℕ → ℕ

pub record Disk : Type 0 where
  pub files : List (Str × Str)
  pub directories : List Str
  -- what the coming calls that change the file system meet; past the end, nothing goes wrong
  pub weather : List Event

abbrev pub calm : Event
calm = record { fault = clear; rolls = λ _. 0 }

-- The event of the next call, and those after it.
abbrev pub next_event : List Event → Event
next_event [] = calm
next_event (e ∷ rest) = e

abbrev pub later_events : List Event → List Event
later_events [] = []
later_events (e ∷ rest) = rest

unfoldable pub find_file : Str → List (Str × Str) → Option Str
find_file path [] = none
find_file path ((p, content) ∷ rest) = if str_eq p path then some content else find_file path rest

unfoldable pub remove_file : Str → List (Str × Str) → List (Str × Str)
remove_file path [] = []
remove_file path ((p, content) ∷ rest) =
    let others = remove_file path rest in if str_eq p path then others else (p, content) ∷ others

abbrev pub put_file : Str → Str → List (Str × Str) → List (Str × Str)
put_file path content files = (path, content) ∷ files

-- The first `n` bytes of a text.
abbrev pub prefix_of : ℕ → Str → Str
prefix_of zero s = []
prefix_of (suc n) [] = []
prefix_of (suc n) (c ∷ s) = c ∷ prefix_of n s

-- A digit as `std::hex` writes it.
abbrev pub hex_digit : ℕ → ℕ
hex_digit d = if ltb (d % 16) 10 then 48 + d % 16 else 87 + d % 16

-- The loop of `atomic_write` that draws the digits from the `i`-th on.
abbrev pub hex_digits : ℕ → ℕ → (ℕ → ℕ) → Str
hex_digits zero i rolls = []
hex_digits (suc n) i rolls = hex_digit (rolls i) ∷ hex_digits n (i + 1) rolls

abbrev pub temp_path : Str → (ℕ → ℕ) → Str
temp_path path rolls = path ++ (codes ".tmp." ++ hex_digits 8 0 rolls)

-- The stream writes `content`, or what the device takes of it, to the temporary file, and the
-- rename puts that in the place of `path`.
unfoldable pub write_and_rename :
    Fault → Str → Str → Str → List (Str × Str) → Bool × List (Str × Str)
unfolding remove_file
write_and_rename clear temp path content files =
    (true, put_file path content (remove_file temp files))
write_and_rename open_failed temp path content files = (false, files)
write_and_rename rename_failed temp path content files = (false, put_file temp content files)
write_and_rename (short_write n) temp path content files =
    (true, put_file path (prefix_of n content) (remove_file temp files))

unfoldable pub atomic_write : Str → Str → Disk → Bool × Disk
unfolding write_and_rename
atomic_write path content d =
    let e = next_event d.weather in
    let (ok, files) = write_and_rename e.fault (temp_path path e.rolls) path content d.files in
    (ok, record d { files = files; weather = later_events d.weather })

-- `write_to_file`, which nothing calls: no temporary file, and no rename that could fail.
abbrev overwrite : Fault → Str → Str → List (Str × Str) → Bool × List (Str × Str)
overwrite open_failed path content files = (false, files)
overwrite (short_write n) path content files = (true, put_file path (prefix_of n content) files)
overwrite _ path content files = (true, put_file path content files)

unfoldable pub write_to_file : Str → Str → Disk → Bool × Disk
write_to_file path content d =
    let (ok, files) = overwrite (next_event d.weather).fault path content d.files in
    (ok, record d { files = files; weather = later_events d.weather })

-- `read_from_file`: the empty text where the file cannot be opened.
unfoldable pub read_from_file : Str → Disk → Str
unfolding find_file
read_from_file path d = elim (find_file path d.files) [ none ↦ [] | some content ↦ content ]

abbrev pub contains_path : Str → List Str → Bool
contains_path p [] = false
contains_path p (q ∷ rest) = str_eq q p || contains_path p rest

-- `std::filesystem::exists`
unfoldable pub file_exists : Str → Disk → Bool
unfolding find_file
file_exists path d = elim (find_file path d.files) [
  | none ↦ contains_path path d.directories
  | some content ↦ true
]

abbrev make_directory : Fault → Str → List Str → Bool × List Str
make_directory clear path dirs = (true, path ∷ dirs)
make_directory _ path dirs = (false, dirs)

unfoldable pub create_directory : Str → Disk → Bool × Disk
unfolding file_exists
create_directory path d =
    let (made, dirs) = make_directory (next_event d.weather).fault path d.directories in
    if file_exists path d
    then (true, d)
    else (made, record d { directories = dirs; weather = later_events d.weather })

pub record Store : Type 0 where
  pub service_name : Str
  pub root_path : Str
  pub service_path : Str

-- The constructor.
unfoldable pub new_store : Str → Str → Store
new_store name root = record {
  service_name = name;
  root_path = root;
  service_path = root ++ (codes "/" ++ name);
}

unfoldable pub get_root_path : Store → Str
get_root_path st = st.root_path

unfoldable pub get_service_path : Store → Str
get_service_path st = st.service_path

unfoldable pub initialize : Store → Disk → Bool × Disk
unfolding create_directory
initialize st d =
    let (root, d₁) = create_directory st.root_path d in
    let (service, d₂) = create_directory st.service_path d₁ in
    if root then (service, d₂) else (false, d₁)

unfoldable pub key_path : Store → Str → Str
key_path st key = st.service_path ++ (codes "/" ++ (key ++ codes ".json"))

unfoldable pub exists : Store → Str → Disk → Bool
unfolding file_exists key_path
exists st key d = file_exists (key_path st key) d

abbrev pub remove_outcome : Fault → Bool → Bool
remove_outcome clear there = there
remove_outcome _ there = false

abbrev pub remove_files : Fault → Str → List (Str × Str) → List (Str × Str)
remove_files clear path files = remove_file path files
remove_files _ path files = files

-- `remove`; the exception of a failing call is caught.
unfoldable pub remove : Store → Str → Disk → Bool × Disk
unfolding file_exists remove_file key_path
remove st key d =
    let e = next_event d.weather in
    let path = key_path st key in
    (
      remove_outcome e.fault (file_exists path d),
      record d { files = remove_files e.fault path d.files; weather = later_events d.weather },
    )

abbrev pub is_string_type : Option JsonValue → Bool
is_string_type (some (text t)) = str_eq t (codes "string")
is_string_type _ = false

module _ (J : JsonLibrary) where
  abbrev pub stored_document : Str → J.Doc
  stored_document value =
      document J ((codes "type", text (codes "string")) ∷ (codes "value", text value) ∷ [])

  -- The value of a stored document, whose exceptions `load` turns into `nullopt`.
  abbrev pub stored_value : J.Doc → Option Str
  stored_value j =
      if is_string_type (J.get j (codes "type")) then get_text (J.get j (codes "value")) else none

module _ (J : JsonLibrary) (st : Store) where
  -- `save<std::string>`; `none` is the exception of `dump`, which nothing in the store catches.
  unfoldable pub save : Str → Str → Disk → Option Bool × Disk
  unfolding key_path atomic_write
  save key value d = elim (J.dump 4 (stored_document J value)) [
    | none ↦ (none, d)
    | some content ↦ let (ok, d') = atomic_write (key_path st key) content d in (some ok, d')
  ]

  -- `load<std::string>`
  unfoldable pub load : Str → Disk → Option Str
  unfolding key_path file_exists read_from_file
  load key d =
      if file_exists (key_path st key) d
      then (do j ← J.parse (read_from_file (key_path st key) d); stored_value J j)
      else none
