-- ===== src/Store/Dictionary.antt =====
-- The store of src/framework_store.cpp as a dictionary of texts, on a device without faults.
use iov_vehicle_tbox_prov.Base.{
  ◌≡◌, refl, sym, ap, ◌∙◌, if◌then◌else◌, Bool, true, false, Bool-cases, inl, inr, Option, none,
  some, List, [], ◌∷◌, Str, str_eq, str_eq_iff, All, arith,
}
use iov_vehicle_tbox_prov.Json.{JsonLibrary, IsLawful}
use iov_vehicle_tbox_prov.Store.{
  Disk, Store, clear, next_event, find_file, remove_file, key_path, contains_path, file_exists,
  exists, remove, save, load, stored_document,
}
use iov_vehicle_tbox_prov.Store.Paths.{str_eq-key_path}
use iov_vehicle_tbox_prov.Store.Laws.{
  content, save-kept, content-save_other, directories-save, weather-save_done,
  stored_document-dumped, parse_stored, load_content, find_file-remove_file,
}

-- What a client asks of the store, and what it is told.
pub data Call : Type 0 where
  save_call : Str → Str → Call
  load_call remove_call exists_call : Str → Call

pub data Answer : Type 0 where
  -- `none` is an exception
  saved : Option Bool → Answer
  loaded : Option Str → Answer
  told : Bool → Answer

-- A dictionary, and its changes.
abbrev pub Dictionary : Type 0
Dictionary = Str → Option Str

abbrev pub updated : Str → Option Str → Dictionary → Dictionary
updated k v m j = if str_eq k j then v else m j

abbrev pub is_there : Option Str → Bool
is_there none = false
is_there (some v) = true

-- The specification of a call.
unfoldable pub look : Call → Dictionary → Answer × Dictionary
look (save_call k v) m = (saved (some true), updated k (some v) m)
look (load_call k) m = (loaded (m k), m)
look (remove_call k) m = (told (is_there (m k)), updated k none m)
look (exists_call k) m = (told (is_there (m k)), m)

unfoldable pub look_all : List Call → Dictionary → List Answer × Dictionary
unfolding look
look_all [] m = ([], m)
look_all (c ∷ rest) m =
    let (a, m') = look c m in let (answers, last) = look_all rest m' in (a ∷ answers, last)

find_file-removed : (p : Str) (files : List (Str × Str)) → find_file p (remove_file p files) ≡ none
unfolding find_file remove_file
find_file-removed p [] = refl
find_file-removed p ((q, c) ∷ files) = elim (Bool-cases (str_eq q p)) [
  | inl same ↦ simp same (find_file-removed p files)
  | inr other ↦ simp (other) (find_file-removed p files)
]

module _ (J : JsonLibrary) (st : Store) where
  -- The same call on the store.
  unfoldable pub call : Call → Disk → Answer × Disk
  call (save_call k v) d = let (r, d') = save J st k v d in (saved r, d')
  call (load_call k) d = (loaded (load J st k d), d)
  call (remove_call k) d = let (r, d') = remove st k d in (told r, d')
  call (exists_call k) d = (told (exists st k d), d)

  unfoldable pub call_all : List Call → Disk → List Answer × Disk
  unfolding call
  call_all [] d = ([], d)
  call_all (c ∷ rest) d =
      let (a, d') = call c d in let (answers, last) = call_all rest d' in (a ∷ answers, last)

  -- The bytes of a key where the dictionary has that value.
  abbrev Holds : Option Str → Option Str → Type 0
  Holds none bytes = bytes ≡ none
  Holds (some v) bytes = (s : Str) × (bytes ≡ some s) × (J.dump 4 (stored_document J v) ≡ some s)

  -- A device without faults whose files hold a dictionary; no directory has the name of a file.
  pub record Represents (m : Dictionary) (d : Disk) : Type 0 where
    pub weather : d.weather ≡ []
    pub no_directory : (k : Str) → contains_path (key_path st k) d.directories ≡ false
    pub files : (k : Str) → Holds (m k) (content st k d)

  -- What is saved is UTF-8.
  abbrev pub IsText : Call → Type 0
  IsText (save_call k v) = J.utf8 v ≡ true
  IsText _ = Unit

  exists-Holds :
      (v : Option Str) (k : Str) (d : Disk)
      → contains_path (key_path st k) d.directories ≡ false
      → Holds v (content st k d)
      → exists st k d ≡ is_there v
  unfolding exists file_exists content
  exists-Holds none k d clear' h = ground (arith, h, clear')
  exists-Holds (some v) k d clear' (s, h, _) = ground (arith, h)

  load-absent :
      (k : Str) (d : Disk)
      → contains_path (key_path st k) d.directories ≡ false
      → content st k d ≡ none
      → load J st k d ≡ none
  unfolding load file_exists content
  load-absent k d clear' h = ground (arith, h, clear')

  pub content-remove :
      (k j : Str) (d : Disk)
      → d.weather ≡ []
      → content st j (remove st k d).1 ≡ (if str_eq k j then none else content st j d)
  unfolding remove content
  content-remove k j d calm = elim (Bool-cases (str_eq k j)) [
    | inl same ↦
        simp (calm, same) (rw (sym ((str_eq_iff k j).0 same)) (find_file-removed _ d.files))
    | inr other ↦
        simp (calm, other)
          (find_file-remove_file (key_path st j) (key_path st k) d.files
            (str_eq-key_path st k j ∙ other))
  ]

  pub remove_calm :
      (k : Str) (d : Disk)
      → d.weather ≡ []
      → ((remove st k d).0 ≡ exists st k d)
        × ((remove st k d).1.weather ≡ [])
        × ((remove st k d).1.directories ≡ d.directories)
  unfolding remove exists
  remove_calm k d calm = simp calm (refl, refl, refl)

  module _ (L : IsLawful J) where
    load-Holds :
        (v : Option Str) (k : Str) (d : Disk)
        → contains_path (key_path st k) d.directories ≡ false
        → Holds v (content st k d)
        → load J st k d ≡ v
    load-Holds none k d clear' h = load-absent k d clear' h
    load-Holds (some v) k d clear' (s, h, dumped) =
        load_content J st k s d h ∙ parse_stored J st L v s dumped

    save-Represents :
        (k v : Str) (m : Dictionary) (d : Disk)
        → J.utf8 v ≡ true
        → Represents m d
        → ((save J st k v d).0 ≡ some true) × Represents (updated k (some v) m) (save J st k v d).1
    save-Represents k v m d text r =
        let (s, dumped, _) = stored_document-dumped J st L v text in
        let calm : (next_event d.weather).fault ≡ clear = rw r.weather refl in
        let (ok, there) = save-kept J st k v s s d dumped (rw calm refl) (rw calm refl) in
        (
          ok,
          record {
            weather = weather-save_done J st k v d true ok ∙ rw r.weather refl;
            no_directory = λ j. rw (directories-save J st k v d) (r.no_directory j);
            files = λ j. elim (Bool-cases (str_eq k j)) [
              | inl same ↦ simp same (s, rw (sym ((str_eq_iff k j).0 same)) there, dumped)
              | inr other ↦ simp other (rw (content-save_other J st k v d j other) (r.files j))
            ];
          },
        )

    remove-Represents :
        (k : Str) (m : Dictionary) (d : Disk)
        → Represents m d
        → ((remove st k d).0 ≡ is_there (m k)) × Represents (updated k none m) (remove st k d).1
    remove-Represents k m d r =
        let (told', weather, directories) = remove_calm k d r.weather in
        (
          told' ∙ exists-Holds (m k) k d (r.no_directory k) (r.files k),
          record {
            weather = weather;
            no_directory = λ j. rw directories (r.no_directory j);
            files = λ j. rw (content-remove k j d r.weather) (elim (Bool-cases (str_eq k j)) [
              | inl same ↦ simp same refl
              | inr other ↦ simp other (r.files j)
            ]);
          },
        )

    call-Represents :
        (c : Call) (m : Dictionary) (d : Disk)
        → IsText c
        → Represents m d
        → ((call c d).0 ≡ (look c m).0) × Represents (look c m).1 (call c d).1
    unfolding call look
    call-Represents (save_call k v) m d text r =
        let (ok, after) = save-Represents k v m d text r in (ap saved ok, after)
    call-Represents (load_call k) m d text r =
        (ap loaded (load-Holds (m k) k d (r.no_directory k) (r.files k)), r)
    call-Represents (remove_call k) m d text r =
        let (ok, after) = remove-Represents k m d r in (ap told ok, after)
    call-Represents (exists_call k) m d text r =
        (ap told (exists-Holds (m k) k d (r.no_directory k) (r.files k)), r)

    -- Let the device have no fault ahead, no directory with the name of a key's file, and files
    -- that hold a dictionary, and let what is saved be UTF-8. Then any sequence of calls of `save`,
    -- `load`, `remove` and `exists` is answered as by the dictionary, and leaves such a device with
    -- the dictionary that it leaves.
    pub call_all-Represents :
        (cs : List Call) (m : Dictionary) (d : Disk)
        → All IsText cs
        → Represents m d
        → ((call_all cs d).0 ≡ (look_all cs m).0) × Represents (look_all cs m).1 (call_all cs d).1
    unfolding call_all look_all
    call_all-Represents [] m d text r = (refl, r)
    call_all-Represents (c ∷ cs) m d (text, texts) r =
        let (ok, after) = call-Represents c m d text r in
        let (oks, last) = call_all-Represents cs (look c m).1 (call c d).1 texts after in
        (rw (ok, oks) refl, last)
