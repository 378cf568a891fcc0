-- ===== src/Store/Laws.antt =====
-- `save` and `load` of include/framework_store.h, on a device where things may go wrong.
use iov_vehicle_tbox_prov.Base.{
  ℕ, ◌≡◌, ◌≢◌, ◌⊎◌, ◌∙◌, refl, if◌then◌else◌, Bool, true, false, Bool-cases, Option-cases, inl, inr,
  ap, Option, none, some, List, [], ◌∷◌, Str, str_eq, str_eq_refl, str_eq_iff, codes, arith,
}
use iov_vehicle_tbox_prov.Json.{JsonLibrary, IsLawful, text, ◌>>=◌}
use iov_vehicle_tbox_prov.Json.Documents.{dump-document}
use iov_vehicle_tbox_prov.Store.{
  Disk, Fault, clear, open_failed, rename_failed, short_write, next_event, later_events, Store,
  find_file, remove_file, write_and_rename, temp_path, atomic_write, key_path, file_exists, save,
  load, prefix_of, initialize, stored_document, stored_value,
}
use iov_vehicle_tbox_prov.Store.Paths.{str_eq-key_path, str_eq-temp_path}

pub find_file-remove_file :
    (q p : Str) (files : List (Str × Str))
    → str_eq p q ≡ false
    → find_file q (remove_file p files) ≡ find_file q files
unfolding find_file remove_file
find_file-remove_file q p [] h = refl
find_file-remove_file q p ((r, content) ∷ files) h = elim (Bool-cases (str_eq r p)) [
  | inl same ↦ ground (arith, find_file-remove_file q p files h, (str_eq_iff r p).0 same)
  | inr other ↦ ground (arith, find_file-remove_file q p files h)
]

-- The bytes that a fault leaves of a text under its key: `none` is what was there before.
abbrev pub kept : Fault → Str → Option Str
kept clear content = some content
kept open_failed content = none
kept rename_failed content = none
kept (short_write n) content = some (prefix_of n content)

-- Whether a write that meets a fault reports success.
abbrev pub reports_success : Fault → Bool
reports_success clear = true
reports_success (short_write n) = true
reports_success _ = false

abbrev pub or_before : Option Str → Option Str → Option Str
or_before none before = before
or_before (some s) before = some s

write_and_rename_result :
    (f : Fault) (temp path s : Str) (files : List (Str × Str))
    → (write_and_rename f temp path s files).0 ≡ reports_success f
unfolding write_and_rename
write_and_rename_result clear temp path s files = refl
write_and_rename_result open_failed temp path s files = refl
write_and_rename_result rename_failed temp path s files = refl
write_and_rename_result (short_write n) temp path s files = refl

module _ (st : Store) where
  -- The bytes under a key.
  unfoldable pub content : Str → Disk → Option Str
  content k d = find_file (key_path st k) d.files

  find-write_and_rename :
      (f : Fault) (rolls : ℕ → ℕ) (j k s : Str) (files : List (Str × Str))
      → find_file
          (key_path st j)
          (write_and_rename f (temp_path (key_path st k) rolls) (key_path st k) s files).1
        ≡ (if str_eq k j
            then or_before (kept f s) (find_file (key_path st j) files)
            else find_file (key_path st j) files)
  unfolding write_and_rename find_file
  find-write_and_rename clear rolls j k s files =
      rw
        (
          str_eq-key_path st k j,
          find_file-remove_file _ _ files (str_eq-temp_path st (key_path st k) rolls j),
        )
        refl
  find-write_and_rename open_failed rolls j k s files = ground arith
  find-write_and_rename rename_failed rolls j k s files = rw str_eq-temp_path (ground arith)
  find-write_and_rename (short_write n) rolls j k s files =
      rw
        (
          str_eq-key_path st k j,
          find_file-remove_file _ _ files (str_eq-temp_path st (key_path st k) rolls j),
        )
        refl

  pub content-atomic_write :
      (j k s : Str) (d : Disk)
      → content j (atomic_write (key_path st k) s d).1 ≡ (
          if str_eq k j
          then or_before (kept (next_event d.weather).fault s) (content j d)
          else content j d)
  unfolding content atomic_write
  content-atomic_write j k s d =
      find-write_and_rename (next_event d.weather).fault (next_event d.weather).rolls j k s d.files

  pub atomic_write_result :
      (k s : Str) (d : Disk)
      → (atomic_write (key_path st k) s d).0 ≡ reports_success (next_event d.weather).fault
  unfolding atomic_write
  atomic_write_result k s d =
      write_and_rename_result (next_event d.weather).fault
        (temp_path (key_path st k) (next_event d.weather).rolls) (key_path st k) s d.files

kept_unless : (f : Fault) (s : Str) → reports_success f ≢ true → kept f s ≡ none
kept_unless clear s h = absurd (h refl)
kept_unless open_failed s h = refl
kept_unless rename_failed s h = refl
kept_unless (short_write n) s h = absurd (h refl)

module _ (J : JsonLibrary) (st : Store) where
  load-cong :
      (k : Str) (d e : Disk)
      → content st k e ≡ content st k d
      → e.directories ≡ d.directories
      → load J st k e ≡ load J st k d
  unfolding content load
  load-cong k d e same dirs = ground (arith, same, dirs)

  pub directories-save : (k v : Str) (d : Disk) → (save J st k v d).1.directories ≡ d.directories
  unfolding save
  directories-save k v d = ground arith

  pub weather-save_done :
      (k v : Str) (d : Disk) (b : Bool)
      → (save J st k v d).0 ≡ some b
      → (save J st k v d).1.weather ≡ later_events d.weather
  unfolding save
  weather-save_done k v d b h = ground arith

  pub save-eq_some :
      (k v : Str) (d : Disk) (s : Str)
      → J.dump 4 (stored_document J v) ≡ some s
      → save J st k v d
        ≡ (some (atomic_write (key_path st k) s d).0, (atomic_write (key_path st k) s d).1)
  unfolding save
  save-eq_some k v d s h = rw (h, save) refl

  pub content-save_other :
      (k v : Str) (d : Disk) (j : Str)
      → str_eq k j ≡ false
      → content st j (save J st k v d).1 ≡ content st j d
  content-save_other k v d j ne = elim (Option-cases (J.dump 4 (stored_document J v))) [
    | inl e ↦ (unfold save in ground (arith, e))
    | inr (s, e) ↦ rw (save-eq_some k v d s e) (content-atomic_write st j k s d ∙ ground arith)
  ]

  content-save_failed :
      (k v : Str) (d : Disk) (j : Str)
      → (save J st k v d).0 ≢ some true
      → content st j (save J st k v d).1 ≡ content st j d
  content-save_failed k v d j fails = elim (Option-cases (J.dump 4 (stored_document J v))) [
    | inl e ↦ (unfold save in ground (arith, e))
    | inr (s, e) ↦ rw (save-eq_some k v d s e) (
        content-atomic_write st j k s d
        ∙ ground (
          arith,
          kept_unless (next_event d.weather).fault s (λ r. fails (
              ap (λ p. p.0) (save-eq_some k v d s e) ∙ ap some (atomic_write_result st k s d ∙ r))),
        ))
  ]

  -- A save that does not return true leaves what every key loads as it was, and a save that does
  -- leaves what every other key loads as it was, whatever goes wrong on the device.
  pub load-save_unchanged :
      (k v : Str) (d : Disk) (j : Str)
      → ((save J st k v d).0 ≢ some true) ⊎ (str_eq k j ≡ false)
      → load J st j (save J st k v d).1 ≡ load J st j d
  load-save_unchanged k v d j (inl fails) =
      load-cong j d (save J st k v d).1 (content-save_failed k v d j fails) (directories-save k v d)
  load-save_unchanged k v d j (inr ne) =
      load-cong j d (save J st k v d).1 (content-save_other k v d j ne) (directories-save k v d)

  -- A save that reports success, and the bytes that it leaves.
  pub save-kept :
      (k v s t : Str) (d : Disk)
      → J.dump 4 (stored_document J v) ≡ some s
      → reports_success (next_event d.weather).fault ≡ true
      → kept (next_event d.weather).fault s ≡ some t
      → ((save J st k v d).0 ≡ some true) × (content st k (save J st k v d).1 ≡ some t)
  save-kept k v s t d dumped ok left =
      rw
        (
          save-eq_some k v d s dumped,
          atomic_write_result st k s d,
          content-atomic_write st k k s d,
          ok,
          left,
          str_eq_refl k,
        )
        (refl, refl)

  pub load_content :
      (k s : Str) (d : Disk)
      → content st k d ≡ some s
      → load J st k d ≡ (do j ← J.parse s; stored_value J j)
  unfolding content load
  load_content k s d h = ground (arith, h)

  module _ (L : IsLawful J) where
    pub stored_document-dumped :
        (v : Str)
        → J.utf8 v ≡ true
        → (s : Str) × (J.dump 4 (stored_document J v) ≡ some s) × (J.utf8 s ≡ true)
    stored_document-dumped v h =
        dump-document J L 4 ((codes "type", text (codes "string")) ∷ (codes "value", text v) ∷ [])
          (L.utf8-ascii (codes "string") refl, (h, tt))

    pub parse_stored :
        (v s : Str)
        → J.dump 4 (stored_document J v) ≡ some s
        → (do j ← J.parse s; stored_value J j) ≡ some v
    parse_stored v s dumped =
        let (e, parsed, same) = L.parse-dump 4 (stored_document J v) s dumped in
        rw parsed (simp (same, L.get-set))

    -- With no fault on the device a text in UTF-8 is saved, and its key loads it.
    pub load-save :
        (k v : Str) (d : Disk)
        → J.utf8 v ≡ true
        → (next_event d.weather).fault ≡ clear
        → ((save J st k v d).0 ≡ some true) × (load J st k (save J st k v d).1 ≡ some v)
    load-save k v d h fault =
        let (s, dumped, _) = stored_document-dumped v h in
        let (ok, there) = save-kept k v s s d dumped (rw fault refl) (rw fault refl) in
        (ok, load_content k s _ there ∙ parse_stored v s dumped)

    -- If the device takes nothing of the text, a save of a text in UTF-8 returns true all the
    -- same, and the key loads nothing any more.
    pub load-save_short :
        (k v : Str) (d : Disk)
        → J.utf8 v ≡ true
        → (next_event d.weather).fault ≡ short_write 0
        → ((save J st k v d).0 ≡ some true) × (load J st k (save J st k v d).1 ≡ none)
    load-save_short k v d h fault =
        let (s, dumped, _) = stored_document-dumped v h in
        let (ok, there) = save-kept k v s [] d dumped (rw fault refl) (rw fault refl) in
        (ok, load_content k [] _ there ∙ rw L.parse-empty refl)

    -- More directories take nothing from what a key loads.
    pub load-same_files :
        (k v : Str) (d e : Disk)
        → e.files ≡ d.files
        → load J st k d ≡ some v
        → load J st k e ≡ some v
    unfolding load
    load-same_files k v d e files h = ground (arith, files, h, L.parse-empty)

-- With no fault ahead the directories are there or are made, and the files stay.
pub initialize_calm :
    (st : Store) (d : Disk)
    → d.weather ≡ []
    → ((initialize st d).0 ≡ true)
      × ((initialize st d).1.files ≡ d.files)
      × ((initialize st d).1.weather ≡ [])
unfolding initialize file_exists find_file
initialize_calm st d h = ground arith
