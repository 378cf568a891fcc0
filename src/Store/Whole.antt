-- ===== src/Store/Whole.antt =====
-- The store of include/framework_store.h on a device that may fail, but takes a text whole or not
-- at all.
use iov_vehicle_tbox_prov.Base.{
  ◌≡◌, ◌⊎◌, refl, sym, ap, ◌∙◌, Bool, true, false, Option-cases, Bool-cases, inl, inr, Option, some,
  List, [], ◌∷◌, Str, All, arith,
}
use iov_vehicle_tbox_prov.Json.{JsonLibrary, IsLawful}
use iov_vehicle_tbox_prov.Store.{
  Disk, Event, Fault, clear, open_failed, rename_failed, short_write, next_event, later_events,
  Store, save, load, stored_document, file_exists, create_directory, initialize,
}
use iov_vehicle_tbox_prov.Store.Laws.{
  kept, reports_success, save-eq_some, atomic_write_result, save-kept, load_content, parse_stored,
}

abbrev pub is_whole : Fault → Bool
is_whole (short_write n) = false
is_whole _ = true

-- None of the coming events is a short write.
abbrev pub IsWhole : List Event → Type 0
IsWhole = All (λ e. is_whole e.fault ≡ true)

next_event-whole : (w : List Event) → IsWhole w → is_whole (next_event w).fault ≡ true
next_event-whole [] h = refl
next_event-whole (e ∷ w) (h, _) = h

later_events-IsWhole : (w : List Event) → IsWhole w → IsWhole (later_events w)
later_events-IsWhole [] h = tt
later_events-IsWhole (e ∷ w) (_, h) = h

kept_whole :
    (f : Fault) (s : Str) → is_whole f ≡ true → reports_success f ≡ true → kept f s ≡ some s
kept_whole clear s w h = refl
kept_whole open_failed s w h = absurd (ground (arith, h))
kept_whole rename_failed s w h = absurd (ground (arith, h))
kept_whole (short_write n) s w h = absurd (ground (arith, w))

module _ (J : JsonLibrary) (st : Store) where
  weather-save :
      (k v : Str) (d : Disk)
      → ((save J st k v d).1.weather ≡ d.weather)
        ⊎ ((save J st k v d).1.weather ≡ later_events d.weather)
  unfolding save
  weather-save k v d = elim (Option-cases (J.dump 4 (stored_document J v))) [
    | inl e ↦ inl (ground (arith, e))
    | inr (s, e) ↦ inr (ground (arith, e))
  ]

  pub save-IsWhole :
      (k v : Str) (d : Disk) → IsWhole d.weather → IsWhole (save J st k v d).1.weather
  save-IsWhole k v d h = elim (weather-save k v d) [
    | inl e ↦ rw e h
    | inr e ↦ rw e (later_events-IsWhole d.weather h)
  ]

  -- A save that returns true has saved the text.
  pub load-save_whole :
      (L : IsLawful J) (k v : Str) (d : Disk)
      → IsWhole d.weather
      → (save J st k v d).0 ≡ some true
      → load J st k (save J st k v d).1 ≡ some v
  load-save_whole L k v d whole h = elim (Option-cases (J.dump 4 (stored_document J v))) [
    | inl e ↦ absurd (unfold save in ground (arith, e, h))
    | inr (s, e) ↦
        let result : some (reports_success (next_event d.weather).fault) ≡ some true =
          ap some (sym (atomic_write_result st k s d))
          ∙ sym (ap (λ (r : Option Bool × Disk). r.0) (save-eq_some J st k v d s e))
          ∙ h in
        let done : reports_success (next_event d.weather).fault ≡ true = ground (arith, result) in
        let (_, there) =
          save-kept J st k v s s d e done
            (kept_whole (next_event d.weather).fault s (next_event-whole d.weather whole) done) in
        load_content J st k s _ there ∙ parse_stored J st L v s e
  ]

-- Directories that are made leave the files, and the device as it is.
create_directory-IsWhole :
    (p : Str) (d : Disk)
    → IsWhole d.weather
    → ((create_directory p d).1.files ≡ d.files) × IsWhole (create_directory p d).1.weather
unfolding create_directory
create_directory-IsWhole p d whole = elim (Bool-cases (file_exists p d)) [
  | inl there ↦ simp there (refl, whole)
  | inr new ↦ simp new (refl, later_events-IsWhole d.weather whole)
]

pub initialize-IsWhole :
    (st : Store) (d : Disk)
    → IsWhole d.weather
    → ((initialize st d).1.files ≡ d.files) × IsWhole (initialize st d).1.weather
unfolding initialize
initialize-IsWhole st d whole =
    let (files₁, whole₁) = create_directory-IsWhole st.root_path d whole in
    let (files₂, whole₂) =
      create_directory-IsWhole st.service_path (create_directory st.root_path d).1 whole₁ in
    elim (Bool-cases (create_directory st.root_path d).0) [
      | inl made ↦ simp made (files₂ ∙ files₁, whole₂)
      | inr failed ↦ simp failed (files₁, whole₁)
    ]
