-- ===== src/Store/Directories.antt =====
-- `Store::initialize` of src/framework_store.cpp and the directories that it makes.
use iov_vehicle_tbox_prov.Base.{
  ◌≡◌, refl, ap, sym, ◌∙◌, Bool, true, Bool-cases, inl, inr, List, Str, str_eq_refl, arith,
}
use iov_vehicle_tbox_prov.Store.{
  Fault, clear, open_failed, rename_failed, short_write, Event, Disk, Store, next_event,
  later_events, contains_path, file_exists, make_directory, create_directory, initialize,
}

make_directory-made :
    (f : Fault) (p : Str) (dirs : List Str)
    → (make_directory f p dirs).0 ≡ true
    → contains_path p (make_directory f p dirs).1 ≡ true
make_directory-made clear p dirs h = ground (arith, str_eq_refl p)
make_directory-made open_failed p dirs h = absurd (ground (arith, h))
make_directory-made rename_failed p dirs h = absurd (ground (arith, h))
make_directory-made (short_write n) p dirs h = absurd (ground (arith, h))

make_directory-kept :
    (f : Fault) (p q : Str) (dirs : List Str)
    → contains_path q dirs ≡ true
    → contains_path q (make_directory f p dirs).1 ≡ true
make_directory-kept clear p q dirs h = ground (arith, h)
make_directory-kept open_failed p q dirs h = h
make_directory-kept rename_failed p q dirs h = h
make_directory-kept (short_write n) p q dirs h = h

create_directory-there :
    (p : Str) (d : Disk) → file_exists p d ≡ true → create_directory p d ≡ (true, d)
unfolding create_directory
create_directory-there p d h = simp h refl

listed-file_exists :
    (q : Str) (d : Disk) → contains_path q d.directories ≡ true → file_exists q d ≡ true
unfolding file_exists
listed-file_exists q d h = ground (arith, h)

-- What is there stays, if no directory is taken away.
kept-file_exists :
    (q : Str) (d : Disk) (dirs : List Str) (w : List Event)
    → (contains_path q d.directories ≡ true → contains_path q dirs ≡ true)
    → file_exists q d ≡ true
    → file_exists q (record d { directories = dirs; weather = w }) ≡ true
unfolding file_exists
kept-file_exists q d dirs w keep h = ground (arith, keep, h)

-- The disk after a directory was asked for that is not there.
abbrev made_disk : Str → Disk → Disk
made_disk p d = record d {
  directories = (make_directory (next_event d.weather).fault p d.directories).1;
  weather = later_events d.weather;
}

create_directory-made :
    (p : Str) (d : Disk)
    → (create_directory p d).0 ≡ true
    → file_exists p (create_directory p d).1 ≡ true
unfolding create_directory
create_directory-made p d h = elim (Bool-cases (file_exists p d)) [
  | inl there ↦ rw there there
  | inr new ↦ rw new (
      listed-file_exists p (made_disk p d)
        (make_directory-made (next_event d.weather).fault p d.directories (simp new at h)))
]

create_directory-kept :
    (p q : Str) (d : Disk) → file_exists q d ≡ true → file_exists q (create_directory p d).1 ≡ true
unfolding create_directory
create_directory-kept p q d h = elim (Bool-cases (file_exists p d)) [
  | inl there ↦ rw there h
  | inr new ↦ rw new (
      kept-file_exists q d (make_directory (next_event d.weather).fault p d.directories).1
        (later_events d.weather)
        (make_directory-kept (next_event d.weather).fault p q d.directories) h)
]

initialize-there :
    (st : Store) (d : Disk)
    → file_exists st.root_path d ≡ true
    → file_exists st.service_path d ≡ true
    → initialize st d ≡ (true, d)
unfolding initialize
initialize-there st d root service =
    simp
      (create_directory-there st.root_path d root, create_directory-there st.service_path d service)
      refl

initialize-made :
    (st : Store) (d : Disk)
    → (create_directory st.root_path d).0 ≡ true
    → initialize st d ≡ create_directory st.service_path (create_directory st.root_path d).1
unfolding initialize
initialize-made st d root = simp root refl

initialize-root :
    (st : Store) (d : Disk)
    → (initialize st d).0 ≡ true
    → (create_directory st.root_path d).0 ≡ true
unfolding initialize
initialize-root st d h = elim (Bool-cases (create_directory st.root_path d).0) [
  | inl root ↦ root
  | inr failed ↦ absurd (ground (arith, failed, h))
]

-- A store that was initialized needs nothing of the device to be initialized again: that succeeds
-- and changes nothing.
pub initialize_twice :
    (st : Store) (d : Disk)
    → (initialize st d).0 ≡ true
    → initialize st (initialize st d).1 ≡ (true, (initialize st d).1)
initialize_twice st d h =
    let root = initialize-root st d h in
    let e = initialize-made st d root in
    let made =
      create_directory-made st.service_path (create_directory st.root_path d).1
        (sym (ap (λ (r : Bool × Disk). r.0) e) ∙ h) in
    let kept =
      create_directory-kept st.service_path st.root_path (create_directory st.root_path d).1
        (create_directory-made st.root_path d root) in
    rw e (initialize-there st _ kept made)
