-- ===== src/Tests/Dictionaries.antt =====
-- The store as a dictionary, on an empty disk.
use iov_vehicle_tbox_prov.Base.{◌≡◌, refl, true, Option, none, some, List, [], ◌∷◌, Str, codes}
use iov_vehicle_tbox_prov.Json.Example.{example, example-IsLawful}
use iov_vehicle_tbox_prov.Store.{find_file}
use iov_vehicle_tbox_prov.Store.Laws.{content}
use iov_vehicle_tbox_prov.Store.Dictionary.{
  Call, save_call, load_call, remove_call, exists_call, saved, loaded, told, look_all, call_all,
  Represents, call_all-Represents,
}
use iov_vehicle_tbox_prov.Tests.{empty_disk, store}

-- A dictionary without entries.
abbrev nothing : Str → Option Str
nothing k = none

nothing-Represents : Represents example store nothing empty_disk
unfolding content find_file
nothing-Represents = record { weather = refl; no_directory = λ k. refl; files = λ k. refl }

abbrev calls : List Call
calls =
    save_call (codes "a") (codes "1")
    ∷ save_call (codes "b") (codes "2")
    ∷ remove_call (codes "a")
    ∷ load_call (codes "a")
    ∷ exists_call (codes "b")
    ∷ []

-- What the dictionary answers to them.
calls_answered :
    (look_all calls nothing).0
    ≡ saved (some true) ∷ saved (some true) ∷ told true ∷ loaded none ∷ told true ∷ []
unfolding look_all
calls_answered = refl

call_all-Represents_example :
    ((call_all example store calls empty_disk).0 ≡ (look_all calls nothing).0)
    × Represents example store
        (look_all calls nothing).1
        (call_all example store calls empty_disk).1
unfolding example
call_all-Represents_example =
    call_all-Represents example store example-IsLawful calls nothing empty_disk
      (refl, (refl, (tt, (tt, (tt, tt))))) nothing-Represents
