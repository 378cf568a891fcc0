-- ===== src/Tests/Life.antt =====
-- The life of an application on an empty disk.
use iov_vehicle_tbox_prov.Base.{◌≡◌, ◌⊎◌, refl, Bool, true, false, some, [], ◌∷◌, arith}
use iov_vehicle_tbox_prov.Errors.{ErrorCode, storage_error, is_success}
use iov_vehicle_tbox_prov.Json.Example.{example}
use iov_vehicle_tbox_prov.Store
use iov_vehicle_tbox_prov.Store.{
  Store, Disk, calm, open_failed, create_directory, file_exists, find_file, new_store,
}
use iov_vehicle_tbox_prov.Service.{new_service}
use iov_vehicle_tbox_prov.Service.Actions.{Service, ServiceConfig}
use iov_vehicle_tbox_prov.Application.{
  Application, Settings, store_of, config_of, new_application, initialize, initialize_by,
}
use iov_vehicle_tbox_prov.Application.Lifecycle.{
  IsReleased, IsServing, LeavesService, initialize_outcomes,
}
use iov_vehicle_tbox_prov.Tests.{empty_disk}

-- A configuration that leaves every setting at its default.
abbrev defaults : Settings
defaults = record {
  get_string = λ k fallback. fallback;
  get_int = λ k fallback. fallback;
  get_bool = λ k fallback. fallback;
}

-- An initialization of the service at which std::filesystem::exists throws.
abbrev unsearchable : Store → ServiceConfig → Disk → ErrorCode × Service
unsearchable st config d = (storage_error, new_service config d)

abbrev half_open : Bool × Application
half_open = initialize_by unsearchable true (some defaults) (new_application empty_disk)

initialize_outcomes_example :
    ((half_open.0 ≡ false) × IsReleased half_open.1)
    ⊎ (((half_open.0 ≡ true) × (true ≡ true) × IsServing half_open.1)
        ⊎ ((half_open.0 ≡ false)
            × ((c : Settings) × (some defaults ≡ some c)
                × ((Store.initialize (store_of c) empty_disk).0 ≡ true)
                × (is_success
                      (unsearchable
                        (store_of c)
                        (config_of c)
                        (Store.initialize (store_of c) empty_disk).1).0
                    ≡ false)
                × LeavesService
                    (unsearchable
                      (store_of c)
                      (config_of c)
                      (Store.initialize (store_of c) empty_disk).1).1
                    half_open.1)))
initialize_outcomes_example =
    initialize_outcomes unsearchable (λ st config d ok. absurd (ground (arith, ok))) true
      (some defaults) empty_disk

-- A disk on which the first directory cannot be made.
abbrev read_only_disk : Disk
read_only_disk = record {
  files = [];
  directories = [];
  weather = record { fault = open_failed; rolls = λ _. 0 } ∷ [];
}

read_only-fails :
    (initialize example true (some defaults) (new_application read_only_disk)).0 ≡ false
unfolding initialize Store.initialize create_directory file_exists find_file
read_only-fails = refl
