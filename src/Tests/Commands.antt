-- ===== src/Tests/Commands.antt =====
-- The command line tool on an empty disk, and the check of three files.
use iov_vehicle_tbox_prov.Base.{
  ◌≡◌, ◌↔◌, ◌⊎◌, refl, ap, if◌then◌else◌, true, false, Option, none, some, [], ◌∷◌, ◌++◌, str_eq,
  codes,
}
use iov_vehicle_tbox_prov.Json.Example.{example, example-IsLawful}
use iov_vehicle_tbox_prov.Yaml.Example.{example as yaml_example}
use iov_vehicle_tbox_prov.Yaml.{YamlLibrary}
use iov_vehicle_tbox_prov.Store
use iov_vehicle_tbox_prov.Store.{Disk, load, file_exists}
use iov_vehicle_tbox_prov.Storage
use iov_vehicle_tbox_prov.Providers.{Snapshot, UidReadResult, uid_found, read_uid_detailed}
use iov_vehicle_tbox_prov.Application.{Settings}
use iov_vehicle_tbox_prov.ConfigCheck.{out, Report, check_config, check_document}
use iov_vehicle_tbox_prov.ConfigCheck.Spec.{IsAccepted, IsPass, check_config_iff}
use iov_vehicle_tbox_prov.ConfigCheck.Reports.{IsReport, IsResult}
use iov_vehicle_tbox_prov.Cli.{Environment, loaded, main, inputs_of, store_of}
use iov_vehicle_tbox_prov.Cli.Reports.{main_reports, main-same_files}
use iov_vehicle_tbox_prov.Cli.Recorded.{write_vin_reports, write_vin-read_vin}
use iov_vehicle_tbox_prov.Tests.{empty_disk, vin, vin-validates}

-- A configuration that leaves every setting at its default, and gives a UID to a test build.
abbrev defaults : Settings
defaults = record {
  get_string = λ k fallback. fallback;
  get_int = λ k fallback. fallback;
  get_bool = λ k fallback. fallback;
}

abbrev snapshot : Snapshot
snapshot = record {
  has = λ k. str_eq k (codes "ecu.uid");
  get_string = λ k. if str_eq k (codes "ecu.uid") then codes "UID-1" else [];
}

abbrev environment : Environment
environment = record {
  configuration = loaded defaults snapshot;
  clock = λ _. 1700000000000000000;
  test_environment = true;
  what = codes "bad file";
}

abbrev yaml : YamlLibrary
yaml = yaml_example

abbrev written : Option Report × Disk
written = main example yaml environment (codes "write_vin" ∷ vin ∷ []) empty_disk

check_config_iff_example :
    IsPass yaml (check_config yaml (codes "bad file") (codes "prov.yaml")) ↔ (
      (config : yaml.Node) × (yaml.load_file (codes "prov.yaml") ≡ some config)
      × IsAccepted yaml config)
check_config_iff_example = check_config_iff yaml (codes "bad file") (codes "prov.yaml")

-- The three files: one that passes, one with a field for tests, and one whose `prov` is a
-- scalar, at which the tool ends with an exception.
deployed_passes :
    check_config yaml (codes "bad file") (codes "prov.yaml")
    ≡ some (0, out (codes "PASS: prov.yaml") ∷ [])
unfolding check_config check_document yaml_example
deployed_passes = refl

flat_throws : check_config yaml (codes "bad file") (codes "flat.yaml") ≡ none
unfolding check_config check_document yaml_example
flat_throws = refl

main-same_files_example :
    (main example yaml environment (codes "read_binding" ∷ []) empty_disk).1.files ≡ []
main-same_files_example =
    main-same_files example yaml environment (codes "read_binding") [] empty_disk refl

main_reports_example :
    ((false ≡ true)
      × IsResult (main example yaml environment (codes "read_binding" ∷ []) empty_disk).0
      × ((main example yaml environment (codes "read_binding" ∷ []) empty_disk).1 ≡ empty_disk))
    ⊎ ((false ≡ false)
        × ((r : Report) × ((main example yaml environment (codes "read_binding" ∷ []) empty_disk).0
              ≡ some r)
            × IsReport r))
main_reports_example = main_reports example yaml environment (codes "read_binding") [] empty_disk

readable : (inputs_of environment snapshot).uid ≡ uid_found (codes "UID-1")
unfolding inputs_of read_uid_detailed
readable = refl

unprotected :
    (Storage.initialize example
      (store_of defaults)
      (record { write_protected = false; disk = empty_disk })).1.write_protected
    ≡ false
unfolding example Storage.initialize Store.initialize load file_exists Store.new_store
unprotected = refl

-- What a run that writes the VIN reports, and that it leaves no fault ahead.
written_reports :
    (written.0 ≡ some (0, out (codes "VIN written successfully: " ++ vin) ∷ []))
    × (written.1.weather ≡ [])
written_reports =
    write_vin_reports example example-IsLawful yaml environment defaults snapshot vin [] empty_disk
      refl refl unprotected vin-validates (ap (λ (r : UidReadResult). r.succeeded) readable)
      (rw readable (example-IsLawful.utf8-ascii (codes "UID-1") refl))

write_vin-read_vin_example :
    (main example yaml environment (codes "read_vin" ∷ []) written.1).0
    ≡ some (0, out (codes "VIN: " ++ vin) ∷ [])
write_vin-read_vin_example =
    write_vin-read_vin example example-IsLawful yaml environment environment defaults defaults
      snapshot snapshot vin [] [] empty_disk (out (codes "VIN written successfully: " ++ vin) ∷ [])
      refl refl refl written_reports.0 written_reports.1
