-- ===== src/Cli/Reports.antt =====
-- What a run of src/prov_cli.cpp reports, and which files it leaves as they are.
use iov_vehicle_tbox_prov.Base.{
  ◌≡◌, ◌⊎◌, refl, ◌||◌, if◌then◌else◌, Bool, true, false, Bool-cases, inl, inr, some, List, [], ◌∷◌,
  Str, str_eq, codes, arith,
}
use iov_vehicle_tbox_prov.Errors.{ErrorCode, is_success}
use iov_vehicle_tbox_prov.Json.{JsonLibrary}
use iov_vehicle_tbox_prov.Yaml.{YamlLibrary}
use iov_vehicle_tbox_prov.Store
use iov_vehicle_tbox_prov.Store.{Store, Disk}
use iov_vehicle_tbox_prov.Storage
use iov_vehicle_tbox_prov.Providers.{Snapshot, UidReadResult}
use iov_vehicle_tbox_prov.Application.{Settings, config_of}
use iov_vehicle_tbox_prov.Service
use iov_vehicle_tbox_prov.Service.{Inputs, new_service}
use iov_vehicle_tbox_prov.Service.Actions.{Service}
use iov_vehicle_tbox_prov.ConfigCheck.Reports.{
  IsReport, IsResult, refused-IsReport, check_config-IsResult,
}
use iov_vehicle_tbox_prov.ConfigCheck.{Report}
use iov_vehicle_tbox_prov.Cli.{
  Environment, Loaded, vin_line, store_of, load_failed, loaded, outcome, uid_report, run_write_vin,
  run_write_config, run_authorize, run_read_binding, run_command, run_service, run_configured,
  run_check_config, main,
}

outcome-IsReport :
    (done : Str) (failing : _) (code : ErrorCode) → IsReport (outcome done failing code)
unfolding IsReport
outcome-IsReport done failing code = ground arith

uid_report-IsReport : (t : Bool) (r : UidReadResult) → IsReport (uid_report t r)
unfolding IsReport
uid_report-IsReport t r = ground arith

if-IsReport :
    (b : Bool) (x y : Report × Service)
    → IsReport x.0
    → IsReport y.0
    → IsReport (if b then x else y).0
if-IsReport true x y p q = p
if-IsReport false x y p q = q

vin_line-IsReport : (vin : Str) → IsReport (0, vin_line vin ∷ [])
unfolding IsReport
vin_line-IsReport vin = ground arith

module _ (J : JsonLibrary) where
  run_write_vin-IsReport :
      (st : Store) (i : Inputs) (args : List Str) (s : Service)
      → IsReport (run_write_vin J st i args s).0
  unfolding run_write_vin
  run_write_vin-IsReport st i [] s = refused-IsReport _
  run_write_vin-IsReport st i (vin ∷ _) s = outcome-IsReport _ "Failed to write VIN: " _

  run_write_config-IsReport :
      (st : Store) (i : Inputs) (args : List Str) (s : Service)
      → IsReport (run_write_config J st i args s).0
  unfolding run_write_config
  run_write_config-IsReport st i [] s = refused-IsReport _
  run_write_config-IsReport st i (hex ∷ _) s =
      outcome-IsReport _ "Failed to write vehicle config: " _

  run_authorize-IsReport :
      (st : Store) (i : Inputs) (args : List Str) (s : Service)
      → IsReport (run_authorize J st i args s).0
  unfolding run_authorize
  run_authorize-IsReport st i [] s = refused-IsReport _
  run_authorize-IsReport st i (vin ∷ _) s = outcome-IsReport _ "Failed to authorize rewrite: " _

  run_command-IsReport :
      (st : Store) (i : Inputs) (t : Bool) (command : Str) (args : List Str) (s : Service)
      → IsReport (run_command J st i t command args s).0
  unfolding run_command run_read_binding IsReport
  run_command-IsReport st i t command args s =
      if-IsReport (str_eq command (codes "init")) _ _ (inl (refl, refl)) (
        if-IsReport (str_eq command (codes "write_vin")) _ _ (run_write_vin-IsReport st i args s) (
          if-IsReport (str_eq command (codes "read_vin")) _ _
            (vin_line-IsReport (Service.read_vin J st s))
            (if-IsReport (str_eq command (codes "read_uid")) _ _ (uid_report-IsReport t i.uid) (
              if-IsReport (str_eq command (codes "read_binding")) _ _ (inl (refl, refl)) (
                if-IsReport (str_eq command (codes "get_state")) _ _ (inl (refl, refl)) (
                  if-IsReport (str_eq command (codes "write_config")) _ _
                    (run_write_config-IsReport st i args s)
                    (if-IsReport (str_eq command (codes "authorize")) _ _
                      (run_authorize-IsReport st i args s) (inr (refl, refl)))))))))

  run_service-IsReport :
      (e : Environment) (cfg : Settings) (snapshot : Snapshot) (command : Str) (args : List Str)
      (d : Disk)
      → IsReport (run_service J e cfg snapshot command args d).0
  unfolding run_service
  run_service-IsReport e cfg snapshot command args d =
      elim (Bool-cases
        (is_success (Service.initialize J (store_of cfg) (new_service (config_of cfg) d)).0)) [
          | inl ok ↦ simp ok (run_command-IsReport _ _ _ command args _)
          | inr failed ↦ simp failed (refused-IsReport _)
        ]

  run_configured-IsReport :
      (e : Environment) (l : Loaded) (command : Str) (args : List Str) (d : Disk)
      → IsReport (run_configured J e l command args d).0
  unfolding run_configured
  run_configured-IsReport e (load_failed message) command args d = refused-IsReport _
  run_configured-IsReport e (loaded cfg snapshot) command args d =
      run_service-IsReport e cfg snapshot command args d

  run_service-same_files :
      (e : Environment) (cfg : Settings) (snapshot : Snapshot) (command : Str) (args : List Str)
      (d : Disk)
      → (str_eq command (codes "write_vin")
          || str_eq command (codes "write_config")
          || str_eq command (codes "authorize"))
        ≡ false
      → (run_service J e cfg snapshot command args d).1.files ≡ d.files
  unfolding run_service run_command Service.initialize Storage.initialize Store.initialize
      run_read_binding Service.read_binding
  run_service-same_files e cfg snapshot command args d h = ground (arith, h)

  run_configured-same_files :
      (e : Environment) (l : Loaded) (command : Str) (args : List Str) (d : Disk)
      → (str_eq command (codes "write_vin")
          || str_eq command (codes "write_config")
          || str_eq command (codes "authorize"))
        ≡ false
      → (run_configured J e l command args d).1.files ≡ d.files
  unfolding run_configured
  run_configured-same_files e (load_failed message) command args d h = refl
  run_configured-same_files e (loaded cfg snapshot) command args d h =
      run_service-same_files e cfg snapshot command args d h

  run_check_config-IsResult :
      (Y : YamlLibrary) (e : Environment) (args : List Str) → IsResult (run_check_config Y e args)
  unfolding run_check_config IsResult
  run_check_config-IsResult Y e [] = inr (_, refl, refused-IsReport _)
  run_check_config-IsResult Y e (path ∷ _) = check_config-IsResult Y e.what path

  -- Of the lines that src/prov_cli.cpp itself writes: every run but one of `check-config` ends with
  -- status 0 and none of them on the standard error output, or with status 1 and some of them on it.
  -- A run of `check-config` ends so too or with an exception, and leaves the device as it is. A run
  -- has a command.
  pub main_reports :
      (Y : YamlLibrary) (e : Environment) (command : Str) (args : List Str) (d : Disk)
      → ((str_eq command (codes "check-config") ≡ true)
          × IsResult (main J Y e (command ∷ args) d).0
          × ((main J Y e (command ∷ args) d).1 ≡ d))
        ⊎ ((str_eq command (codes "check-config") ≡ false)
            × ((r : Report) × ((main J Y e (command ∷ args) d).0 ≡ some r) × IsReport r))
  unfolding main
  main_reports Y e command args d = elim (Bool-cases (str_eq command (codes "check-config"))) [
    | inl check ↦ simp check (inl (refl, run_check_config-IsResult Y e args, refl))
    | inr other ↦
        simp other (inr (refl, (_, refl, run_configured-IsReport e e.configuration command args d)))
  ]

  -- A run that is not one of `write_vin`, `write_config` or `authorize` leaves every file as it
  -- is, whatever goes wrong on the device.
  pub main-same_files :
      (Y : YamlLibrary) (e : Environment) (command : Str) (args : List Str) (d : Disk)
      → (str_eq command (codes "write_vin")
          || str_eq command (codes "write_config")
          || str_eq command (codes "authorize"))
        ≡ false
      → (main J Y e (command ∷ args) d).1.files ≡ d.files
  unfolding main run_configured
  main-same_files Y e command args d h = elim (Bool-cases (str_eq command (codes "check-config"))) [
    | inl check ↦ simp check refl
    | inr other ↦ simp other (run_configured-same_files e e.configuration command args d h)
  ]
