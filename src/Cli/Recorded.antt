-- ===== src/Cli/Recorded.antt =====
-- `prov_cli write_vin` and `prov_cli read_vin` of src/prov_cli.cpp, one process after another.
use iov_vehicle_tbox_prov.Base.{
  ◌≡◌, refl, sym, ap, ◌∙◌, Bool, true, false, Bool-cases, Option-cases, inl, inr, Option, none,
  some, List, [], ◌∷◌, ◌++◌, Str, str_eq, is_empty, codes, arith,
}
use iov_vehicle_tbox_prov.Errors.{ErrorCode, success, is_success}
use iov_vehicle_tbox_prov.Types.{VehicleBinding}
use iov_vehicle_tbox_prov.Vin
use iov_vehicle_tbox_prov.Vin.Spec.{validate_iff}
use iov_vehicle_tbox_prov.Json.{JsonLibrary, IsLawful}
use iov_vehicle_tbox_prov.Yaml.{YamlLibrary}
use iov_vehicle_tbox_prov.Store.{Store, Disk}
use iov_vehicle_tbox_prov.Store.Laws.{initialize_calm}
use iov_vehicle_tbox_prov.Storage
use iov_vehicle_tbox_prov.Storage.{Storage}
use iov_vehicle_tbox_prov.Providers.{
  Snapshot, read_uid_detailed, hardware_uid, config_uid, read_uid_from_config,
}
use iov_vehicle_tbox_prov.Application.{Settings, config_of}
use iov_vehicle_tbox_prov.Service
use iov_vehicle_tbox_prov.Service.{Inputs, new_service, read_vin}
use iov_vehicle_tbox_prov.Service.Actions.{Service, ServiceConfig}
use iov_vehicle_tbox_prov.Service.Success.{IsHonest, write_vin-success}
use iov_vehicle_tbox_prov.Service.Completion.{IsCalm, write_vin_completes}
use iov_vehicle_tbox_prov.Service.Restart.{binding-same_files, initialize-fresh}
use iov_vehicle_tbox_prov.ConfigCheck.{Line, out, Report}
use iov_vehicle_tbox_prov.Cli.{
  Environment, loaded, store_of, inputs_of, run_write_vin, run_command, run_service, run_configured,
  main,
}

-- Both providers fail with an error code.
read_uid_detailed-IsHonest :
    (t : Bool) (snapshot : Option Snapshot) → IsHonest (read_uid_detailed t snapshot)
unfolding read_uid_detailed hardware_uid config_uid read_uid_from_config
read_uid_detailed-IsHonest t none = ground arith
read_uid_detailed-IsHonest t (some cfg) = ground arith

validate-is_empty : (vin : Str) → Vin.validate vin ≡ true → is_empty vin ≡ false
validate-is_empty [] h = absurd (ground (arith, (validate_iff []).0 h))
validate-is_empty (c ∷ vin) h = refl

is_success_lem : (c : ErrorCode) → is_success c ≡ true → c ≡ success
is_success_lem c h = ground (arith, h)

module _ (J : JsonLibrary) where
  -- A service that gives a VIN has it in its storage.
  read_vin-there :
      (st : Store) (vin : Str) (s : Service)
      → is_empty vin ≡ false
      → read_vin J st s ≡ vin
      → (b : VehicleBinding) × (Storage.read_vehicle_binding J st s.storage ≡ some b)
        × (b.vin ≡ vin)
  unfolding read_vin
  read_vin-there st vin s filled h =
      elim (Option-cases (Storage.read_vehicle_binding J st s.storage)) [
        | inl e ↦ absurd (ground (arith, e, h, filled))
        | inr (b, e) ↦ (b, e, ground (arith, e, h, filled))
      ]

  -- A run that loads its configuration.
  main_run :
      (Y : YamlLibrary) (e : Environment) (cfg : Settings) (snapshot : Snapshot) (command : Str)
      (args : List Str) (d : Disk)
      → e.configuration ≡ loaded cfg snapshot
      → str_eq command (codes "check-config") ≡ false
      → main J Y e (command ∷ args) d ≡ (
        some (run_service J e cfg snapshot command args d).0,
        (run_service J e cfg snapshot command args d).1,
      )
  unfolding main run_configured
  main_run Y e cfg snapshot command args d c other = simp (other, c) refl

  -- A run of `write_vin` with status 0.
  write_run :
      (e : Environment) (cfg : Settings) (snapshot : Snapshot) (vin : Str) (rest : List Str)
      (d : Disk)
      → (run_service J e cfg snapshot (codes "write_vin") (vin ∷ rest) d).0.0 ≡ 0
      → (s : Service) × ((run_service J e cfg snapshot (codes "write_vin") (vin ∷ rest) d).1
          ≡ s.storage.disk)
        × (is_empty vin ≡ false)
        × (read_vin J (store_of cfg) s ≡ vin)
  unfolding run_service run_command run_write_vin inputs_of
  write_run e cfg snapshot vin rest d h =
      let st = store_of cfg in
      let (code, s) = Service.initialize J st (new_service (config_of cfg) d) in
      let i = inputs_of e snapshot in
      elim (Bool-cases (is_success code)) [
        | inr failed ↦ absurd (ground (arith, simp failed at h))
        | inl opened ↦ elim (Bool-cases (is_success (Service.write_vin J st i vin s).0)) [
          | inr failed ↦ absurd (ground (arith, simp (opened, failed) at h))
          | inl written ↦
              let (valid, read, _) =
                write_vin-success J st i vin s
                  (read_uid_detailed-IsHonest e.test_environment (some snapshot))
                  (is_success_lem _ written) in
              simp (opened, written)
                ((Service.write_vin J st i vin s).1, refl, validate-is_empty vin valid, read)
        ]
      ]

  -- A run of `read_vin` over a disk that holds a binding of that VIN.
  module _ (L : IsLawful J) where
    weather_calm :
        (st : Store) (t : Storage)
        → t.disk.weather ≡ []
        → (Storage.initialize J st t).1.disk.weather ≡ []
    unfolding Storage.initialize
    weather_calm st t calm =
        let (ok, _, weather) = initialize_calm st t.disk calm in simp ok weather

    opens_calm :
        (st : Store) (t : Storage)
        → t.disk.weather ≡ []
        → ((Storage.initialize J st t).0 ≡ success)
          × ((Storage.initialize J st t).1.disk.files ≡ t.disk.files)
    unfolding Storage.initialize
    opens_calm st t calm =
        let (ok, files, _) = initialize_calm st t.disk calm in simp ok (refl, files)

    -- A new service over a disk with no fault ahead and no protection on it.
    fresh_opens :
        (st : Store) (c : ServiceConfig) (d : Disk)
        → d.weather ≡ []
        → (Storage.initialize J st (record { write_protected = false; disk = d })).1.write_protected
          ≡ false
        → let r = Service.initialize J st (new_service c d) in
          (r.0 ≡ success)
          × (r.1.initialized ≡ true)
          × (r.1.shutting_down ≡ false)
          × IsCalm J st L r.1
    fresh_opens st c d calm unprotected =
        let t : Storage = record { write_protected = false; disk = d } in
        let (ok, _) = opens_calm st t calm in
        rw (initialize-fresh J st L c d) (
          ok,
          rw ok refl,
          refl,
          record { unprotected = unprotected; weather = weather_calm st t calm },
        )

    -- Let the JSON library be lawful, the configuration be loaded, the device have no fault ahead
    -- and no protection recorded, the VIN be valid, and the UID be read and UTF-8. Then a run of
    -- `write_vin` ends with status 0, says so, and leaves no fault ahead.
    pub write_vin_reports :
        (Y : YamlLibrary) (e : Environment) (cfg : Settings) (snapshot : Snapshot) (vin : Str)
        (rest : List Str) (d : Disk)
        → e.configuration ≡ loaded cfg snapshot
        → d.weather ≡ []
        → (Storage.initialize J
            (store_of cfg)
            (record { write_protected = false; disk = d })).1.write_protected
          ≡ false
        → Vin.validate vin ≡ true
        → (inputs_of e snapshot).uid.succeeded ≡ true
        → J.utf8 (inputs_of e snapshot).uid.uid ≡ true
        → ((main J Y e (codes "write_vin" ∷ vin ∷ rest) d).0
            ≡ some (0, out (codes "VIN written successfully: " ++ vin) ∷ []))
          × ((main J Y e (codes "write_vin" ∷ vin ∷ rest) d).1.weather ≡ [])
    unfolding run_service run_command run_write_vin
    write_vin_reports Y e cfg snapshot vin rest d c calm unprotected valid uid text =
        let st = store_of cfg in
        let (ok, ready, running, calm') = fresh_opens st (config_of cfg) d calm unprotected in
        let (written, done) =
          write_vin_completes J st L (inputs_of e snapshot) vin
            (Service.initialize J st (new_service (config_of cfg) d)).1 ready running calm' valid
            uid text in
        rw (main_run Y e cfg snapshot (codes "write_vin") (vin ∷ rest) d c refl)
          (simp (ok, written) (refl, done.weather))

    -- A process that opens that disk reads the VIN.
    reopened_reads :
        (st : Store) (c : ServiceConfig) (s : Service) (b : VehicleBinding)
        → s.storage.disk.weather ≡ []
        → Storage.read_vehicle_binding J st s.storage ≡ some b
        → let r = Service.initialize J st (new_service c s.storage.disk) in
          (r.0 ≡ success) × (read_vin J st r.1 ≡ b.vin)
    unfolding Service.read_vin
    reopened_reads st c s b calm there =
        let t : Storage = record { write_protected = false; disk = s.storage.disk } in
        let (ok, files) = opens_calm st t calm in
        let kept =
          binding-same_files J st L s.storage (Storage.initialize J st t).1 b files there in
        rw (initialize-fresh J st L c s.storage.disk) (simp (ok, kept) (refl, refl))

    read_run :
        (e : Environment) (cfg : Settings) (snapshot : Snapshot) (rest : List Str) (s : Service)
        (b : VehicleBinding)
        → is_empty b.vin ≡ false
        → s.storage.disk.weather ≡ []
        → Storage.read_vehicle_binding J (store_of cfg) s.storage ≡ some b
        → (run_service J e cfg snapshot (codes "read_vin") rest s.storage.disk).0
          ≡ (0, out (codes "VIN: " ++ b.vin) ∷ [])
    unfolding run_service run_command
    read_run e cfg snapshot rest s b filled calm there =
        let (ok, read) = reopened_reads (store_of cfg) (config_of cfg) s b calm there in
        simp (ok, read, filled) refl

    -- Let the JSON library be lawful, and let a run of `write_vin` for `vin` end with status 0,
    -- whatever goes wrong on the device during it, and leave no fault ahead. Then a later run of
    -- `read_vin`, whose configuration gives the same store root, ends with status 0, and the one
    -- line that src/prov_cli.cpp itself writes in it is that VIN's.
    pub write_vin-read_vin :
        (Y : YamlLibrary) (e e' : Environment) (cfg cfg' : Settings) (snapshot snapshot' : Snapshot)
        (vin : Str) (rest rest' : List Str) (d : Disk) (lines : List Line)
        → e.configuration ≡ loaded cfg snapshot
        → e'.configuration ≡ loaded cfg' snapshot'
        → store_of cfg' ≡ store_of cfg
        → (main J Y e (codes "write_vin" ∷ vin ∷ rest) d).0 ≡ some (0, lines)
        → (main J Y e (codes "write_vin" ∷ vin ∷ rest) d).1.weather ≡ []
        → (main J Y e'
            (codes "read_vin" ∷ rest')
            (main J Y e (codes "write_vin" ∷ vin ∷ rest) d).1).0
          ≡ some (0, out (codes "VIN: " ++ vin) ∷ [])
    write_vin-read_vin Y e e' cfg cfg' snapshot snapshot' vin rest rest' d lines c c' roots ok
          calm =
        let first = main_run Y e cfg snapshot (codes "write_vin") (vin ∷ rest) d c refl in
        let ran : some (run_service J e cfg snapshot (codes "write_vin") (vin ∷ rest) d).0
            ≡ some (0, lines) =
          sym (ap (λ (r : Option Report × Disk). r.0) first) ∙ ok in
        let (s, disk, filled, read) = write_run e cfg snapshot vin rest d (ground (arith, ran)) in
        let (b, there, same) = read_vin-there (store_of cfg) vin s filled read in
        let left : (main J Y e (codes "write_vin" ∷ vin ∷ rest) d).1 ≡ s.storage.disk =
          ap (λ (r : Option Report × Disk). r.1) first ∙ disk in
        let still : s.storage.disk.weather ≡ [] = cc (left, calm) in
        let second = read_run e' cfg' snapshot' rest' s b (rw same filled) still (rw roots there) in
        rw (left, main_run Y e' cfg' snapshot' (codes "read_vin") rest' s.storage.disk c' refl)
          (rw (second, same) refl)
