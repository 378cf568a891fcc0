-- ===== src/Cli.antt =====
-- src/prov_cli.cpp: the command line tool, as the report of one run and the disk that it leaves. The
-- report has the lines that this file itself writes. What src/protected_storage.cpp and
-- include/framework_store.h write to the same two outputs, such as the `[storage]` lines of a read
-- and the message for a file that cannot be parsed, is left out.
-- The loaded configuration, the clock and the build's `TEST_ENVIRONMENT` are parameters.
pub mod Reports
pub mod Recorded
use iov_vehicle_tbox_prov.Base.{
  ℕ, if◌then◌else◌, Bool, true, false, Option, none, some, List, [], ◌∷◌, ◌++◌, Str, String, str_eq,
  is_empty, codes, decimal,
}
use iov_vehicle_tbox_prov.Errors.{ErrorCode, is_success, error_code_to_string}
use iov_vehicle_tbox_prov.Types.{ProvisionState, vin_written, bound, failed, VehicleBinding}
use iov_vehicle_tbox_prov.Json.{JsonLibrary}
use iov_vehicle_tbox_prov.Yaml.{YamlLibrary}
use iov_vehicle_tbox_prov.Store.{Store, Disk, new_store}
use iov_vehicle_tbox_prov.Providers.{
  Snapshot, UidReadResult, read_uid_detailed, read_sn, is_se_hardware_present,
}
use iov_vehicle_tbox_prov.Application.{Settings, config_of}
use iov_vehicle_tbox_prov.Service
use iov_vehicle_tbox_prov.Service.{Inputs, new_service}
use iov_vehicle_tbox_prov.Service.Actions.{Service}
use iov_vehicle_tbox_prov.ConfigCheck.{Line, out, err, Report, check_config}

-- What `CONFIG_MANAGER.load` does.
pub data Loaded : Type 0 where
  load_failed : Str → Loaded
  loaded : Settings → Snapshot → Loaded

-- What a run obtains from outside: `what` is the text of an exception of the YAML library.
pub record Environment : Type 0 where
  pub configuration : Loaded
  pub clock : ℕ → ℕ
  pub test_environment : Bool
  pub what : Str

-- The readings of the clock and the results of the two providers.
unfoldable pub inputs_of : Environment → Snapshot → Inputs
inputs_of e snapshot = record {
  clock = e.clock;
  uid = read_uid_detailed e.test_environment (some snapshot);
  sn = read_sn e.test_environment (some snapshot);
}

abbrev pub store_of : Settings → Store
store_of cfg =
    new_store (codes "prov") (cfg.get_string (codes "common.store.root") (codes "/tmp/tbox"))

-- `print_usage`
abbrev usage : List Line
usage =
    out (codes "PROV CLI Tool")
    ∷ out (codes "Usage: prov_cli <command> [args...]")
    ∷ out []
    ∷ out (codes "Commands:")
    ∷ out (codes "  init                    - Initialize PROV service")
    ∷ out (codes "  write_vin <vin>         - Write VIN")
    ∷ out (codes "  read_vin                - Read VIN")
    ∷ out (codes "  read_uid                - Read ECU UID")
    ∷ out (codes "  read_binding            - Read binding info")
    ∷ out (codes "  get_state               - Get provision state")
    ∷ out (codes "  write_config <hex>      - Write vehicle config")
    ∷ out (codes "  authorize <vin>         - Authorize rewrite")
    ∷ out (codes "  check-config <path>     - Validate a PROV config file (no side effects)")
    ∷ []

abbrev succeed : List Line → Report
succeed lines = (0, lines)

abbrev refuse : Str → Report
refuse line = (1, err line ∷ [])

-- What is printed after a call of the service.
abbrev pub outcome : Str → String → ErrorCode → Report
outcome done failing code =
    if is_success code
    then succeed (out done ∷ [])
    else refuse (codes failing ++ codes (error_code_to_string code))

-- The `switch` over a state: no case for a byte that no enumerator has.
abbrev pub state_name : ProvisionState → Str
state_name ProvisionState.none = codes "NONE"
state_name vin_written = codes "VIN_WRITTEN"
state_name bound = codes "BOUND"
state_name failed = codes "FAILED"
state_name (ProvisionState.unnamed n) = []

abbrev pub vin_line : Str → Line
vin_line vin = if is_empty vin then out (codes "VIN: (not written)") else out (codes "VIN: " ++ vin)

-- `is_se_hardware_present()` and `is_test_environment()` of the reader.
abbrev source_line : Bool → Line
source_line test_environment =
    if is_se_hardware_present
    then out (codes "Source: SE hardware")
    else if test_environment
    then out (codes "Source: Config (test environment)")
    else out (codes "Source: Unknown")

abbrev pub uid_report : Bool → UidReadResult → Report
uid_report test_environment r =
    if r.succeeded
    then succeed (out (codes "ECU UID: " ++ r.uid) ∷ source_line test_environment ∷ [])
    else (
      1,
      err (codes "Failed to read ECU UID: " ++ codes r.error_message)
          ∷ err (codes "Error Code: " ++ codes (error_code_to_string r.error_code))
          ∷ [],
    )

abbrev or_text : Str → Str → Str
or_text absent s = if is_empty s then absent else s

abbrev binding_lines : VehicleBinding → List Line
binding_lines b =
    out (codes "Binding Info:")
    ∷ out (codes "  VIN: " ++ or_text (codes "(not written)") b.vin)
    ∷ out (codes "  ECU UID: " ++ or_text (codes "(not available)") b.ecu_uid)
    ∷ out (codes "  State: " ++ state_name b.state)
    ∷ out (codes "  Locked: " ++ (if b.locked then codes "true" else codes "false"))
    ∷ out (codes "  Retry Count: " ++ decimal b.retry_count)
    ∷ out (codes "  Rewrite Count: " ++ decimal b.rewrite_count)
    ∷ []

unfoldable pub run_check_config : YamlLibrary → Environment → List Str → Option Report
unfolding check_config
run_check_config Y e [] = some (refuse (codes "Usage: prov_cli check-config <config-path>"))
run_check_config Y e (path ∷ _) = check_config Y e.what path

module _ (J : JsonLibrary) where
  -- The commands on an initialized service.
  unfoldable pub run_write_vin : Store → Inputs → List Str → Service → Report × Service
  run_write_vin st i [] s = (refuse (codes "Usage: prov_cli write_vin <vin>"), s)
  run_write_vin st i (vin ∷ _) s =
      let (code, t) = Service.write_vin J st i vin s in
      (outcome (codes "VIN written successfully: " ++ vin) "Failed to write VIN: " code, t)

  unfoldable pub run_write_config : Store → Inputs → List Str → Service → Report × Service
  run_write_config st i [] s = (refuse (codes "Usage: prov_cli write_config <hex_data>"), s)
  run_write_config st i (hex_data ∷ _) s =
      let (code, t) = Service.write_vehicle_config J st i hex_data s in
      (
        outcome (codes "Vehicle config written successfully") "Failed to write vehicle config: "
            code,
        t,
      )

  unfoldable pub run_authorize : Store → Inputs → List Str → Service → Report × Service
  run_authorize st i [] s = (refuse (codes "Usage: prov_cli authorize <new_vin>"), s)
  run_authorize st i (vin ∷ _) s =
      let (code, t) = Service.authorize_rewrite J st i vin s in
      (outcome (codes "Rewrite authorized successfully") "Failed to authorize rewrite: " code, t)

  unfoldable pub run_read_binding : Store → Inputs → Service → Report × Service
  run_read_binding st i s =
      let (b, t) = Service.read_binding J st i s in (succeed (binding_lines b), t)

  -- The chain of tests on the command.
  unfoldable pub run_command : Store → Inputs → Bool → Str → List Str → Service → Report × Service
  unfolding run_write_vin run_write_config run_authorize run_read_binding
  run_command st i test_environment command args s =
      if str_eq command (codes "init")
      then (succeed (out (codes "PROV service initialized successfully") ∷ []), s)
      else if str_eq command (codes "write_vin")
      then run_write_vin st i args s
      else if str_eq command (codes "read_vin")
      then (succeed (vin_line (Service.read_vin J st s) ∷ []), s)
      else if str_eq command (codes "read_uid")
      then (uid_report test_environment i.uid, s)
      else if str_eq command (codes "read_binding")
      then run_read_binding st i s
      else if str_eq command (codes "get_state")
      then (
        succeed (
            out (codes "Provision State: " ++ state_name (Service.get_provision_state J st s))
            ∷ []),
        s,
      )
      else if str_eq command (codes "write_config")
      then run_write_config st i args s
      else if str_eq command (codes "authorize")
      then run_authorize st i args s
      else ((1, err (codes "Unknown command: " ++ command) ∷ usage), s)

  -- `main` from the loaded configuration on.
  unfoldable pub run_service :
      Environment → Settings → Snapshot → Str → List Str → Disk → Report × Disk
  unfolding run_command inputs_of
  run_service e cfg snapshot command args d =
      let (result, s) = Service.initialize J (store_of cfg) (new_service (config_of cfg) d) in
      let (report, t) =
        run_command (store_of cfg) (inputs_of e snapshot) e.test_environment command args s in
      if is_success result then (report, t.storage.disk) else (
        refuse (codes "Failed to initialize PROV service: " ++ codes (error_code_to_string result)),
        s.storage.disk,
      )

  unfoldable pub run_configured : Environment → Loaded → Str → List Str → Disk → Report × Disk
  unfolding run_service
  run_configured e (load_failed message) command args d =
      (refuse (codes "Config load failed: " ++ message), d)
  run_configured e (loaded cfg snapshot) command args d = run_service e cfg snapshot command args d

  -- `main` on the arguments after the program's name; no report is an exception that ends it.
  unfoldable pub main : YamlLibrary → Environment → List Str → Disk → Option Report × Disk
  unfolding run_check_config run_configured
  main Y e [] d = (some (1, usage), d)
  main Y e (command ∷ args) d =
      if str_eq command (codes "check-config")
      then (run_check_config Y e args, d)
      else let (report, d') = run_configured e e.configuration command args d in (some report, d')
