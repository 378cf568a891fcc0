-- ===== src/Tests.antt =====
-- The program at concrete inputs: what the tests share, a device with an empty disk, and the
-- library of Json/Example.antt.
mod Vins
mod Life
mod Recording
mod Writes
mod Gated
mod Storing
mod Ipc
mod Identities
mod Commands
mod Devices
mod Dictionaries
mod Endings
mod Faults
mod Restarts
mod Lives
mod Sessions
use iov_vehicle_tbox_prov.Base.{
  ℕ, ◌≡◌, ◌≢◌, ◌↔◌, ◌⊎◌, inl, inr, refl, ap, ◌∙◌, arith, Bool, true, false, Option, none, some,
  List, [], ◌∷◌, ◌++◌, Str, codes, is_empty, length, str_eq, if◌then◌else◌,
}
use iov_vehicle_tbox_prov.Vin
use iov_vehicle_tbox_prov.Vin.Chars.{standard_value}
use iov_vehicle_tbox_prov.Vin.Spec.{IsVin, validate_iff, get_validation_error_iff}
use iov_vehicle_tbox_prov.Vin.Detection.{substitution_detected}
use iov_vehicle_tbox_prov.Errors.{
  ErrorCode, success, invalid_state, security_access_not_granted, vin_write_failed,
  readback_verification_failed, code_value, of_value, is_success, se_missing_production_fail_closed,
}
use iov_vehicle_tbox_prov.Errors.Names.{is_named, of_value-code_value}
use iov_vehicle_tbox_prov.Types.{
  bound, state_value, state_of_value, VehicleBinding, default_binding, VehicleConfig,
  ProductionInfo,
}
use iov_vehicle_tbox_prov.Json.{text}
use iov_vehicle_tbox_prov.Json.Documents.{document}
use iov_vehicle_tbox_prov.Json.Example.{example, example-IsLawful}
use iov_vehicle_tbox_prov.Store.{
  Store, Disk, clear, short_write, calm, new_store, load, save, file_exists, find_file,
}
use iov_vehicle_tbox_prov.Store.Laws.{load-save, load-save_unchanged, load-save_short}
use iov_vehicle_tbox_prov.Storage
use iov_vehicle_tbox_prov.Storage.{Storage}
use iov_vehicle_tbox_prov.Storage.Serialize.{
  Fits, binding_in_seconds, config_in_seconds, production_in_seconds, state_of_value-state_value,
  deserialize-serialize_binding, deserialize-serialize_config,
  deserialize-serialize_production_info,
}
use iov_vehicle_tbox_prov.Storage.Laws.{
  writes_protected, load-guarded_write, read-write_vehicle_binding,
}
use iov_vehicle_tbox_prov.Providers.{Snapshot, uid_found, sn_found, read_uid_detailed, read_sn}
use iov_vehicle_tbox_prov.Providers.Isolation.{production_fails_closed, uid_isolated, sn_isolated}
use iov_vehicle_tbox_prov.Service
use iov_vehicle_tbox_prov.Service.{Inputs}
use iov_vehicle_tbox_prov.Service.Actions.{Service, ServiceConfig, logged, debug}
use iov_vehicle_tbox_prov.Service.Frame.{SameFrame, SameFrame-refl, write_vin-SameFrame}
use iov_vehicle_tbox_prov.Service.Completion.{IsCalm, Completed, final_binding, write_vin_completes}
use iov_vehicle_tbox_prov.Service.Success.{IsHonest, write_vin-success, authorize_rewrite-success}
use iov_vehicle_tbox_prov.Service.Restart.{restart_protected}
use iov_vehicle_tbox_prov.Service.Rewrite.{rewrite_is_write, rewrite_refused}
use iov_vehicle_tbox_prov.Service.Requests.{
  Request, write_vin_request, write_vehicle_config_request, authorize_rewrite_request, serve_all,
  protected_forever, shutdown_forever,
}
use iov_vehicle_tbox_prov.Service.Gates.{
  writes_after_shutdown, data_writes_protected, write_vin_protected,
}
use iov_vehicle_tbox_prov.Dispatcher.{
  method_value, write_vin, success_members, extract_string_field, dispatch,
}
use iov_vehicle_tbox_prov.Dispatcher.Responses.{
  Answers, IsAnswered, dispatch_answers, dispatch-write_vin,
}
use iov_vehicle_tbox_prov.Client.{client_write_vin}
use iov_vehicle_tbox_prov.Client.EndToEnd.{connected, client-write_vin}

-- A VIN with the check digit X, and one with a wrong one.
abbrev pub vin : Str
vin = codes "1HGBH41JXMN109186"

-- Another that is valid.
abbrev pub other_vin : Str
other_vin = codes "11111111111111111"

pub other_vin-validates : Vin.validate other_vin ≡ true
unfolding Vin.validate
other_vin-validates = refl

pub vin-validates : Vin.validate vin ≡ true
unfolding Vin.validate
vin-validates = refl

abbrev pub empty_disk : Disk
empty_disk = record { files = []; directories = []; weather = [] }

abbrev pub store : Store
store = new_store (codes "prov") (codes "/var/tbox")

abbrev pub config : ServiceConfig
config = record { enable_write_protection = true; max_retry_count = 3 }

abbrev pub inputs : Inputs
inputs = record {
  clock = λ _. 1700000000000000000;
  uid = uid_found (codes "UID-1");
  sn = sn_found (codes "SN-1") "config" "test";
}

abbrev pub ready : Service
ready = record (Service.new_service config empty_disk) { initialized = true }

pub ready-IsCalm : IsCalm example store example-IsLawful ready
ready-IsCalm = record { unprotected = refl; weather = refl }

-- The same device, protected, and shutting down.
abbrev pub locked : Service
locked = record ready { storage = record { write_protected = true; disk = empty_disk } }

abbrev pub info : ProductionInfo
info = record {
  production_date = codes "2026-01-31";
  batch_num = codes "B7";
  station_id = codes "S2";
  written_at = 1700000000123456789;
}

-- The texts that the library dumps of the three documents.
abbrev pub text_of : Option Str → Str
text_of none = []
text_of (some s) = s

-- Nothing is stored yet.
pub new-read_vehicle_binding : Storage.read_vehicle_binding example store ready.storage ≡ none
unfolding example Storage.read_vehicle_binding load file_exists find_file
new-read_vehicle_binding = refl
