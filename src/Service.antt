-- ===== src/Service.antt =====
-- src/prov_service.cpp and include/prov_service.h: the business kernel. A method holds the
-- service's mutex from its first test to its return, so it is one function on the state;
-- `begin_shutdown` sets an atomic flag that a method reads once.
pub mod Actions
pub mod Rules
pub mod Overtaken
pub mod Writes
pub mod Frame
pub mod Gates
pub mod Requests
pub mod Completion
pub mod Restart
pub mod Rewrite
pub mod Counter
pub mod Success
pub mod Isolation
pub mod Atomicity
pub mod Origins
pub mod Durable
pub mod Data
pub mod DataCompletion
pub mod Device
use iov_vehicle_tbox_prov.Base.{
  ℕ, ◌+◌, ◌%◌, ◌^◌, not, ◌&&◌, ◌||◌, if◌then◌else◌, Bool, true, false, Option, none, some, List, [],
  ◌∷◌, ◌++◌, Str, String, str_eq, codes, is_empty,
}
use iov_vehicle_tbox_prov.Errors.{
  ErrorCode, success, security_access_not_granted, invalid_vin_format, vin_write_failed,
  readback_verification_failed, vin_conflict_unauthorized, config_write_failed,
  production_info_write_failed, invalid_state, is_success, error_code_to_string,
}
use iov_vehicle_tbox_prov.Types.{
  ProvisionState, vin_written, bound, VehicleBinding, default_binding, VehicleConfig,
  ProductionInfo,
}
use iov_vehicle_tbox_prov.Vin
use iov_vehicle_tbox_prov.Json.{JsonLibrary}
use iov_vehicle_tbox_prov.Store.{Store, Disk}
use iov_vehicle_tbox_prov.Storage
use iov_vehicle_tbox_prov.Storage.{Storage}
use iov_vehicle_tbox_prov.Providers.{UidReadResult, SnReadResult}
use iov_vehicle_tbox_prov.Service.Actions.{
  Service, ServiceConfig, LogEvent, info, warn, error, Action, logged, returns, on_failure, guard,
  when, ◌▸◌,
}

-- What a call obtains from outside: the readings of `system_clock::now()` in their order, and the
-- results of the two providers.
pub record Inputs : Type 0 where
  pub clock : ℕ → ℕ
  pub uid : UidReadResult
  pub sn : SnReadResult

-- The constructor of the service.
abbrev pub new_service : ServiceConfig → Disk → Service
new_service config disk = record {
  config = config;
  initialized = false;
  storage = record { write_protected = false; disk = disk };
  shutting_down = false;
  log = [];
}

is_ready : Service → Bool
is_ready s = s.initialized

is_running : Service → Bool
is_running s = not s.shutting_down

is_unprotected : Service → Bool
unfolding Storage.is_write_protected
is_unprotected s = not (Storage.is_write_protected s.storage)

unfoldable pub begin_shutdown : Service → Service
begin_shutdown s =
    logged (info "service" "prov.service.shutdown_begin") (record s { shutting_down = true })

unfoldable pub is_initialized : Service → Bool
is_initialized s = s.initialized

unfoldable pub validate_vin_format : Str → Action
validate_vin_format vin =
    if not (Vin.validate vin)
    then on_failure (warn "vin" "prov.vin.validation_failed") (returns invalid_vin_format)
    else returns success

-- The binding of `establish_binding`, with what is kept of the one that is stored.
unfoldable pub new_binding : Inputs → Str → Str → Option VehicleBinding → VehicleBinding
new_binding inputs vin uid none = record default_binding {
  vin = vin;
  ecu_uid = uid;
  state = vin_written;
  bound_at = inputs.clock 0;
}
new_binding inputs vin uid (some existing) = record default_binding {
  vin = vin;
  ecu_uid = uid;
  state = vin_written;
  bound_at = inputs.clock 0;
  rewrite_count = if str_eq existing.vin vin then (existing.rewrite_count + 1) % 2 ^ 32 else 0;
  last_rewrite_at = if str_eq existing.vin vin then inputs.clock 1 else 0;
}

-- The log of `verify_write`: only a VIN that differs is reported.
abbrev verify_outcome : Str → Option VehicleBinding → Action
verify_outcome vin none = returns readback_verification_failed
verify_outcome vin (some b) =
    if str_eq b.vin vin
    then returns success
    else on_failure (error "binding" "prov.binding.readback_failed")
        (returns readback_verification_failed)

abbrev conflict_outcome : Str → Option VehicleBinding → Action
conflict_outcome vin none = returns success
conflict_outcome vin (some b) =
    if b.locked && not (str_eq vin b.vin)
    then on_failure (warn "rewrite" "prov.binding.rewrite_denied")
        (returns vin_conflict_unauthorized)
    else returns success

-- `variant_coding != config_data`, and the tests before it.
abbrev config_readback : List ℕ → Option VehicleConfig → ErrorCode
config_readback config_data none = config_write_failed
config_readback config_data (some c) =
    if str_eq c.variant_coding config_data then success else readback_verification_failed

abbrev production_readback : ProductionInfo → Option ProductionInfo → ErrorCode
production_readback i none = production_info_write_failed
production_readback i (some stored) =
    if not (str_eq stored.production_date i.production_date)
      || not (str_eq stored.batch_num i.batch_num)
      || not (str_eq stored.station_id i.station_id)
    then readback_verification_failed
    else success

module _ (J : JsonLibrary) (st : Store) where
  -- A call of the storage; its failures become `code`.
  unfoldable pub on_storage : (Storage → ErrorCode × Storage) → ErrorCode → Action
  on_storage call code s =
      let (result, storage) = call s.storage in
      (if is_success result then success else code, record s { storage = storage })

  -- `initialize` with `initialize_storage`: a new storage over the same store.
  unfoldable pub initialize : Action
  initialize s =
      let (result, storage) =
        Storage.initialize J st (record { write_protected = false; disk = s.storage.disk }) in
      if s.initialized
      then (success, s)
      else (result, record s { storage = storage; initialized = is_success result })

  -- The two writes of `establish_binding`: as VIN_WRITTEN, then as BOUND.
  unfoldable pub store_binding : VehicleBinding → Action
  store_binding b =
      on_storage (Storage.write_vehicle_binding J st b) vin_write_failed
      ▸ on_storage (Storage.write_vehicle_binding J st (record b { state = bound }))
          vin_write_failed
      ▸ (λ t. (success, logged (info "binding" "prov.binding.created") t))

  unfoldable pub establish_binding : Inputs → Str → Str → Action
  unfolding store_binding
  establish_binding inputs vin uid s =
      store_binding (new_binding inputs vin uid (Storage.read_vehicle_binding J st s.storage)) s

  unfoldable pub verify_write : Str → Action
  verify_write vin s = verify_outcome vin (Storage.read_vehicle_binding J st s.storage) s

  -- The code of the storage is passed on as it is.
  unfoldable pub set_write_protection : Bool → Action
  set_write_protection locked s =
      let (result, storage) = Storage.set_write_protection J st locked s.storage in
      (result, record s { storage = storage })

  -- The part of `execute_vin_binding_flow` after the UID was read; the first argument is
  -- `config_.enable_write_protection`.
  unfoldable pub bind_vin : Bool → Inputs → Str → Str → Action
  bind_vin protect inputs vin uid =
      on_failure (error "vin" "prov.vin.write.failed") (establish_binding inputs vin uid)
      ▸ on_failure (error "binding" "prov.binding.readback_failed") (verify_write vin)
      ▸ when protect (set_write_protection true)
      ▸ (λ t. (success, logged (info "vin" "prov.vin.write.succeeded") t))

  -- The provider's own code is returned where the UID cannot be read, also if that were SUCCESS.
  unfoldable pub execute_vin_binding_flow : Inputs → Str → Action
  execute_vin_binding_flow inputs vin s =
      if not inputs.uid.succeeded
      then (inputs.uid.error_code, logged (error "vin" "prov.uid.read_failed") s)
      else bind_vin s.config.enable_write_protection inputs vin inputs.uid.uid s

  unfoldable pub write_vin : Inputs → Str → Action
  unfolding is_ready is_running
  write_vin inputs vin =
      guard is_ready invalid_state
      ▸ guard is_running invalid_state
      ▸ validate_vin_format vin
      ▸ execute_vin_binding_flow inputs vin

  unfoldable pub check_conflict : Str → Action
  check_conflict vin s = conflict_outcome vin (Storage.read_vehicle_binding J st s.storage) s

  unfoldable pub authorize_rewrite : Inputs → Str → Action
  unfolding is_ready is_running
  authorize_rewrite inputs vin =
      guard is_ready invalid_state
      ▸ guard is_running invalid_state
      ▸ validate_vin_format vin
      ▸ check_conflict vin
      ▸ execute_vin_binding_flow inputs vin

  unfoldable pub read_vin : Service → Str
  read_vin s =
      if not s.initialized
      then []
      else elim (Storage.read_vehicle_binding J st s.storage) [ none ↦ [] | some b ↦ b.vin ]

  unfoldable pub get_provision_state : Service → ProvisionState
  get_provision_state s =
      if not s.initialized
      then ProvisionState.none
      else elim (Storage.read_vehicle_binding J st s.storage) [
        | none ↦ ProvisionState.none
        | some b ↦ b.state
      ]

  -- The stored binding with its SN filled in, and the service with what is logged.
  complete_sn : SnReadResult → VehicleBinding → Service → VehicleBinding × Service
  complete_sn result b s =
      if not (is_empty b.sn)
      then (b, s)
      else if result.succeeded
      then (record b { sn = result.sn }, s)
      else (b, logged (error "binding" "prov.sn.read_failed") s)

  unfoldable pub read_binding : Inputs → Service → VehicleBinding × Service
  unfolding complete_sn
  read_binding inputs s =
      if not s.initialized
      then (default_binding, s)
      else elim (Storage.read_vehicle_binding J st s.storage) [
        | none ↦ (default_binding, s)
        | some b ↦ complete_sn inputs.sn b s
      ]

  unfoldable pub readback_config : List ℕ → Action
  readback_config config_data s =
      (config_readback config_data (Storage.read_vehicle_config J st s.storage), s)

  -- The second write of `write_vehicle_config`, whose result is not looked at.
  unfoldable pub mark_verified : VehicleConfig → Action
  mark_verified c s = (
    success,
    record s {
      storage = (Storage.write_vehicle_config J st (record c { verified = true }) s.storage).1;
    },
  )

  unfoldable pub write_vehicle_config : Inputs → List ℕ → Action
  unfolding is_ready is_running is_unprotected on_storage readback_config mark_verified
  write_vehicle_config inputs config_data =
      let c : VehicleConfig = record {
        variant_coding = config_data;
        written_at = inputs.clock 0;
        verified = false;
      } in
      guard is_ready invalid_state
      ▸ guard is_running invalid_state
      ▸ guard is_unprotected security_access_not_granted
      ▸ on_failure (error "vehicle_config" "prov.vehicle_config.write_failed") (
          on_storage (Storage.write_vehicle_config J st c) config_write_failed
          ▸ readback_config config_data)
      ▸ mark_verified c

  unfoldable pub readback_production : ProductionInfo → Action
  readback_production i s = (production_readback i (Storage.read_production_info J st s.storage), s)

  unfoldable pub write_production_info : Inputs → ProductionInfo → Action
  unfolding is_ready is_running is_unprotected on_storage readback_production
  write_production_info inputs i =
      guard is_ready invalid_state
      ▸ guard is_running invalid_state
      ▸ guard is_unprotected security_access_not_granted
      ▸ on_failure (error "production" "prov.production_info.write_failed") (
          on_storage (Storage.write_production_info J st (record i { written_at = inputs.clock 0 }))
            production_info_write_failed
          ▸ readback_production i)

  -- `record_error`, which no method calls.
  noted : ErrorCode → Str → Option VehicleBinding → Storage → Storage
  noted code context none t = t
  noted code context (some b) t =
      (Storage.write_vehicle_binding J st
        (record b {
          last_error = codes (error_code_to_string code) ++ (codes ": " ++ context);
          retry_count = (b.retry_count + 1) % 2 ^ 32;
        })
        t).1

  unfoldable pub record_error : ErrorCode → Str → Service → Service
  unfolding noted
  record_error code context s = record s {
    storage = noted code context (Storage.read_vehicle_binding J st s.storage) s.storage;
  }

-- `read_ecu_uid`
unfoldable pub read_ecu_uid : Inputs → Str
read_ecu_uid inputs = if inputs.uid.succeeded then inputs.uid.uid else []
