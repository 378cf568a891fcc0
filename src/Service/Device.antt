-- ===== src/Service/Device.antt =====
-- What src/prov_service.cpp is for, without the storage: a device that takes a VIN once and keeps
-- data until then. The specification of `ProvService` on a device without faults.
pub mod View
pub mod Vins
pub mod Data
pub mod Refinement
use iov_vehicle_tbox_prov.Base.{
  ℕ, not, if◌then◌else◌, Bool, true, false, Option, none, some, List, [], ◌∷◌, Str,
}
use iov_vehicle_tbox_prov.Errors.{
  ErrorCode, success, security_access_not_granted, invalid_vin_format, vin_write_failed,
  invalid_state,
}
use iov_vehicle_tbox_prov.Types.{ProductionInfo}
use iov_vehicle_tbox_prov.Vin
use iov_vehicle_tbox_prov.Service.{Inputs}
use iov_vehicle_tbox_prov.Service.Requests.{
  Request, initialize_request, begin_shutdown_request, write_vin_request, authorize_rewrite_request,
  write_vehicle_config_request, write_production_info_request, read_binding_request,
}

-- What the device holds, whether it is locked, and whether it is going down.
pub record Device : Type 0 where
  pub vin : Option Str
  pub config_data : Option (List ℕ)
  -- the date, the batch and the station
  pub production : Option (Str × Str × Str)
  pub protected : Bool
  pub down : Bool

-- A VIN is taken if it is valid, the UID is known and the device is not locked; it locks the
-- device if that is enabled.
unfoldable pub take_vin : Bool → Inputs → Str → Device → ErrorCode × Device
take_vin enabled i vin d =
    if d.down
    then (invalid_state, d)
    else if not (Vin.validate vin)
    then (invalid_vin_format, d)
    else if not i.uid.succeeded
    then (i.uid.error_code, d)
    else if d.protected
    then (vin_write_failed, d)
    else (success, record d { vin = some vin; protected = enabled })

unfoldable pub take_data : Device → Device → ErrorCode × Device
take_data changed d =
    if d.down
    then (invalid_state, d)
    else if d.protected
    then (security_access_not_granted, d)
    else (success, changed)

-- One request; an authorized rewrite is a write.
unfoldable pub step : Bool → Request → Device → ErrorCode × Device
unfolding take_vin take_data
step enabled initialize_request d = (success, d)
step enabled begin_shutdown_request d = (success, record d { down = true })
step enabled (write_vin_request i vin) d = take_vin enabled i vin d
step enabled (authorize_rewrite_request i vin) d = take_vin enabled i vin d
step enabled (write_vehicle_config_request i bytes) d =
    take_data (record d { config_data = some bytes }) d
step enabled (write_production_info_request i p) d =
    take_data (record d { production = some (p.production_date, p.batch_num, p.station_id) }) d
step enabled (read_binding_request i) d = (success, d)

-- The answers to a sequence of requests, and the device after it.
unfoldable pub run_device : Bool → List Request → Device → List ErrorCode × Device
unfolding step
run_device enabled [] d = ([], d)
run_device enabled (r ∷ rest) d =
    let (code, d') = step enabled r d in
    let (codes, last) = run_device enabled rest d' in (code ∷ codes, last)
