-- ===== src/Client/Session.antt =====
-- Sequences of calls of include/tbox/prov/client.h, over a connection to a service that they
-- change, and what the dispatcher exposes of that service.
pub mod Refinement
use iov_vehicle_tbox_prov.Base.{
  ℕ, if◌then◌else◌, Option, none, some, List, [], ◌∷◌, Str, codes, is_empty,
}
use iov_vehicle_tbox_prov.Errors.{
  ErrorCode, invalid_vin_format, config_write_failed, production_info_write_failed,
}
use iov_vehicle_tbox_prov.Types.{ProvisionState, VehicleBinding, default_binding, ProductionInfo}
use iov_vehicle_tbox_prov.Json.{JsonLibrary, JsonValue, text, byte_array, ◌>>=◌}
use iov_vehicle_tbox_prov.Json.Documents.{document}
use iov_vehicle_tbox_prov.Store.{Store}
use iov_vehicle_tbox_prov.Service
use iov_vehicle_tbox_prov.Service.{Inputs}
use iov_vehicle_tbox_prov.Service.Actions.{Service}
use iov_vehicle_tbox_prov.Dispatcher.{
  MethodId, initialize, read_vin, read_binding, get_provision_state, write_vin,
  write_vehicle_config, write_production_info, authorize_rewrite, method_value, dispatch,
}
use iov_vehicle_tbox_prov.Dispatcher.Exact.{asked}
use iov_vehicle_tbox_prov.Client.{
  Call, client_initialize, client_read_vin, client_read_binding, client_get_provision_state,
  client_write_vin, client_write_vehicle_config, client_write_production_info,
  client_authorize_rewrite,
}
use iov_vehicle_tbox_prov.Client.EndToEnd.{connected}

-- The methods of `ProvClient` that send a request.
pub data ClientCall : Type 0 where
  initialize_call read_vin_call read_binding_call get_provision_state_call : ClientCall
  write_vin_call authorize_rewrite_call : Str → ClientCall
  write_vehicle_config_call : List ℕ → ClientCall
  write_production_info_call : ProductionInfo → ClientCall

-- What they give; `thrown` is an exception.
pub data Answer : Type 0 where
  thrown : Answer
  code : ErrorCode → Answer
  vin : Str → Answer
  binding : VehicleBinding → Answer
  state : ProvisionState → Answer

abbrev pub code_or_thrown : Option ErrorCode → Answer
code_or_thrown none = thrown
code_or_thrown (some c) = code c

-- What a client learns of a binding.
abbrev pub sent_part : VehicleBinding → VehicleBinding
sent_part b = record default_binding {
  vin = b.vin;
  ecu_uid = b.ecu_uid;
  sn = b.sn;
  state = b.state;
  locked = b.locked;
}

module _ (J : JsonLibrary) where
  -- The answer of a method over one call of the framework.
  unfoldable pub client_answer : Call → ClientCall → Answer
  client_answer call initialize_call = code (client_initialize J call)
  client_answer call read_vin_call = vin (client_read_vin J call)
  client_answer call read_binding_call = binding (client_read_binding J call)
  client_answer call get_provision_state_call = state (client_get_provision_state J call)
  client_answer call (write_vin_call v) = code_or_thrown (client_write_vin J call v)
  client_answer call (authorize_rewrite_call v) = code_or_thrown (client_authorize_rewrite J call v)
  client_answer call (write_vehicle_config_call bytes) =
      code_or_thrown (client_write_vehicle_config J call bytes)
  client_answer call (write_production_info_call info) =
      code_or_thrown (client_write_production_info J call info)

  abbrev pub sends : MethodId → List (Str × JsonValue) → Option (MethodId × Str)
  sends m members = do params ← J.dump 0 (document J members); some (m, params)

  -- The one request that it makes, none if its parameters are not dumped.
  unfoldable pub request_of : ClientCall → Option (MethodId × Str)
  request_of initialize_call = some (initialize, codes "{}")
  request_of read_vin_call = some (read_vin, codes "{}")
  request_of read_binding_call = some (read_binding, codes "{}")
  request_of get_provision_state_call = some (get_provision_state, codes "{}")
  request_of (write_vin_call v) = sends write_vin ((codes "vin", text v) ∷ [])
  request_of (authorize_rewrite_call v) = sends authorize_rewrite ((codes "vin", text v) ∷ [])
  request_of (write_vehicle_config_call bytes) =
      sends write_vehicle_config ((codes "config_data", byte_array []) ∷ [])
  request_of (write_production_info_call info) = sends write_production_info (
      (codes "production_date", text info.production_date)
      ∷ (codes "batch_num", text info.batch_num)
      ∷ (codes "station_id", text info.station_id)
      ∷ [])

module _ (J : JsonLibrary) (st : Store) (what : Str) where
  abbrev pub after : Inputs → Option (MethodId × Str) → Service → Service
  after i none s = s
  after i (some (m, params)) s = (dispatch J st i what (method_value m) params s).1

  -- A call through the client, the IPC framework and the dispatcher.
  unfoldable pub remote : Inputs × ClientCall → Service → Answer × Service
  remote (i, c) s = (client_answer J (connected J st i what s) c, after i (request_of J c) s)

  unfoldable pub remote_all : List (Inputs × ClientCall) → Service → List Answer × Service
  remote_all [] s = ([], s)
  remote_all (c ∷ cs) s =
      let (answer, t) = remote c s in
      let (answers, last) = remote_all cs t in (answer ∷ answers, last)

module _ (J : JsonLibrary) (st : Store) where
  abbrev pub coded : ErrorCode × Service → Answer × Service
  coded (c, t) = (code c, t)

  -- What the dispatcher exposes of the service, after the event that it logs: the call of the service
  -- of that name, but a refusal, without a call of the service, of an empty VIN and of the two writes
  -- of data, which the dispatcher does not implement.
  unfoldable pub exposed : Inputs × ClientCall → Service → Answer × Service
  exposed (i, initialize_call) s = coded (Service.initialize J st (asked s))
  exposed (i, read_vin_call) s = (vin (Service.read_vin J st (asked s)), asked s)
  exposed (i, read_binding_call) s =
      let (b, t) = Service.read_binding J st i (asked s) in (binding (sent_part b), t)
  exposed (i, get_provision_state_call) s =
      (state (Service.get_provision_state J st (asked s)), asked s)
  exposed (i, write_vin_call v) s =
      if is_empty v
      then (code invalid_vin_format, asked s)
      else coded (Service.write_vin J st i v (asked s))
  exposed (i, authorize_rewrite_call v) s =
      if is_empty v
      then (code invalid_vin_format, asked s)
      else coded (Service.authorize_rewrite J st i v (asked s))
  exposed (i, write_vehicle_config_call bytes) s = (code config_write_failed, asked s)
  exposed (i, write_production_info_call info) s = (code production_info_write_failed, asked s)

  unfoldable pub exposed_all : List (Inputs × ClientCall) → Service → List Answer × Service
  exposed_all [] s = ([], s)
  exposed_all (c ∷ cs) s =
      let (answer, t) = exposed c s in
      let (answers, last) = exposed_all cs t in (answer ∷ answers, last)
