-- ===== src/Dispatcher.antt =====
-- src/prov_ipc_dispatcher.cpp and include/ipc_protocol.h: requests as JSON texts, answered by the
-- service. The request identifier and the log fields made of it are not modelled.
pub mod Responses
pub mod Exact
pub mod Effects
use iov_vehicle_tbox_prov.Base.{
  ℕ, ◌==◌, if◌then◌else◌, Bool, true, false, Option, none, some, List, [], ◌∷◌, Str, codes,
  is_empty,
}
use iov_vehicle_tbox_prov.Errors.{
  ErrorCode, invalid_vin_format, config_write_failed, production_info_write_failed, code_value,
  is_success,
}
use iov_vehicle_tbox_prov.Types.{VehicleBinding, state_value}
use iov_vehicle_tbox_prov.Json.{JsonLibrary, JsonValue, text, number, boolean, get_text, ◌>>=◌}
use iov_vehicle_tbox_prov.Json.Documents.{document}
use iov_vehicle_tbox_prov.Store.{Store}
use iov_vehicle_tbox_prov.Service
use iov_vehicle_tbox_prov.Service.{Inputs}
use iov_vehicle_tbox_prov.Service.Actions.{Service, debug, warn, error, logged}

-- `ipc::MethodId`
pub data MethodId : Type 0 where
  initialize read_vin read_binding get_provision_state : MethodId
  write_vin write_vehicle_config write_production_info authorize_rewrite : MethodId

unfoldable pub method_value : MethodId → ℕ
method_value initialize = 1
method_value read_vin = 2
method_value read_binding = 3
method_value get_provision_state = 4
method_value write_vin = 5
method_value write_vehicle_config = 6
method_value write_production_info = 7
method_value authorize_rewrite = 8

-- The cases of the `switch`; `none` is its default.
unfoldable pub method_of : ℕ → Option MethodId
method_of n =
    if n == 1
    then some initialize
    else if n == 2
    then some read_vin
    else if n == 3
    then some read_binding
    else if n == 4
    then some get_provision_state
    else if n == 5
    then some write_vin
    else if n == 6
    then some write_vehicle_config
    else if n == 7
    then some write_production_info
    else if n == 8
    then some authorize_rewrite
    else none

abbrev pub fw_handler_failed : ℕ
fw_handler_failed = 306

-- A status with the text of a payload; `none` is an exception of the JSON library.
abbrev pub Handled : Type 0
Handled = Option (ℕ × Str)

abbrev pub with_status : ℕ → Option Str → Handled
with_status status none = none
with_status status (some payload) = some (status, payload)

abbrev pub success_members : Bool → List (Str × JsonValue)
success_members b = (codes "success", boolean b) ∷ []

abbrev pub failure_members : Str → List (Str × JsonValue)
failure_members message = (codes "success", boolean false) ∷ (codes "error", text message) ∷ []

abbrev pub error_members : Str → List (Str × JsonValue)
error_members message = (codes "error", text message) ∷ []

abbrev pub binding_payload : VehicleBinding → List (Str × JsonValue)
binding_payload b =
    (codes "vin", text b.vin)
    ∷ (codes "ecu_uid", text b.ecu_uid)
    ∷ (codes "sn", text b.sn)
    ∷ (codes "state", number (state_value b.state))
    ∷ (codes "locked", boolean b.locked)
    ∷ []

abbrev pub missing_vin : Str
missing_vin = codes "Missing vin parameter"

abbrev pub not_implemented : Str
not_implemented = codes "Not implemented"

module _ (J : JsonLibrary) where
  abbrev pub dumped : List (Str × JsonValue) → Option Str
  dumped members = J.dump 0 (document J members)

  unfoldable pub make_json_response : ℕ → J.Doc → Option Str
  make_json_response status payload = J.dump 0 (J.set payload (codes "status") (number status))

  abbrev pub text_or_empty : Option Str → Str
  text_or_empty none = []
  text_or_empty (some s) = s

  unfoldable pub extract_string_field : Str → Str → Str
  extract_string_field params field =
      text_or_empty (do j ← J.parse params; get_text (J.get j field))

  abbrev pub invalid_response : ℕ → Option Str
  invalid_response status =
      make_json_response status (document J (error_members (codes "Invalid response")))

  abbrev or_invalid : ℕ → Option Str → Option Str
  or_invalid status none = invalid_response status
  or_invalid status (some s) = some s

  -- The last block of `dispatch`.
  unfoldable pub respond : ℕ → Str → Option Str
  respond status payload = or_invalid status (do j ← J.parse payload; make_json_response status j)

  -- The status and payload after the `catch` clauses; `what` is the text of the exception.
  unfoldable pub handled_or_failed : Str → Handled → Handled
  handled_or_failed what none = with_status fw_handler_failed (dumped (error_members what))
  handled_or_failed what (some result) = some result

  abbrev pub caught : Handled → Service → Service
  caught none s = logged (error "ipc" "prov.ipc.dispatch_exception") s
  caught (some result) s = s

  unfoldable pub respond_to : Handled → Option Str
  unfolding respond
  respond_to none = none
  respond_to (some (status, payload)) = respond status payload

module _ (J : JsonLibrary) (st : Store) (inputs : Inputs) where
  -- A call that reports its code.
  unfoldable pub coded : ErrorCode × Service → Handled × Service
  coded (result, s) =
      (with_status (code_value result) (dumped J (success_members (is_success result))), s)

  unfoldable pub refused : ErrorCode → Str → Service → Handled × Service
  refused code message s = (with_status (code_value code) (dumped J (failure_members message)), s)

  unfoldable pub handle_initialize : Service → Handled × Service
  unfolding coded
  handle_initialize s = coded (Service.initialize J st s)

  unfoldable pub handle_read_vin : Service → Handled × Service
  handle_read_vin s =
      (with_status 0 (dumped J ((codes "vin", text (Service.read_vin J st s)) ∷ [])), s)

  unfoldable pub handle_read_binding : Service → Handled × Service
  handle_read_binding s =
      let (b, t) = Service.read_binding J st inputs s in
      (with_status 0 (dumped J (binding_payload b)), t)

  unfoldable pub handle_get_provision_state : Service → Handled × Service
  handle_get_provision_state s = (
    with_status 0 (
        dumped J ((codes "state", number (state_value (Service.get_provision_state J st s))) ∷ [])),
    s,
  )

  unfoldable pub handle_write_vin : Str → Service → Handled × Service
  unfolding coded refused
  handle_write_vin params s =
      let vin = extract_string_field J params (codes "vin") in
      if is_empty vin
      then refused invalid_vin_format missing_vin s
      else coded (Service.write_vin J st inputs vin s)

  unfoldable pub handle_write_vehicle_config : Str → Service → Handled × Service
  unfolding refused
  handle_write_vehicle_config params s = refused config_write_failed not_implemented s

  unfoldable pub handle_write_production_info : Str → Service → Handled × Service
  unfolding refused
  handle_write_production_info params s = refused production_info_write_failed not_implemented s

  unfoldable pub handle_authorize_rewrite : Str → Service → Handled × Service
  unfolding coded refused
  handle_authorize_rewrite params s =
      let new_vin = extract_string_field J params (codes "vin") in
      if is_empty new_vin
      then refused invalid_vin_format missing_vin s
      else coded (Service.authorize_rewrite J st inputs new_vin s)

  unfoldable pub handle : Option MethodId → Str → Service → Handled × Service
  unfolding handle_initialize handle_read_vin handle_read_binding handle_get_provision_state
      handle_write_vin handle_write_vehicle_config handle_write_production_info
      handle_authorize_rewrite
  handle (some initialize) params s = handle_initialize s
  handle (some read_vin) params s = handle_read_vin s
  handle (some read_binding) params s = handle_read_binding s
  handle (some get_provision_state) params s = handle_get_provision_state s
  handle (some write_vin) params s = handle_write_vin params s
  handle (some write_vehicle_config) params s = handle_write_vehicle_config params s
  handle (some write_production_info) params s = handle_write_production_info params s
  handle (some authorize_rewrite) params s = handle_authorize_rewrite params s
  handle none params s = (
    with_status fw_handler_failed (dumped J (error_members (codes "Unknown method"))),
    logged (warn "ipc" "prov.ipc.unknown_method") s,
  )

  -- The response text, `none` being an exception that leaves `dispatch`.
  unfoldable pub dispatch : Str → ℕ → Str → Service → Option Str × Service
  unfolding handled_or_failed respond_to
  dispatch what method_id params s =
      let (result, t) =
        handle (method_of method_id) params (logged (debug "ipc" "prov.ipc.dispatch") s) in
      (respond_to J (handled_or_failed J what result), caught J result t)
