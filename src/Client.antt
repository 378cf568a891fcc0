-- ===== src/Client.antt =====
-- src/prov_client.cpp and include/tbox/prov/client.h: the client's methods over a call of the IPC
-- framework, which is a parameter.
pub mod EndToEnd
pub mod Reading
pub mod Rejected
pub mod Values
pub mod Session
use iov_vehicle_tbox_prov.Base.{
  ℕ, ◌%◌, ◌^◌, if◌then◌else◌, Bool, true, false, Option, none, some, List, [], ◌∷◌, Str, codes,
}
use iov_vehicle_tbox_prov.Errors.{ErrorCode, of_value, invalid_state}
use iov_vehicle_tbox_prov.Types.{
  ProvisionState, state_of_value, VehicleBinding, default_binding, ProductionInfo,
}
use iov_vehicle_tbox_prov.Json.{
  JsonLibrary, JsonValue, text, byte_array, value_text, value_number, value_bool, ◌>>=◌,
}
use iov_vehicle_tbox_prov.Json.Documents.{document}
use iov_vehicle_tbox_prov.Dispatcher.{
  MethodId, initialize, read_vin, read_binding, get_provision_state, write_vin,
  write_vehicle_config, write_production_info, authorize_rewrite, method_value,
}

-- What `fw_client_->call` gives: a status below 0, a status above 0, or 0 with a response.
pub data Reply : Type 0 where
  transport_error server_error : Reply
  delivered : Str → Reply

abbrev pub Call : Type 0
Call = ℕ → Str → Reply

-- `tbox::fw::ipc::Client`, of which each client owns one.
pub record IpcClient : Type 1 where
  pub State : Type 0
  pub create : Str → State
  pub connect : State → Bool × State
  pub disconnect : State → State
  pub is_connected : State → Bool

-- The default argument of the constructor.
abbrev pub default_socket_path : Str
default_socket_path = codes "/tmp/tbox-prov.sock"

module _ (F : IpcClient) where
  -- The two constructors.
  unfoldable pub new_client : Str → F.State
  new_client socket_path = F.create socket_path

  unfoldable pub connect : F.State → Bool × F.State
  connect c = F.connect c

  unfoldable pub disconnect : F.State → F.State
  disconnect c = F.disconnect c

  unfoldable pub is_connected : F.State → Bool
  is_connected c = F.is_connected c

  -- The destructor of the implementation: what the framework's client is left as.
  unfoldable pub destroy : F.State → F.State
  unfolding disconnect
  destroy c = disconnect c

abbrev number_or : ℕ → Option ℕ → ℕ
number_or n none = n
number_or n (some m) = m

module _ (J : JsonLibrary) where
  -- The business status of a response, an `int32_t`; 0 where it cannot be read.
  unfoldable pub biz_status : Str → ℕ
  biz_status response = number_or 0 (do
    j ← J.parse response
    status ← value_number (J.get j (codes "status")) 0
    some (status % 2 ^ 32))

  -- `send_request`: `none` where `ok` is false.
  unfoldable pub accepted : Reply → Option (ℕ × Str)
  unfolding biz_status
  accepted transport_error = none
  accepted server_error = none
  accepted (delivered response) = some (biz_status response, response)

  -- The code of the methods that return one.
  unfoldable pub code_of_reply : Reply → ErrorCode
  unfolding accepted
  code_of_reply r = elim (accepted r) [
    | none ↦ invalid_state
    | some (status, response) ↦ of_value status
  ]

-- The assignments inside the `try` block: what was assigned before an exception stays.
unfoldable pub read_members : (Str → Option JsonValue) → VehicleBinding
read_members member = elim (value_text (member (codes "vin")) []) [
  | none ↦ default_binding
  | some vin ↦ elim (value_text (member (codes "ecu_uid")) []) [
    | none ↦ record default_binding { vin = vin }
    | some uid ↦ elim (value_text (member (codes "sn")) []) [
      | none ↦ record default_binding { vin = vin; ecu_uid = uid }
      | some sn ↦ elim (value_number (member (codes "state")) 0) [
        | none ↦ record default_binding { vin = vin; ecu_uid = uid; sn = sn }
        | some state ↦ elim (value_bool (member (codes "locked")) false) [
          | none ↦ record default_binding {
            vin = vin;
            ecu_uid = uid;
            sn = sn;
            state = state_of_value state;
          }
          | some locked ↦ record default_binding {
            vin = vin;
            ecu_uid = uid;
            sn = sn;
            state = state_of_value state;
            locked = locked;
          }
        ]
      ]
    ]
  ]
]

abbrev or_default : Option VehicleBinding → VehicleBinding
or_default none = default_binding
or_default (some b) = b

abbrev or_text : Option Str → Str
or_text none = []
or_text (some s) = s

abbrev or_none_state : Option ProvisionState → ProvisionState
or_none_state none = ProvisionState.none
or_none_state (some p) = p

-- What the reading methods make of a reply.
module _ (J : JsonLibrary) where
  unfoldable pub binding_of_reply : Reply → VehicleBinding
  unfolding accepted read_members
  binding_of_reply r = elim (accepted J r) [
    | none ↦ default_binding
    | some (status, response) ↦ or_default (do j ← J.parse response; some (read_members (J.get j)))
  ]

  unfoldable pub vin_of_reply : Reply → Str
  unfolding accepted
  vin_of_reply r = elim (accepted J r) [
    | none ↦ []
    | some (status, response) ↦
        or_text (do j ← J.parse response; value_text (J.get j (codes "vin")) [])
  ]

  unfoldable pub state_of_reply : Reply → ProvisionState
  unfolding accepted
  state_of_reply r = elim (accepted J r) [
    | none ↦ ProvisionState.none
    | some (status, response) ↦ or_none_state (do
      j ← J.parse response
      n ← value_number (J.get j (codes "state")) 0
      some (state_of_value n))
  ]

module _ (J : JsonLibrary) (call : Call) where
  -- A method that sends a document; `none` is the exception of `dump`, which leaves the method.
  unfoldable pub send_document : MethodId → List (Str × JsonValue) → Option ErrorCode
  unfolding code_of_reply
  send_document m members = do
    params ← J.dump 0 (document J members)
    some (code_of_reply J (call (method_value m) params))

  unfoldable pub client_initialize : ErrorCode
  unfolding code_of_reply
  client_initialize = code_of_reply J (call (method_value initialize) (codes "{}"))

  unfoldable pub client_write_vin : Str → Option ErrorCode
  client_write_vin vin = send_document write_vin ((codes "vin", text vin) ∷ [])

  -- The data are not sent: the array is empty.
  unfoldable pub client_write_vehicle_config : List ℕ → Option ErrorCode
  client_write_vehicle_config config_data =
      send_document write_vehicle_config ((codes "config_data", byte_array []) ∷ [])

  unfoldable pub client_write_production_info : ProductionInfo → Option ErrorCode
  client_write_production_info info = send_document write_production_info (
      (codes "production_date", text info.production_date)
      ∷ (codes "batch_num", text info.batch_num)
      ∷ (codes "station_id", text info.station_id)
      ∷ [])

  unfoldable pub client_authorize_rewrite : Str → Option ErrorCode
  client_authorize_rewrite new_vin =
      send_document authorize_rewrite ((codes "vin", text new_vin) ∷ [])

  unfoldable pub client_read_vin : Str
  unfolding vin_of_reply
  client_read_vin = vin_of_reply J (call (method_value read_vin) (codes "{}"))

  unfoldable pub client_read_binding : VehicleBinding
  unfolding binding_of_reply
  client_read_binding = binding_of_reply J (call (method_value read_binding) (codes "{}"))

  unfoldable pub client_get_provision_state : ProvisionState
  unfolding state_of_reply
  client_get_provision_state =
      state_of_reply J (call (method_value get_provision_state) (codes "{}"))
