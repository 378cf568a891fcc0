-- ===== src/Dispatcher/Exact.antt =====
-- The exact answers of src/prov_ipc_dispatcher.cpp to the requests that write no VIN, and what they
-- leave.
use iov_vehicle_tbox_prov.Base.{
  ℕ, ◌≡◌, refl, ap, true, Option, List, [], ◌∷◌, Str, is_empty, codes, All,
}
use iov_vehicle_tbox_prov.Errors.{
  ErrorCode, invalid_vin_format, config_write_failed, production_info_write_failed, code_value,
  is_success,
}
use iov_vehicle_tbox_prov.Types.{state_value}
use iov_vehicle_tbox_prov.Json.{JsonLibrary, IsLawful, JsonValue, is_text, text, number}
use iov_vehicle_tbox_prov.Json.Documents.{dump-document}
use iov_vehicle_tbox_prov.Store.{Store}
use iov_vehicle_tbox_prov.Service
use iov_vehicle_tbox_prov.Service.{Inputs}
use iov_vehicle_tbox_prov.Service.Actions.{Service, debug, logged}
use iov_vehicle_tbox_prov.Dispatcher.{
  initialize, read_vin, read_binding, get_provision_state, write_vin, write_vehicle_config,
  write_production_info, authorize_rewrite, method_of, with_status, dumped, binding_payload,
  success_members, failure_members, missing_vin, not_implemented, method_value, handled_or_failed,
  caught, respond_to, coded, refused, extract_string_field, handle_initialize, handle_read_vin,
  handle_read_binding, handle_get_provision_state, handle_write_vin, handle_write_vehicle_config,
  handle_write_production_info, handle_authorize_rewrite, handle, dispatch,
}
use iov_vehicle_tbox_prov.Dispatcher.Responses.{Answers, text-Answers}

-- The service after the dispatch is logged.
abbrev pub asked : Service → Service
asked s = logged (debug "ipc" "prov.ipc.dispatch") s

module _ (J : JsonLibrary) (st : Store) (L : IsLawful J) (i : Inputs) where
  -- An answer with that status and those members that leaves that service.
  abbrev pub IsExact : ℕ → List (Str × JsonValue) → Service → Option Str × Service → Type 0
  IsExact status members t r = Answers J L status members r.0 × (r.1 ≡ t)

  payload-IsExact :
      (what : Str) (status : ℕ) (members : List (Str × JsonValue)) (t : Service)
      → All (λ m. is_text J m.1 ≡ true) members
      → IsExact status members t (
        respond_to J (handled_or_failed J what (with_status status (dumped J members))),
        caught J (with_status status (dumped J members)) t,
      )
  payload-IsExact what status members t texts =
      let (payload, h, _) = dump-document J L 0 members texts in
      (
        text-Answers J L what status members payload h,
        ap (λ o. caught J (with_status status o) t) h,
      )

  -- Initialize is answered with the code.
  pub dispatch-initialize :
      (what params : Str) (s : Service)
      → let r = Service.initialize J st (asked s) in
        IsExact
          (code_value r.0)
          (success_members (is_success r.0))
          r.1
          (dispatch J st i what (method_value initialize) params s)
  unfolding dispatch method_of method_value handle handle_initialize coded
  dispatch-initialize what params s =
      payload-IsExact what _ (success_members (is_success (Service.initialize J st (asked s)).0)) _
        (refl, tt)

  pub dispatch-read_vin :
      (what params : Str) (s : Service)
      → J.utf8 (Service.read_vin J st (asked s)) ≡ true
      → IsExact 0
          ((codes "vin", text (Service.read_vin J st (asked s))) ∷ [])
          (asked s)
          (dispatch J st i what (method_value read_vin) params s)
  unfolding dispatch method_of method_value handle handle_read_vin
  dispatch-read_vin what params s valid =
      payload-IsExact what 0 ((codes "vin", text (Service.read_vin J st (asked s))) ∷ []) (asked s)
        (valid, tt)

  pub dispatch-get_provision_state :
      (what params : Str) (s : Service)
      → IsExact 0
          ((codes "state", number (state_value (Service.get_provision_state J st (asked s)))) ∷ [])
          (asked s)
          (dispatch J st i what (method_value get_provision_state) params s)
  unfolding dispatch method_of method_value handle handle_get_provision_state
  dispatch-get_provision_state what params s =
      payload-IsExact what 0
        ((codes "state", number (state_value (Service.get_provision_state J st (asked s)))) ∷ [])
        (asked s) (refl, tt)

  pub dispatch-read_binding :
      (what params : Str) (s : Service)
      → let (b, t) = Service.read_binding J st i (asked s) in
        J.utf8 b.vin ≡ true
        → J.utf8 b.ecu_uid ≡ true
        → J.utf8 b.sn ≡ true
        → IsExact 0
            (binding_payload b)
            t
            (dispatch J st i what (method_value read_binding) params s)
  unfolding dispatch method_of method_value handle handle_read_binding
  dispatch-read_binding what params s vin uid sn =
      payload-IsExact what 0 (binding_payload (Service.read_binding J st i (asked s)).0)
        (Service.read_binding J st i (asked s)).1 (vin, (uid, (sn, (refl, (refl, tt)))))

  refused-IsExact :
      (what : Str) (c : ErrorCode) (message : Str) (s : Service)
      → J.utf8 message ≡ true
      → IsExact (code_value c) (failure_members message) s (
        respond_to J (handled_or_failed J what (refused J st i c message s).0),
        caught J (refused J st i c message s).0 (refused J st i c message s).1,
      )
  unfolding refused
  refused-IsExact what c message s valid =
      payload-IsExact what (code_value c) (failure_members message) s (refl, (valid, tt))

  -- The two writes that are not implemented.
  pub dispatch-write_vehicle_config :
      (what params : Str) (s : Service)
      → IsExact
          (code_value config_write_failed)
          (failure_members not_implemented)
          (asked s)
          (dispatch J st i what (method_value write_vehicle_config) params s)
  unfolding dispatch method_of method_value handle handle_write_vehicle_config
  dispatch-write_vehicle_config what params s =
      refused-IsExact what config_write_failed not_implemented (asked s)
        (L.utf8-ascii not_implemented refl)

  pub dispatch-write_production_info :
      (what params : Str) (s : Service)
      → IsExact
          (code_value production_info_write_failed)
          (failure_members not_implemented)
          (asked s)
          (dispatch J st i what (method_value write_production_info) params s)
  unfolding dispatch method_of method_value handle handle_write_production_info
  dispatch-write_production_info what params s =
      refused-IsExact what production_info_write_failed not_implemented (asked s)
        (L.utf8-ascii not_implemented refl)

  -- The two writes of a VIN where it is missing.
  pub dispatch-without_vin :
      (what params : Str) (s : Service)
      → is_empty (extract_string_field J params (codes "vin")) ≡ true
      → IsExact
          (code_value invalid_vin_format)
          (failure_members missing_vin)
          (asked s)
          (dispatch J st i what (method_value write_vin) params s)
        × IsExact
            (code_value invalid_vin_format)
            (failure_members missing_vin)
            (asked s)
            (dispatch J st i what (method_value authorize_rewrite) params s)
  unfolding dispatch method_of method_value handle handle_write_vin handle_authorize_rewrite
  dispatch-without_vin what params s missing =
      let refused =
        refused-IsExact what invalid_vin_format missing_vin (asked s)
          (L.utf8-ascii missing_vin refl) in
      simp missing (refused, refused)
