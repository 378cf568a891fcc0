-- ===== src/Client/Session/Refinement.antt =====
-- The client over the dispatcher does what the service does, in any sequence of calls.
use iov_vehicle_tbox_prov.Base.{
  ◌≡◌, refl, ap, ◌∙◌, true, false, Bool-cases, inl, inr, some, List, [], ◌∷◌, Str, codes, is_empty,
  if◌then◌else◌, arith,
}
use iov_vehicle_tbox_prov.Errors.{
  ErrorCode, invalid_vin_format, config_write_failed, production_info_write_failed, code_value,
  is_success,
}
use iov_vehicle_tbox_prov.Errors.Names.{is_named}
use iov_vehicle_tbox_prov.Json.{JsonLibrary, IsLawful, JsonValue, text, byte_array}
use iov_vehicle_tbox_prov.Json.Documents.{document, dump-document}
use iov_vehicle_tbox_prov.Store.{Store}
use iov_vehicle_tbox_prov.Storage
use iov_vehicle_tbox_prov.Storage.Serialize.{IsState, ProductionIsText}
use iov_vehicle_tbox_prov.Service
use iov_vehicle_tbox_prov.Service.{Inputs}
use iov_vehicle_tbox_prov.Service.Actions.{Service}
use iov_vehicle_tbox_prov.Dispatcher.{
  MethodId, write_vin, write_vehicle_config, write_production_info, authorize_rewrite, method_value,
  success_members, failure_members, missing_vin, not_implemented, extract_string_field, dispatch,
}
use iov_vehicle_tbox_prov.Dispatcher.Responses.{dispatch-write_vin, dispatch-authorize_rewrite}
use iov_vehicle_tbox_prov.Dispatcher.Exact.{
  asked, IsExact, dispatch-initialize, dispatch-read_vin, dispatch-read_binding,
  dispatch-get_provision_state, dispatch-write_vehicle_config, dispatch-write_production_info,
  dispatch-without_vin,
}
use iov_vehicle_tbox_prov.Client.{
  code_of_reply, send_document, client_initialize, client_write_vin, client_write_vehicle_config,
  client_write_production_info, client_authorize_rewrite,
}
use iov_vehicle_tbox_prov.Client.EndToEnd.{
  reply_of, connected, code_of_reply-response, extract_string_field-vin, vin_members,
}
use iov_vehicle_tbox_prov.Client.Reading.{IsSendable, client-read_binding}
use iov_vehicle_tbox_prov.Client.Values.{client-read_vin, client-get_provision_state}
use iov_vehicle_tbox_prov.Client.Rejected.{sent}
use iov_vehicle_tbox_prov.Client.Session.{
  ClientCall, initialize_call, read_vin_call, read_binding_call, get_provision_state_call,
  write_vin_call, authorize_rewrite_call, write_vehicle_config_call, write_production_info_call,
  Answer, code, code_or_thrown, client_answer, sends, request_of, after, remote, remote_all, coded,
  exposed, exposed_all,
}

module _ (J : JsonLibrary) (st : Store) (L : IsLawful J) where
  -- What the call sends, and what it is answered with, can be carried: texts in UTF-8, states that
  -- a byte holds, and codes with a name.
  abbrev pub IsCarried : Inputs × ClientCall → Service → Type 0
  IsCarried (i, read_vin_call) s = J.utf8 (Service.read_vin J st (asked s)) ≡ true
  IsCarried (i, read_binding_call) s = IsSendable J st L i (Service.read_binding J st i (asked s)).0
  IsCarried (i, get_provision_state_call) s = IsState (Service.get_provision_state J st (asked s))
  IsCarried (i, write_vin_call v) s =
      (J.utf8 v ≡ true) × (is_named (Service.write_vin J st i v (asked s)).0 ≡ true)
  IsCarried (i, authorize_rewrite_call v) s =
      (J.utf8 v ≡ true) × (is_named (Service.authorize_rewrite J st i v (asked s)).0 ≡ true)
  IsCarried (i, write_production_info_call info) s = ProductionIsText J info
  IsCarried _ s = Unit

  -- Each call of a sequence, made to the service that the calls before it leave.
  abbrev pub AllCarried : List (Inputs × ClientCall) → Service → Type 0
  AllCarried [] s = Unit
  AllCarried (c ∷ cs) s = IsCarried c s × AllCarried cs (exposed J st c s).1

  -- Initialization gives SUCCESS or STORAGE_ERROR.
  initialize_named : (s : Service) → is_named (Service.initialize J st s).0 ≡ true
  unfolding Service.initialize Storage.initialize
  initialize_named s = ground arith

module _ (J : JsonLibrary) (st : Store) (L : IsLawful J) (i : Inputs) (what : Str) where
  -- A call that sends a document.
  abbrev sending : MethodId → List (Str × JsonValue) → Service → Answer × Service
  sending m members s = (
    code_or_thrown (send_document J (connected J st i what s) m members),
    after J st what i (sends J m members) s,
  )

  -- A document that is sent to a method which answers it by a code.
  send-exact :
      (m : MethodId) (members answers : List (Str × JsonValue)) (params : Str) (c : ErrorCode)
      (s t : Service)
      → J.dump 0 (document J members) ≡ some params
      → is_named c ≡ true
      → IsExact J st L i (code_value c) answers t (dispatch J st i what (method_value m) params s)
      → sending m members s ≡ (code c, t)
  send-exact m members answers params c s t dumped named ((r, answered, is), left) =
      let told =
        sent J st L i what m members params s dumped
        ∙ ap (λ a. some (code_of_reply J (reply_of a))) answered
        ∙ ap some (code_of_reply-response J st L i c _ r named is) in
      rw (told, dumped, left) refl

  -- A VIN that is sent: `write` is the method of the service.
  send-vin :
      (m : MethodId) (write : Str → Service → ErrorCode × Service) (v : Str) (s : Service)
      → ((params : Str)
          → is_empty (extract_string_field J params (codes "vin")) ≡ false
          → let r = write (extract_string_field J params (codes "vin")) (asked s) in
            IsExact J st L i
              (code_value r.0)
              (success_members (is_success r.0))
              r.1
              (dispatch J st i what (method_value m) params s))
      → ((params : Str)
          → is_empty (extract_string_field J params (codes "vin")) ≡ true
          → IsExact J st L i
              (code_value invalid_vin_format)
              (failure_members missing_vin)
              (asked s)
              (dispatch J st i what (method_value m) params s))
      → J.utf8 v ≡ true
      → is_named (write v (asked s)).0 ≡ true
      → sending m (vin_members J st L i v) s ≡ (
          if is_empty v then (code invalid_vin_format, asked s) else coded J st (write v (asked s)))
  send-vin m write v s given missing valid named =
      let (params, dumped, _) = dump-document J L 0 (vin_members J st L i v) (valid, tt) in
      let same = extract_string_field-vin J st L i v params dumped in
      elim (Bool-cases (is_empty v)) [
        | inl empty ↦ rw empty (
            send-exact m _ (failure_members missing_vin) params invalid_vin_format s (asked s)
              dumped refl (missing params (ap is_empty same ∙ empty)))
        | inr full ↦
            let exact = given params (ap is_empty same ∙ full) in
            rw full (
              send-exact m _ (success_members (is_success (write v (asked s)).0)) params
                (write v (asked s)).0 s (write v (asked s)).1 dumped named (rw same at exact))
      ]

  -- One call.
  remote-exposed :
      (c : ClientCall) (s : Service)
      → IsCarried J st L (i, c) s
      → remote J st what (i, c) s ≡ exposed J st (i, c) s
  unfolding remote exposed client_answer request_of client_initialize client_write_vin
      client_write_vehicle_config client_write_production_info client_authorize_rewrite
  remote-exposed initialize_call s carried =
      let ((r, answered, is), left) = dispatch-initialize J st L i what (codes "{}") s in
      let told =
        ap (λ a. code_of_reply J (reply_of a)) answered
        ∙ code_of_reply-response J st L i (Service.initialize J st (asked s)).0 _ r
            (initialize_named J st L (asked s)) is in
      rw (told, left) refl
  remote-exposed read_vin_call s valid =
      let (_, left) = dispatch-read_vin J st L i what (codes "{}") s valid in
      rw (client-read_vin J st L i what s valid, left) refl
  remote-exposed read_binding_call s sendable =
      let (_, left) =
        dispatch-read_binding J st L i what (codes "{}") s sendable.0 sendable.1 sendable.2 in
      rw (client-read_binding J st L i what s sendable, left) refl
  remote-exposed get_provision_state_call s held =
      let (_, left) = dispatch-get_provision_state J st L i what (codes "{}") s in
      rw (client-get_provision_state J st L i what s held, left) refl
  remote-exposed (write_vin_call v) s (valid, named) =
      send-vin write_vin (Service.write_vin J st i) v s
        (λ params given. dispatch-write_vin J st L i what params s given)
        (λ params missing. (dispatch-without_vin J st L i what params s missing).0) valid named
  remote-exposed (authorize_rewrite_call v) s (valid, named) =
      send-vin authorize_rewrite (Service.authorize_rewrite J st i) v s
        (λ params given. dispatch-authorize_rewrite J st L i what params s given)
        (λ params missing. (dispatch-without_vin J st L i what params s missing).1) valid named
  remote-exposed (write_vehicle_config_call bytes) s carried =
      let members = (codes "config_data", byte_array []) ∷ [] in
      let (params, dumped, _) = dump-document J L 0 members (refl, tt) in
      send-exact write_vehicle_config members (failure_members not_implemented) params
        config_write_failed s (asked s) dumped refl
        (dispatch-write_vehicle_config J st L i what params s)
  remote-exposed (write_production_info_call info) s (date, batch, station) =
      let members =
        (codes "production_date", text info.production_date)
        ∷ (codes "batch_num", text info.batch_num)
        ∷ (codes "station_id", text info.station_id)
        ∷ [] in
      let (params, dumped, _) = dump-document J L 0 members (date, (batch, (station, tt))) in
      send-exact write_production_info members (failure_members not_implemented) params
        production_info_write_failed s (asked s) dumped refl
        (dispatch-write_production_info J st L i what params s)

module _ (J : JsonLibrary) (st : Store) (L : IsLawful J) (what : Str) where
  -- Over a connection that carries every response, any sequence of calls of the client gives the
  -- answers and leaves the service of the same sequence of direct calls of the service, in which a
  -- write of configuration or production data is CONFIG_WRITE_FAILED or
  -- PRODUCTION_INFO_WRITE_FAILED and one of an empty VIN INVALID_VIN_FORMAT, without a call of the
  -- service. What each call sends and is answered with can be carried.
  pub session-exposed :
      (cs : List (Inputs × ClientCall)) (s : Service)
      → AllCarried J st L cs s
      → remote_all J st what cs s ≡ exposed_all J st cs s
  unfolding remote_all exposed_all
  session-exposed [] s carried = refl
  session-exposed ((i, c) ∷ cs) s (here, later) =
      rw (remote-exposed J st L i what c s here)
        (rw (session-exposed cs (exposed J st (i, c) s).1 later) refl)
