-- ===== src/Client/EndToEnd.antt =====
-- A client of src/prov_client.cpp whose calls reach the dispatcher of a service.
use iov_vehicle_tbox_prov.Base.{
  ◌≡◌, refl, ◌∙◌, ◌%◌, ◌^◌, ap, true, false, Option, none, some, List, [], ◌∷◌, Str, is_empty,
  codes, arith,
}
use iov_vehicle_tbox_prov.Errors.{ErrorCode, success, unnamed, code_value, is_success, of_value}
use iov_vehicle_tbox_prov.Errors.Names.{is_named, of_value-code_value}
use iov_vehicle_tbox_prov.Json.{JsonLibrary, IsLawful, JsonValue, text}
use iov_vehicle_tbox_prov.Json.Documents.{document, dump-document}
use iov_vehicle_tbox_prov.Store.{Store}
use iov_vehicle_tbox_prov.Service
use iov_vehicle_tbox_prov.Service.{Inputs}
use iov_vehicle_tbox_prov.Service.Actions.{Service, debug, logged}
use iov_vehicle_tbox_prov.Dispatcher.{
  MethodId, authorize_rewrite, success_members, write_vin, method_value, extract_string_field,
  dispatch,
}
use iov_vehicle_tbox_prov.Dispatcher.Responses.{
  IsResponse, Answers, dispatch-write_vin, dispatch-authorize_rewrite,
}
use iov_vehicle_tbox_prov.Client.{
  Reply, server_error, delivered, Call, biz_status, accepted, code_of_reply, send_document,
  client_write_vin, client_authorize_rewrite,
}

-- What a call of the framework gives that carries every response, and reports an exception of the
-- dispatcher.
abbrev pub reply_of : Option Str → Reply
reply_of none = server_error
reply_of (some r) = delivered r

abbrev pub connected : JsonLibrary → Store → Inputs → Str → Service → Call
connected J st i what s m params = reply_of (dispatch J st i what m params s).0

code_value-small : (c : ErrorCode) → is_named c ≡ true → code_value c % 2 ^ 32 ≡ code_value c
unfolding code_value
code_value-small (unnamed n) h = ground arith
code_value-small success h = refl
code_value-small _ h = refl

module _ (J : JsonLibrary) (st : Store) (L : IsLawful J) (i : Inputs) where
  abbrev pub vin_members : Str → List (Str × JsonValue)
  vin_members vin = (codes "vin", text vin) ∷ []

  -- The parameter that the client sends is the one that the dispatcher extracts.
  pub extract_string_field-vin :
      (vin params : Str)
      → J.dump 0 (document J (vin_members vin)) ≡ some params
      → extract_string_field J params (codes "vin") ≡ vin
  unfolding extract_string_field
  extract_string_field-vin vin params h =
      let (d, parsed, same) = L.parse-dump 0 (document J (vin_members vin)) params h in
      simp (parsed, same, L.get-set) refl

  biz_status-response :
      (c : ErrorCode) (members : Str → Option JsonValue) (r : Str)
      → is_named c ≡ true
      → IsResponse J L (code_value c) members r
      → biz_status J r ≡ code_value c
  unfolding biz_status
  biz_status-response c members r named is =
      simp (is.parsed, is.content (codes "status"), code_value-small c named) refl

  pub code_of_reply-response :
      (c : ErrorCode) (members : Str → Option JsonValue) (r : Str)
      → is_named c ≡ true
      → IsResponse J L (code_value c) members r
      → code_of_reply J (delivered r) ≡ c
  unfolding code_of_reply accepted
  code_of_reply-response c members r named is =
      ap of_value (biz_status-response c members r named is) ∙ of_value-code_value c named

  -- A VIN that is sent to a method which answers it by a code comes back as that code.
  send_document-vin :
      (m : MethodId) (code : Str → ErrorCode) (what vin : Str) (s : Service)
      → ((params : Str)
          → is_empty (extract_string_field J params (codes "vin")) ≡ false
          → Answers J L
              (code_value (code (extract_string_field J params (codes "vin"))))
              (success_members (is_success (code (extract_string_field J params (codes "vin")))))
              (dispatch J st i what (method_value m) params s).0)
      → J.utf8 vin ≡ true
      → is_empty vin ≡ false
      → is_named (code vin) ≡ true
      → send_document J (connected J st i what s) m (vin_members vin) ≡ some (code vin)
  unfolding send_document
  send_document-vin m code what vin s answers valid given named =
      let (params, dumped, _) = dump-document J L 0 (vin_members vin) (valid, tt) in
      let same = extract_string_field-vin vin params dumped in
      let (r, answered, is) = answers params (ap is_empty same ∙ given) in
      let sent : send_document J (connected J st i what s) m (vin_members vin)
          ≡ some (code_of_reply J (connected J st i what s (method_value m) params)) =
        simp dumped refl in
      sent
      ∙ ap (λ a. some (code_of_reply J (reply_of a))) answered
      ∙ ap some (code_of_reply-response _ _ r (ap (λ v. is_named (code v)) same ∙ named) is)
      ∙ ap (λ v. some (code v)) same

  pub client-write_vin :
      (what vin : Str) (s : Service)
      → J.utf8 vin ≡ true
      → is_empty vin ≡ false
      → is_named (Service.write_vin J st i vin (logged (debug "ipc" "prov.ipc.dispatch") s)).0
        ≡ true
      → client_write_vin J (connected J st i what s) vin
        ≡ some (Service.write_vin J st i vin (logged (debug "ipc" "prov.ipc.dispatch") s)).0
  unfolding client_write_vin
  client-write_vin what vin s =
      send_document-vin write_vin
        (λ v. (Service.write_vin J st i v (logged (debug "ipc" "prov.ipc.dispatch") s)).0) what vin
        s (λ params given. (dispatch-write_vin J st L i what params s given).0)

  pub client-authorize_rewrite :
      (what vin : Str) (s : Service)
      → J.utf8 vin ≡ true
      → is_empty vin ≡ false
      → is_named
          (Service.authorize_rewrite J st i vin (logged (debug "ipc" "prov.ipc.dispatch") s)).0
        ≡ true
      → client_authorize_rewrite J (connected J st i what s) vin
        ≡ some (Service.authorize_rewrite J st i vin (logged (debug "ipc" "prov.ipc.dispatch") s)).0
  unfolding client_authorize_rewrite
  client-authorize_rewrite what vin s =
      send_document-vin authorize_rewrite
        (λ v. (Service.authorize_rewrite J st i v (logged (debug "ipc" "prov.ipc.dispatch") s)).0)
        what vin s (λ params given. (dispatch-authorize_rewrite J st L i what params s given).0)

  -- Over a connection that carries every response, `ProvClient::write_vin` and
  -- `ProvClient::authorize_rewrite` of a VIN in UTF-8 that is not empty return the codes that the
  -- methods of `ProvService` with these names return for that VIN, if these are named codes.
  pub client_vins :
      (what vin : Str) (s : Service)
      → J.utf8 vin ≡ true
      → is_empty vin ≡ false
      → is_named (Service.write_vin J st i vin (logged (debug "ipc" "prov.ipc.dispatch") s)).0
        ≡ true
      → is_named
          (Service.authorize_rewrite J st i vin (logged (debug "ipc" "prov.ipc.dispatch") s)).0
        ≡ true
      → (client_write_vin J (connected J st i what s) vin
          ≡ some (Service.write_vin J st i vin (logged (debug "ipc" "prov.ipc.dispatch") s)).0)
        × (client_authorize_rewrite J (connected J st i what s) vin
            ≡ some
                (Service.authorize_rewrite J st i vin
                  (logged (debug "ipc" "prov.ipc.dispatch") s)).0)
  client_vins what vin s valid given written rewritten = (
    client-write_vin what vin s valid given written,
    client-authorize_rewrite what vin s valid given rewritten,
  )
