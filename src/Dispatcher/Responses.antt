-- ===== src/Dispatcher/Responses.antt =====
-- The responses of src/prov_ipc_dispatcher.cpp.
use iov_vehicle_tbox_prov.Base.{
  ℕ, ◌≡◌, refl, ◌∙◌, ap, if◌then◌else◌, Bool, true, false, Option-cases, inl, inr, Option, none,
  some, List, [], ◌∷◌, Str, str_eq, is_empty, codes, ◌⊎◌,
}
use iov_vehicle_tbox_prov.Errors.{
  ErrorCode, invalid_vin_format, config_write_failed, production_info_write_failed, code_value,
  is_success,
}
use iov_vehicle_tbox_prov.Types.{state_value}
use iov_vehicle_tbox_prov.Json.{JsonLibrary, IsLawful, JsonValue, text, number}
use iov_vehicle_tbox_prov.Json.Documents.{document, dump-document}
use iov_vehicle_tbox_prov.Store.{Store}
use iov_vehicle_tbox_prov.Service
use iov_vehicle_tbox_prov.Service.{Inputs}
use iov_vehicle_tbox_prov.Service.Actions.{Service, debug, logged}
use iov_vehicle_tbox_prov.Dispatcher.{
  MethodId, initialize, read_vin, read_binding, get_provision_state, write_vin,
  write_vehicle_config, write_production_info, authorize_rewrite, method_of, Handled, with_status,
  dumped, make_json_response, error_members, missing_vin, not_implemented, binding_payload,
  success_members, failure_members, method_value, fw_handler_failed, respond, handled_or_failed,
  caught, respond_to, coded, refused, extract_string_field, handle_initialize, handle_read_vin,
  handle_read_binding, handle_get_provision_state, handle_write_vin, handle_write_vehicle_config,
  handle_write_production_info, handle_authorize_rewrite, handle, dispatch,
}

module _ (J : JsonLibrary) (L : IsLawful J) where
  -- A text that is read back as a document with those members and a status.
  pub record IsResponse (status : ℕ) (members : Str → Option JsonValue) (r : Str) : Type 0 where
    pub doc : J.Doc
    pub parsed : J.parse r ≡ some doc
    pub content :
        (k : Str)
        → J.get doc k ≡ (if str_eq (codes "status") k then some (number status) else members k)

  -- A response to a payload: its status and its members.
  abbrev pub Answers : ℕ → List (Str × JsonValue) → Option Str → Type 0
  Answers status members answer =
      (r : Str) × (answer ≡ some r) × IsResponse status (J.get (document J members)) r

  -- Where `make_json_response` gives a text, it is such a response.
  set_status-IsResponse :
      (status : ℕ) (d : J.Doc) (members : Str → Option JsonValue) (r : Str)
      → J.dump 0 (J.set d (codes "status") (number status)) ≡ some r
      → ((k : Str) → J.get d k ≡ members k)
      → IsResponse status members r
  set_status-IsResponse status d members r h alike =
      let (e, parsed, same) = L.parse-dump 0 (J.set d (codes "status") (number status)) r h in
      record {
        doc = e;
        parsed = parsed;
        content = λ k.
            same k
            ∙ L.get-set d (codes "status") (number status) k
            ∙ ap (λ m. if str_eq (codes "status") k then some (number status) else m) (alike k);
      }

  -- The response to a payload that was dumped.
  respond-dumped :
      (status : ℕ) (members : List (Str × JsonValue)) (payload : Str)
      → dumped J members ≡ some payload
      → Answers status members (respond J status payload)
  unfolding respond make_json_response
  respond-dumped status members payload h =
      let (d, parsed, same) = L.parse-dump 0 (document J members) payload h in
      let (r, made) =
        L.dump-parsed 0 (document J members) payload d h parsed 0 (codes "status") (number status)
          refl in
      (
        r,
        simp (parsed, made),
        set_status-IsResponse status d (J.get (document J members)) r made same,
      )

  -- The response to the text of an exception.
  failed-Answers :
      (what : Str)
      → J.utf8 what ≡ true
      → Answers fw_handler_failed
          (error_members what)
          (respond_to J (handled_or_failed J what none))
  unfolding respond_to handled_or_failed
  failed-Answers what valid =
      let (payload, h, _) = dump-document J L 0 (error_members what) (valid, tt) in
      let (r, made, is) = respond-dumped fw_handler_failed (error_members what) payload h in
      (r, rw h made, is)

  -- A payload that is dumped is answered with its own status.
  pub text-Answers :
      (what : Str) (status : ℕ) (members : List (Str × JsonValue)) (payload : Str)
      → dumped J members ≡ some payload
      → Answers status members
          (respond_to J (handled_or_failed J what (with_status status (dumped J members))))
  unfolding respond_to handled_or_failed
  text-Answers what status members payload h =
      let (r, made, is) = respond-dumped status members payload h in (r, rw h made, is)

  -- Either response.
  abbrev pub AnswersOr : Str → ℕ → List (Str × JsonValue) → Option Str → Type 0
  AnswersOr what status members answer =
      Answers status members answer ⊎ Answers fw_handler_failed (error_members what) answer

  answers_or :
      (what : Str) (status : ℕ) (members : List (Str × JsonValue))
      → J.utf8 what ≡ true
      → AnswersOr what status members
          (respond_to J (handled_or_failed J what (with_status status (dumped J members))))
  answers_or what status members valid = elim (Option-cases (dumped J members)) [
    | inl failed ↦ inr (
        rw (ap (λ o. handled_or_failed J what (with_status status o)) failed)
          (failed-Answers what valid))
    | inr (payload, h) ↦ inl (text-Answers what status members payload h)
  ]

  -- A response that is JSON and has a status.
  abbrev pub IsAnswered : Option Str → Type 0
  IsAnswered answer =
      (r : Str) × (d : J.Doc) × (n : ℕ) × (answer ≡ some r)
      × (J.parse r ≡ some d)
      × (J.get d (codes "status") ≡ some (number n))

  Answers-IsAnswered :
      (status : ℕ) (members : List (Str × JsonValue)) (answer : Option Str)
      → Answers status members answer
      → IsAnswered answer
  Answers-IsAnswered status members answer (r, e, is) =
      (r, is.doc, status, e, is.parsed, is.content (codes "status"))

  AnswersOr-IsAnswered :
      (what : Str) (status : ℕ) (members : List (Str × JsonValue)) (answer : Option Str)
      → AnswersOr what status members answer
      → IsAnswered answer
  AnswersOr-IsAnswered what status members answer (inl a) =
      Answers-IsAnswered status members answer a
  AnswersOr-IsAnswered what status members answer (inr a) =
      Answers-IsAnswered fw_handler_failed (error_members what) answer a

  -- Whatever the status and the payload, there is an answer.
  payload-IsAnswered :
      (what : Str) (status : ℕ) (members : List (Str × JsonValue))
      → J.utf8 what ≡ true
      → IsAnswered (respond_to J (handled_or_failed J what (with_status status (dumped J members))))
  payload-IsAnswered what status members valid =
      AnswersOr-IsAnswered what status members _ (answers_or what status members valid)

module _ (J : JsonLibrary) (st : Store) (L : IsLawful J) (i : Inputs) where
  -- What `handle` gives is the dump of some payload.
  abbrev IsDumped : Handled → Type 0
  IsDumped h =
      (status : ℕ) × (members : List (Str × JsonValue)) × (h
        ≡ with_status status (dumped J members))

  coded-IsDumped : (r : ErrorCode × Service) → IsDumped (coded J st i r).0
  unfolding coded
  coded-IsDumped (c, s) = (code_value c, success_members (is_success c), refl)

  refused-IsDumped :
      (c : ErrorCode) (message : Str) (s : Service) → IsDumped (refused J st i c message s).0
  unfolding refused
  refused-IsDumped c message s = (code_value c, failure_members message, refl)

  either-IsDumped :
      (b : Bool) (x y : Handled × Service)
      → IsDumped x.0
      → IsDumped y.0
      → IsDumped (if b then x else y).0
  either-IsDumped true x y h k = h
  either-IsDumped false x y h k = k

  handle-IsDumped :
      (m : Option MethodId) (params : Str) (s : Service) → IsDumped (handle J st i m params s).0
  unfolding handle handle_initialize handle_read_vin handle_read_binding handle_get_provision_state
      handle_write_vehicle_config handle_write_production_info handle_write_vin
      handle_authorize_rewrite coded refused
  handle-IsDumped (some initialize) params s = coded-IsDumped (Service.initialize J st s)
  handle-IsDumped (some read_vin) params s =
      (0, (codes "vin", text (Service.read_vin J st s)) ∷ [], refl)
  handle-IsDumped (some read_binding) params s =
      (0, binding_payload (Service.read_binding J st i s).0, refl)
  handle-IsDumped (some get_provision_state) params s =
      (0, (codes "state", number (state_value (Service.get_provision_state J st s))) ∷ [], refl)
  handle-IsDumped (some write_vin) params s =
      either-IsDumped _ _ _ (refused-IsDumped invalid_vin_format missing_vin s)
        (coded-IsDumped (Service.write_vin J st i (extract_string_field J params (codes "vin")) s))
  handle-IsDumped (some write_vehicle_config) params s =
      refused-IsDumped config_write_failed not_implemented s
  handle-IsDumped (some write_production_info) params s =
      refused-IsDumped production_info_write_failed not_implemented s
  handle-IsDumped (some authorize_rewrite) params s =
      either-IsDumped _ _ _ (refused-IsDumped invalid_vin_format missing_vin s) (
        coded-IsDumped
          (Service.authorize_rewrite J st i (extract_string_field J params (codes "vin")) s))
  handle-IsDumped none params s = (fw_handler_failed, error_members (codes "Unknown method"), refl)

  -- Every request, with a known method or not and with any parameters, gets a response that is JSON
  -- and has a number as its status, if the text of an exception is UTF-8.
  pub dispatch_answers :
      (what : Str) (method_id : ℕ) (params : Str) (s : Service)
      → J.utf8 what ≡ true
      → IsAnswered J L (dispatch J st i what method_id params s).0
  unfolding dispatch
  dispatch_answers what method_id params s valid =
      let (status, members, e) =
        handle-IsDumped (method_of method_id) params (logged (debug "ipc" "prov.ipc.dispatch") s) in
      rw (ap (λ h. respond_to J (handled_or_failed J what h)) e)
        (payload-IsAnswered J L what status members valid)

module _ (J : JsonLibrary) (st : Store) (L : IsLawful J) (i : Inputs) where
  flag-Answers :
      (what : Str) (r : ErrorCode × Service)
      → Answers J L
          (code_value r.0)
          (success_members (is_success r.0))
          (respond_to J (handled_or_failed J what (coded J st i r).0))
  unfolding coded
  flag-Answers what (c, s) =
      let (payload, h, _) = dump-document J L 0 (success_members (is_success c)) (refl, tt) in
      text-Answers J L what (code_value c) (success_members (is_success c)) payload h

  -- Its dump does not throw, so that nothing is caught.
  flag-caught : (r : ErrorCode × Service) → caught J (coded J st i r).0 (coded J st i r).1 ≡ r.1
  unfolding coded
  flag-caught (c, s) =
      let (payload, h, _) = dump-document J L 0 (success_members (is_success c)) (refl, tt) in
      ap (λ o. caught J (with_status (code_value c) o) s) h

  -- The request WriteVin with a parameter `vin` that is not empty is answered with the code of
  -- `write_vin` as the status, and the member `success` says whether it is SUCCESS. The service is
  -- left as `write_vin` leaves it.
  pub dispatch-write_vin :
      (what params : Str) (s : Service)
      → is_empty (extract_string_field J params (codes "vin")) ≡ false
      → let r =
          Service.write_vin J st i
            (extract_string_field J params (codes "vin"))
            (logged (debug "ipc" "prov.ipc.dispatch") s) in
        Answers J L
          (code_value r.0)
          (success_members (is_success r.0))
          (dispatch J st i what (method_value write_vin) params s).0
        × ((dispatch J st i what (method_value write_vin) params s).1 ≡ r.1)
  unfolding dispatch method_of method_value handle handle_write_vin
  dispatch-write_vin what params s given =
      let r =
        Service.write_vin J st i (extract_string_field J params (codes "vin"))
          (logged (debug "ipc" "prov.ipc.dispatch") s) in
      simp given (flag-Answers what r, flag-caught r)

  -- The same of AuthorizeRewrite and `ProvService::authorize_rewrite`.
  pub dispatch-authorize_rewrite :
      (what params : Str) (s : Service)
      → is_empty (extract_string_field J params (codes "vin")) ≡ false
      → let r =
          Service.authorize_rewrite J st i
            (extract_string_field J params (codes "vin"))
            (logged (debug "ipc" "prov.ipc.dispatch") s) in
        Answers J L
          (code_value r.0)
          (success_members (is_success r.0))
          (dispatch J st i what (method_value authorize_rewrite) params s).0
        × ((dispatch J st i what (method_value authorize_rewrite) params s).1 ≡ r.1)
  unfolding dispatch method_of method_value handle handle_authorize_rewrite
  dispatch-authorize_rewrite what params s given =
      let r =
        Service.authorize_rewrite J st i (extract_string_field J params (codes "vin"))
          (logged (debug "ipc" "prov.ipc.dispatch") s) in
      simp given (flag-Answers what r, flag-caught r)
