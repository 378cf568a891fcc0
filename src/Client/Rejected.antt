-- ===== src/Client/Rejected.antt =====
-- The methods of src/prov_client.cpp that the dispatcher has no implementation for.
use iov_vehicle_tbox_prov.Base.{◌≡◌, refl, ◌∙◌, ap, some, List, [], ◌∷◌, ℕ, Str, codes}
use iov_vehicle_tbox_prov.Errors.{config_write_failed, production_info_write_failed}
use iov_vehicle_tbox_prov.Types.{ProductionInfo}
use iov_vehicle_tbox_prov.Json.{JsonLibrary, IsLawful, JsonValue, text, byte_array}
use iov_vehicle_tbox_prov.Json.Documents.{document, dump-document}
use iov_vehicle_tbox_prov.Store.{Store}
use iov_vehicle_tbox_prov.Storage.Serialize.{ProductionIsText}
use iov_vehicle_tbox_prov.Service.{Inputs}
use iov_vehicle_tbox_prov.Service.Actions.{Service, debug, logged}
use iov_vehicle_tbox_prov.Dispatcher.{
  MethodId, write_vehicle_config, write_production_info, method_value, dispatch,
}
use iov_vehicle_tbox_prov.Dispatcher.Exact.{
  asked, dispatch-write_vehicle_config, dispatch-write_production_info,
}
use iov_vehicle_tbox_prov.Client.{
  code_of_reply, send_document, client_write_vehicle_config, client_write_production_info,
}
use iov_vehicle_tbox_prov.Client.EndToEnd.{reply_of, connected, code_of_reply-response}

module _ (J : JsonLibrary) (st : Store) (L : IsLawful J) (i : Inputs) where
  -- A document that is sent is answered by what the method's number and its parameters give.
  pub sent :
      (what : Str) (m : MethodId) (members : List (Str × JsonValue)) (params : Str) (s : Service)
      → J.dump 0 (document J members) ≡ some params
      → send_document J (connected J st i what s) m members
        ≡ some (code_of_reply J (connected J st i what s (method_value m) params))
  unfolding send_document
  sent what m members params s dumped = simp dumped refl

  -- The two writes that are refused: the code that the client reads, and the service afterwards.
  dispatch-refused :
      (what params : Str) (s : Service)
      → (code_of_reply J (connected J st i what s (method_value write_vehicle_config) params)
          ≡ config_write_failed)
        × (code_of_reply J (connected J st i what s (method_value write_production_info) params)
            ≡ production_info_write_failed)
        × ((dispatch J st i what (method_value write_vehicle_config) params s).1 ≡ asked s)
        × ((dispatch J st i what (method_value write_production_info) params s).1 ≡ asked s)
  dispatch-refused what params s =
      let ((r, answered, is), left) = dispatch-write_vehicle_config J st L i what params s in
      let ((q, told, shown), kept) = dispatch-write_production_info J st L i what params s in
      (
        ap (λ a. code_of_reply J (reply_of a)) answered
            ∙ code_of_reply-response J st L i config_write_failed _ r refl is,
        ap (λ a. code_of_reply J (reply_of a)) told
            ∙ code_of_reply-response J st L i production_info_write_failed _ q refl shown,
        left,
        kept,
      )

  -- Over a connection that carries every response, `ProvClient::write_vehicle_config` of any bytes
  -- returns CONFIG_WRITE_FAILED and `ProvClient::write_production_info` of texts in UTF-8 returns
  -- PRODUCTION_INFO_WRITE_FAILED, whatever the state of the service; a request of either method,
  -- with any parameters, changes nothing of the service but its log.
  pub client-refused :
      (what params : Str) (config_data : List ℕ) (p : ProductionInfo) (s : Service)
      → ProductionIsText J p
      → (client_write_vehicle_config J (connected J st i what s) config_data
          ≡ some config_write_failed)
        × (client_write_production_info J (connected J st i what s) p
            ≡ some production_info_write_failed)
        × ((dispatch J st i what (method_value write_vehicle_config) params s).1
            ≡ logged (debug "ipc" "prov.ipc.dispatch") s)
        × ((dispatch J st i what (method_value write_production_info) params s).1
            ≡ logged (debug "ipc" "prov.ipc.dispatch") s)
  unfolding client_write_vehicle_config client_write_production_info
  client-refused what params config_data p s (date, batch, station) =
      let (sent₁, dumped₁, _) =
        dump-document J L 0 ((codes "config_data", byte_array []) ∷ []) (refl, tt) in
      let (sent₂, dumped₂, _) =
        dump-document J L 0
          ((codes "production_date", text p.production_date)
            ∷ (codes "batch_num", text p.batch_num)
            ∷ (codes "station_id", text p.station_id)
            ∷ [])
          (date, (batch, (station, tt))) in
      let (_, _, config_same, production_same) = dispatch-refused what params s in
      (
        sent what write_vehicle_config _ sent₁ s dumped₁
            ∙ ap some (dispatch-refused what sent₁ s).0,
        sent what write_production_info _ sent₂ s dumped₂
            ∙ ap some (dispatch-refused what sent₂ s).1,
        config_same,
        production_same,
      )
