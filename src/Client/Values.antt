-- ===== src/Client/Values.antt =====
-- The reading methods of src/prov_client.cpp that give one value, and all three together.
use iov_vehicle_tbox_prov.Base.{◌≡◌, refl, ◌∙◌, ap, true, some, [], ◌∷◌, Str, codes}
use iov_vehicle_tbox_prov.Types.{ProvisionState, default_binding, state_value}
use iov_vehicle_tbox_prov.Json.{JsonLibrary, IsLawful, text, number}
use iov_vehicle_tbox_prov.Json.Documents.{document}
use iov_vehicle_tbox_prov.Store.{Store}
use iov_vehicle_tbox_prov.Storage.Serialize.{IsState, state_of_value-state_value}
use iov_vehicle_tbox_prov.Service
use iov_vehicle_tbox_prov.Service.{Inputs}
use iov_vehicle_tbox_prov.Service.Actions.{Service}
use iov_vehicle_tbox_prov.Dispatcher.Exact.{asked, dispatch-read_vin, dispatch-get_provision_state}
use iov_vehicle_tbox_prov.Dispatcher.Responses.{IsResponse}
use iov_vehicle_tbox_prov.Client.{
  vin_of_reply, state_of_reply, delivered, accepted, client_read_vin, client_get_provision_state,
  client_read_binding,
}
use iov_vehicle_tbox_prov.Client.EndToEnd.{reply_of, connected}
use iov_vehicle_tbox_prov.Client.Reading.{IsSendable, client-read_binding}

module _ (J : JsonLibrary) (st : Store) (L : IsLawful J) (i : Inputs) where
  vin_of_reply-response :
      (vin r : Str)
      → IsResponse J L 0 (J.get (document J ((codes "vin", text vin) ∷ []))) r
      → vin_of_reply J (delivered r) ≡ vin
  unfolding vin_of_reply accepted
  vin_of_reply-response vin r is =
      let there : J.get is.doc (codes "vin") ≡ some (text vin) =
        is.content (codes "vin") ∙ simp L.get-set refl in
      simp (is.parsed, there) refl

  state_of_reply-response :
      (p : ProvisionState) (r : Str)
      → IsState p
      → IsResponse J L 0 (J.get (document J ((codes "state", number (state_value p)) ∷ []))) r
      → state_of_reply J (delivered r) ≡ p
  unfolding state_of_reply accepted
  state_of_reply-response p r held is =
      let there : J.get is.doc (codes "state") ≡ some (number (state_value p)) =
        is.content (codes "state") ∙ simp L.get-set refl in
      simp (is.parsed, there, state_of_value-state_value p held) refl

  pub client-read_vin :
      (what : Str) (s : Service)
      → J.utf8 (Service.read_vin J st (asked s)) ≡ true
      → client_read_vin J (connected J st i what s) ≡ Service.read_vin J st (asked s)
  unfolding client_read_vin
  client-read_vin what s valid =
      let ((r, answered, is), _) = dispatch-read_vin J st L i what (codes "{}") s valid in
      ap (λ a. vin_of_reply J (reply_of a)) answered
      ∙ vin_of_reply-response (Service.read_vin J st (asked s)) r is

  pub client-get_provision_state :
      (what : Str) (s : Service)
      → IsState (Service.get_provision_state J st (asked s))
      → client_get_provision_state J (connected J st i what s)
        ≡ Service.get_provision_state J st (asked s)
  unfolding client_get_provision_state
  client-get_provision_state what s held =
      let ((r, answered, is), _) = dispatch-get_provision_state J st L i what (codes "{}") s in
      ap (λ a. state_of_reply J (reply_of a)) answered
      ∙ state_of_reply-response (Service.get_provision_state J st (asked s)) r held is

  -- Over a connection that carries every response, `ProvClient::read_vin` and
  -- `ProvClient::get_provision_state` give what the methods of `ProvService` with these names give,
  -- and `ProvClient::read_binding` gives the VIN, the UID, the SN, the state and the lock of the
  -- binding that `ProvService::read_binding` gives, and the defaults of the other fields: if the
  -- texts are UTF-8 and the states are ones that a byte holds.
  pub client_reads :
      (what : Str) (s : Service)
      → J.utf8 (Service.read_vin J st (asked s)) ≡ true
      → IsState (Service.get_provision_state J st (asked s))
      → IsSendable J st L i (Service.read_binding J st i (asked s)).0
      → let b = (Service.read_binding J st i (asked s)).0 in
        (client_read_vin J (connected J st i what s) ≡ Service.read_vin J st (asked s))
        × (client_get_provision_state J (connected J st i what s)
            ≡ Service.get_provision_state J st (asked s))
        × (client_read_binding J (connected J st i what s) ≡ record default_binding {
          vin = b.vin;
          ecu_uid = b.ecu_uid;
          sn = b.sn;
          state = b.state;
          locked = b.locked;
        })
  client_reads what s valid held sendable = (
    client-read_vin what s valid,
    client-get_provision_state what s held,
    client-read_binding J st L i what s sendable,
  )
