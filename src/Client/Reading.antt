-- ===== src/Client/Reading.antt =====
-- `ProvClient::read_binding` of src/prov_client.cpp over a connection to the dispatcher.
use iov_vehicle_tbox_prov.Base.{◌≡◌, refl, ◌∙◌, ap, true, Option, some, Str, codes, arith}
use iov_vehicle_tbox_prov.Types.{state_value, state_of_value, VehicleBinding, default_binding}
use iov_vehicle_tbox_prov.Json.{JsonLibrary, IsLawful, JsonValue, text, number, boolean}
use iov_vehicle_tbox_prov.Json.Documents.{document}
use iov_vehicle_tbox_prov.Store.{Store}
use iov_vehicle_tbox_prov.Storage.Serialize.{IsState, state_of_value-state_value}
use iov_vehicle_tbox_prov.Service
use iov_vehicle_tbox_prov.Service.{Inputs}
use iov_vehicle_tbox_prov.Service.Actions.{Service}
use iov_vehicle_tbox_prov.Dispatcher.{binding_payload}
use iov_vehicle_tbox_prov.Dispatcher.Exact.{asked, dispatch-read_binding}
use iov_vehicle_tbox_prov.Dispatcher.Responses.{IsResponse}
use iov_vehicle_tbox_prov.Client.{
  delivered, accepted, read_members, binding_of_reply, client_read_binding,
}
use iov_vehicle_tbox_prov.Client.EndToEnd.{reply_of, connected}

read_members-full :
    (member : Str → Option JsonValue) (b : VehicleBinding)
    → member (codes "vin") ≡ some (text b.vin)
    → member (codes "ecu_uid") ≡ some (text b.ecu_uid)
    → member (codes "sn") ≡ some (text b.sn)
    → member (codes "state") ≡ some (number (state_value b.state))
    → member (codes "locked") ≡ some (boolean b.locked)
    → read_members member ≡ record default_binding {
      vin = b.vin;
      ecu_uid = b.ecu_uid;
      sn = b.sn;
      state = state_of_value (state_value b.state);
      locked = b.locked;
    }
unfolding read_members
read_members-full member b vin uid sn state locked = ground (arith, vin, uid, sn, state, locked)

module _ (J : JsonLibrary) (st : Store) (L : IsLawful J) (i : Inputs) where
  -- What a response can carry.
  abbrev pub IsSendable : VehicleBinding → Type 0
  IsSendable b =
      (J.utf8 b.vin ≡ true) × (J.utf8 b.ecu_uid ≡ true) × (J.utf8 b.sn ≡ true) × IsState b.state

  read_members-response :
      (b : VehicleBinding) (r : Str)
      → IsState b.state
      → (is : IsResponse J L 0 (J.get (document J (binding_payload b))) r)
      → read_members (J.get is.doc) ≡ record default_binding {
        vin = b.vin;
        ecu_uid = b.ecu_uid;
        sn = b.sn;
        state = b.state;
        locked = b.locked;
      }
  read_members-response b r state is =
      let vin : J.get is.doc (codes "vin") ≡ some (text b.vin) =
        is.content (codes "vin") ∙ simp L.get-set refl in
      let uid : J.get is.doc (codes "ecu_uid") ≡ some (text b.ecu_uid) =
        is.content (codes "ecu_uid") ∙ simp L.get-set refl in
      let sn : J.get is.doc (codes "sn") ≡ some (text b.sn) =
        is.content (codes "sn") ∙ simp L.get-set refl in
      let stored : J.get is.doc (codes "state") ≡ some (number (state_value b.state)) =
        is.content (codes "state") ∙ simp L.get-set refl in
      let locked : J.get is.doc (codes "locked") ≡ some (boolean b.locked) =
        is.content (codes "locked") ∙ simp L.get-set refl in
      read_members-full (J.get is.doc) b vin uid sn stored locked
      ∙ ap
          (λ t. record default_binding {
            vin = b.vin;
            ecu_uid = b.ecu_uid;
            sn = b.sn;
            state = t;
            locked = b.locked;
          })
          (state_of_value-state_value b.state state)

  binding_of_reply-response :
      (b : VehicleBinding) (r : Str)
      → IsState b.state
      → IsResponse J L 0 (J.get (document J (binding_payload b))) r
      → binding_of_reply J (delivered r) ≡ record default_binding {
        vin = b.vin;
        ecu_uid = b.ecu_uid;
        sn = b.sn;
        state = b.state;
        locked = b.locked;
      }
  unfolding binding_of_reply accepted
  binding_of_reply-response b r state is = simp is.parsed (read_members-response b r state is)

  pub client-read_binding :
      (what : Str) (s : Service)
      → IsSendable (Service.read_binding J st i (asked s)).0
      → let b = (Service.read_binding J st i (asked s)).0 in
        client_read_binding J (connected J st i what s) ≡ record default_binding {
          vin = b.vin;
          ecu_uid = b.ecu_uid;
          sn = b.sn;
          state = b.state;
          locked = b.locked;
        }
  unfolding client_read_binding
  client-read_binding what s sendable =
      let ((r, answered, is), _) =
        dispatch-read_binding J st L i what (codes "{}") s sendable.0 sendable.1 sendable.2 in
      ap (λ a. binding_of_reply J (reply_of a)) answered
      ∙ binding_of_reply-response (Service.read_binding J st i (asked s)).0 r sendable.3 is
