-- ===== src/Service/Device/Refinement.antt =====
-- On a device without faults the service of src/prov_service.cpp does what its specification does.
use iov_vehicle_tbox_prov.Base.{◌≡◌, refl, ◌∙◌, Bool, true, List, [], ◌∷◌, All, codes}
use iov_vehicle_tbox_prov.Errors.{ErrorCode, success}
use iov_vehicle_tbox_prov.Json.{JsonLibrary, IsLawful}
use iov_vehicle_tbox_prov.Store.{Store}
use iov_vehicle_tbox_prov.Service
use iov_vehicle_tbox_prov.Service.{
  Inputs, write_vin, authorize_rewrite, write_vehicle_config, write_production_info, read_binding,
  validate_vin_format, execute_vin_binding_flow, begin_shutdown, check_conflict,
}
use iov_vehicle_tbox_prov.Service.Actions.{Service}
use iov_vehicle_tbox_prov.Service.Frame.{SameFrame-refl}
use iov_vehicle_tbox_prov.Service.Requests.{
  Request, serve, serve_all, initialize_request, begin_shutdown_request, write_vin_request,
  authorize_rewrite_request, write_vehicle_config_request, write_production_info_request,
  read_binding_request, storage-read_binding, frame-read_binding,
}
use iov_vehicle_tbox_prov.Service.Device.{step, run_device}
use iov_vehicle_tbox_prov.Service.Device.Vins.{write_vin-Refines, authorize_rewrite-Refines}
use iov_vehicle_tbox_prov.Service.Device.Data.{
  write_vehicle_config-Refines, write_production_info-Refines,
}
use iov_vehicle_tbox_prov.Service.Device.View.{
  view, answer, IsSound, IsText, Refines, unchanged-Refines,
}

module _ (J : JsonLibrary) (st : Store) where
  -- The answers to a sequence of requests, in their order.
  unfoldable pub answers : List Request → Service → List ErrorCode
  answers [] s = []
  answers (r ∷ rest) s = answer J st r s ∷ answers rest (serve J st r s)

module _ (J : JsonLibrary) (st : Store) (L : IsLawful J) (enabled : Bool) where
  begin_shutdown-Refines :
      (s : Service)
      → IsSound J st enabled s
      → Refines J st enabled
          (success, record (view J st s) { down = true })
          (success, begin_shutdown s)
  unfolding begin_shutdown
  begin_shutdown-Refines s sound = record {
    code = refl;
    device = refl;
    sound = record {
      ready = sound.ready;
      enables = sound.enables;
      weather = sound.weather;
      unlocked = sound.unlocked;
    };
  }

  initialize-Refines :
      (s : Service)
      → IsSound J st enabled s
      → Refines J st enabled (success, view J st s) (Service.initialize J st s)
  unfolding Service.initialize
  initialize-Refines s sound =
      simp sound.ready
        (unchanged-Refines J st enabled s success (success, s) sound refl refl (SameFrame-refl s))

  -- One request.
  serve-Refines :
      (r : Request) (s : Service)
      → IsSound J st enabled s
      → IsText J st r
      → Refines J st enabled (step enabled r (view J st s)) (answer J st r s, serve J st r s)
  unfolding step answer serve
  serve-Refines initialize_request s sound text = initialize-Refines s sound
  serve-Refines begin_shutdown_request s sound text = begin_shutdown-Refines s sound
  serve-Refines (write_vin_request i vin) s sound text =
      write_vin-Refines J st L enabled i vin s sound text
  serve-Refines (authorize_rewrite_request i vin) s sound text =
      authorize_rewrite-Refines J st L enabled i vin s sound text
  serve-Refines (write_vehicle_config_request i bytes) s sound text =
      write_vehicle_config-Refines J st L enabled s sound i bytes
  serve-Refines (write_production_info_request i p) s sound text =
      write_production_info-Refines J st L enabled s sound i p text
  serve-Refines (read_binding_request i) s sound text =
      unchanged-Refines J st enabled s success (success, (read_binding J st i s).1) sound refl
        (storage-read_binding J st i s) (frame-read_binding J st i s)

  -- Let the service be initialized, with no fault ahead and no locked binding, and let the texts
  -- that the requests store be UTF-8. Then for every sequence of requests the service gives the
  -- answers of the device, and shows at the end the device that the specification ends with: its
  -- VIN, configuration and production data, protection and shutdown.
  pub serve_all-Refines :
      (rs : List Request) (s : Service)
      → IsSound J st enabled s
      → All (IsText J st) rs
      → (answers J st rs s ≡ (run_device enabled rs (view J st s)).0)
        × (view J st (serve_all J st rs s) ≡ (run_device enabled rs (view J st s)).1)
  unfolding answers serve_all run_device
  serve_all-Refines [] s sound text = (refl, refl)
  serve_all-Refines (r ∷ rs) s sound (text, texts) =
      let here = serve-Refines r s sound text in
      let (codes, last) = serve_all-Refines rs (serve J st r s) here.sound texts in
      (simp (here.code, codes, here.device) refl, last ∙ rw here.device refl)
