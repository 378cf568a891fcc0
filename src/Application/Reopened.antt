-- ===== src/Application/Reopened.antt =====
-- A new application of src/prov_application.cpp over the disk of one that ended.
use iov_vehicle_tbox_prov.Base.{◌≡◌, refl, ap, ◌∙◌, true, Option, some, ◌∷◌, [], Str, codes}
use iov_vehicle_tbox_prov.Errors.{ErrorCode, success, is_success}
use iov_vehicle_tbox_prov.Json.{JsonLibrary, IsLawful, text}
use iov_vehicle_tbox_prov.Store
use iov_vehicle_tbox_prov.Store.{Store, Disk}
use iov_vehicle_tbox_prov.Store.Directories.{initialize_twice}
use iov_vehicle_tbox_prov.Storage
use iov_vehicle_tbox_prov.Service
use iov_vehicle_tbox_prov.Storage.{Storage}
use iov_vehicle_tbox_prov.Service.{Inputs, new_service, begin_shutdown}
use iov_vehicle_tbox_prov.Dispatcher.{MethodId, method_value}
use iov_vehicle_tbox_prov.Dispatcher.Responses.{Answers}
use iov_vehicle_tbox_prov.Dispatcher.Exact.{dispatch-read_vin}
use iov_vehicle_tbox_prov.Service.Actions.{Service, ServiceConfig}
use iov_vehicle_tbox_prov.Application.{
  Application, Settings, store_of, config_of, new_application, initialize, open_ipc,
}
use iov_vehicle_tbox_prov.Application.System.{handle_request}
use iov_vehicle_tbox_prov.Application.Lifetimes.{IsAlive, handle_request-answered}

module _ (J : JsonLibrary) (st : Store) where
  -- The store that the application opened is opened again by the service, to the same effect.
  initialize-opened :
      (c : ServiceConfig) (d : Disk)
      → (Store.initialize st d).0 ≡ true
      → Service.initialize J st (new_service c (Store.initialize st d).1)
        ≡ Service.initialize J st (new_service c d)
  unfolding Service.initialize Storage.initialize
  initialize-opened c d opened = rw (initialize_twice st d opened) (simp opened refl)

  -- Where the service of a new application is initialized and the server starts.
  pub record IsOpened (s : Service) (a : Application) : Type 0 where
    pub store : a.store ≡ some st
    pub providers : a.providers ≡ true
    pub dispatcher : a.dispatcher ≡ true
    pub service : a.service ≡ some s

  pub initialize_opens :
      (cfg : Settings) (d : Disk)
      → store_of cfg ≡ st
      → (Store.initialize st d).0 ≡ true
      → (Service.initialize J st (new_service (config_of cfg) d)).0 ≡ success
      → ((initialize J true (some cfg) (new_application d)).0 ≡ true)
        × IsOpened
            (Service.initialize J st (new_service (config_of cfg) d)).1
            (initialize J true (some cfg) (new_application d)).1
  unfolding initialize open_ipc
  initialize_opens cfg d same opened ok =
      let ok' =
        ap is_success (
          ap (λ (r : ErrorCode × Service). r.0) (initialize-opened (config_of cfg) d opened)
          ∙ ok) in
      simp (same, opened, ok')
        (
          refl,
          record {
            store = refl;
            providers = refl;
            dispatcher = refl;
            service =
                ap (λ (r : ErrorCode × Service). some r.1)
                  (initialize-opened (config_of cfg) d opened);
          },
        )

module _ (J : JsonLibrary) (st : Store) (L : IsLawful J) where
  -- The request ReadVin to an application whose service is initialized and reads that VIN.
  pub read_vin_request :
      (i : Inputs) (what params vin : Str) (s : Service) (a : Application)
      → IsOpened J st s a
      → Service.read_vin J st s ≡ vin
      → J.utf8 vin ≡ true
      → (answer : Option Str) × (b : Application) × (handle_request J i what
            (method_value MethodId.read_vin)
            params
            a
          ≡ some (answer, b))
        × Answers J L 0 ((codes "vin", text vin) ∷ []) answer
  unfolding Service.read_vin
  read_vin_request i what params vin s a opened there valid =
      let alive : IsAlive a = record {
        root = st;
        store = opened.store;
        providers = opened.providers;
        dispatcher = opened.dispatcher;
        service = s;
        held = opened.service;
      } in
      let (answered, _) = dispatch-read_vin J st L i what params s (rw there valid) in
      (
        _,
        _,
        handle_request-answered J i what params (method_value MethodId.read_vin) a alive,
        rw there at answered,
      )
