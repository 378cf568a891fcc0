-- ===== src/Application/Started.antt =====
-- What src/prov_application.cpp starts over a disk, and what the requests keep of it.
use iov_vehicle_tbox_prov.Base.{
  ◌≡◌, refl, Bool, true, false, Bool-cases, inl, inr, Option, none, some, Str, arith,
}
use iov_vehicle_tbox_prov.Errors.{is_success}
use iov_vehicle_tbox_prov.Json.{JsonLibrary, IsLawful}
use iov_vehicle_tbox_prov.Vin
use iov_vehicle_tbox_prov.Store
use iov_vehicle_tbox_prov.Store.{Store, Disk, Event}
use iov_vehicle_tbox_prov.Store.Whole.{initialize-IsWhole}
use iov_vehicle_tbox_prov.Storage.{Storage}
use iov_vehicle_tbox_prov.Storage.Parts.{Origins, IsFrom, same_files-IsFrom}
use iov_vehicle_tbox_prov.Service
use iov_vehicle_tbox_prov.Service.{new_service, begin_shutdown}
use iov_vehicle_tbox_prov.Service.Actions.{Service, ServiceConfig}
use iov_vehicle_tbox_prov.Service.Requests.{
  Request, initialize_request, begin_shutdown_request, write_vin_request, authorize_rewrite_request,
  write_vehicle_config_request, write_production_info_request, read_binding_request, serve,
}
use iov_vehicle_tbox_prov.Service.Origins.{serve-IsFrom}
use iov_vehicle_tbox_prov.Dispatcher.Effects.{IsKept, is_sent}
use iov_vehicle_tbox_prov.Application.{
  Application, Settings, store_of, config_of, with_settings, new_application, initialize, open_ipc,
  rollback_initialization, service_opened, release_ipc, release_service, release_providers,
  release_store, reset_service, providers_ready, service_ready,
}
use iov_vehicle_tbox_prov.Application.Held.{only_service, IsHeld}

-- The storage over a disk, before it is initialized.
abbrev pub opened_over : Disk → Storage
opened_over d = record { write_protected = false; disk = d }

-- Without a configuration, or with one of that store.
abbrev pub OverStore : Store → Option Settings → Type 0
OverStore st none = Unit
OverStore st (some cfg) = store_of cfg ≡ st

module _ (J : JsonLibrary) (st : Store) (L : IsLawful J) (O : Origins) where
  abbrev pub DiskFrom : Disk → Type 0
  DiskFrom d = IsFrom J st L O (opened_over d)

  abbrev pub ServiceFrom : Service → Type 0
  ServiceFrom s = IsFrom J st L O s.storage

  pub over : (s : Service) → ServiceFrom s → DiskFrom s.storage.disk
  over s h = same_files-IsFrom J st L O s.storage _ refl h.whole h

  pub down : (s : Service) → ServiceFrom s → ServiceFrom (begin_shutdown s)
  unfolding begin_shutdown
  down s h = h

module _ (J : JsonLibrary) (st : Store) (L : IsLawful J) (O : Origins)
    (vins : (v : Str) → Vin.validate v ≡ true → O.Vin v) where
  abbrev Held : Application → Type 0
  Held a = IsHeld (λ u. u ≡ st) (DiskFrom J st L O) (ServiceFrom J st L O) a

  sent_keeps :
      (r : Request) (s : Service)
      → is_sent r ≡ true
      → ServiceFrom J st L O s
      → ServiceFrom J st L O (serve J st r s)
  sent_keeps initialize_request s sent h = serve-IsFrom J st L O initialize_request s h tt
  sent_keeps begin_shutdown_request s sent h = absurd (ground (arith, sent))
  sent_keeps (write_vin_request i vin) s sent h =
      serve-IsFrom J st L O (write_vin_request i vin) s h (vins vin)
  sent_keeps (authorize_rewrite_request i vin) s sent h =
      serve-IsFrom J st L O (authorize_rewrite_request i vin) s h (vins vin)
  sent_keeps (write_vehicle_config_request i bytes) s sent h = absurd (ground (arith, sent))
  sent_keeps (write_production_info_request i p) s sent h = absurd (ground (arith, sent))
  sent_keeps (read_binding_request i) s sent h =
      serve-IsFrom J st L O (read_binding_request i) s h tt

  pub kept : (u : Store) → u ≡ st → IsKept J u (ServiceFrom J st L O)
  kept u same = rw same (record { log = λ e s h. h; call = sent_keeps })

  -- The parts of a running application before its server starts, and what a failure leaves.
  open_ipc-Held :
      (started : Bool) (s : Service) (a : Application)
      → ServiceFrom J st L O s
      → a.store ≡ some st
      → a.stage ≡ service_ready
      → a.service ≡ some s
      → Held (open_ipc started a).1
  unfolding open_ipc rollback_initialization release_ipc release_service release_providers
      release_store reset_service
  open_ipc-Held true s a h opened stage there = record {
    store = λ u e. ground (arith, opened, e);
    disk = rw there (over J st L O s h);
    service = λ t e. only_service (ServiceFrom J st L O) a.service s t there e h;
  }
  open_ipc-Held false s a h opened stage there =
      simp (stage, there)
        (record {
          store = λ u e. absurd (ground (arith, e));
          disk = over J st L O s h;
          service = λ t e. absurd (ground (arith, e));
        })

  service_opened-Held :
      (started : Bool) (config : ServiceConfig) (a : Application)
      → DiskFrom J st L O a.disk
      → a.store ≡ some st
      → a.stage ≡ providers_ready
      → Held (service_opened started (Service.initialize J st (new_service config a.disk)) a).1
  unfolding serve rollback_initialization release_ipc release_service release_providers
      release_store reset_service
  service_opened-Held started config a h opened stage =
      let s = (Service.initialize J st (new_service config a.disk)).1 in
      let from = serve-IsFrom J st L O initialize_request (new_service config a.disk) h tt in
      elim (Bool-cases (is_success (Service.initialize J st (new_service config a.disk)).0)) [
        | inl ok ↦ simp ok (
            open_ipc-Held started s (record a { service = some s; stage = service_ready }) from
              opened refl refl)
        | inr failed ↦
            simp (failed, stage)
              (record {
                store = λ u e. absurd (ground (arith, e));
                disk = over J st L O s from;
                service = λ t e. only_service (ServiceFrom J st L O) (some s) s t refl e from;
              })
      ]

  pub initialize-Held :
      (cfg : Option Settings) (started : Bool) (d : Disk)
      → OverStore st cfg
      → DiskFrom J st L O d
      → Held (initialize J started cfg (new_application d)).1
  unfolding initialize
  initialize-Held none started d same h = record {
    store = λ u e. absurd (ground (arith, e));
    disk = h;
    service = λ s e. absurd (ground (arith, e));
  }
  initialize-Held (some cfg) started d same h =
      let (files, whole) = initialize-IsWhole st d h.whole in
      let from : DiskFrom J st L O (Store.initialize st d).1 =
        same_files-IsFrom J st L O (record { write_protected = false; disk = d }) _ files whole h in
      elim (Bool-cases (Store.initialize st d).0) [
        | inl opened ↦
            simp (same, opened)
              (service_opened-Held started (config_of cfg)
                (record (with_settings cfg (new_application d)) {
                  store = some st;
                  disk = (Store.initialize st d).1;
                  providers = true;
                  stage = providers_ready;
                })
                from refl refl)
        | inr failed ↦
            simp (same, failed)
              (record {
                store = λ u e. absurd (ground (arith, e));
                disk = from;
                service = λ s e. absurd (ground (arith, e));
              })
      ]
