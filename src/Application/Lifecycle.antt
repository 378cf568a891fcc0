-- ===== src/Application/Lifecycle.antt =====
-- `initialize` and `cleanup` of src/prov_application.cpp.
use iov_vehicle_tbox_prov.Base.{
  ◌≡◌, ◌⊎◌, inl, inr, refl, Bool, true, false, Bool-cases, Option, none, some,
}
use iov_vehicle_tbox_prov.Errors.{ErrorCode, is_success}
use iov_vehicle_tbox_prov.Json.{JsonLibrary}
use iov_vehicle_tbox_prov.Store
use iov_vehicle_tbox_prov.Store.{Store, Disk, new_store}
use iov_vehicle_tbox_prov.Service
use iov_vehicle_tbox_prov.Service.{new_service}
use iov_vehicle_tbox_prov.Service.Actions.{Service, ServiceConfig}
use iov_vehicle_tbox_prov.Application.{
  Application, Settings, with_settings, store_of, config_of, InitStage, not_started, ipc_started,
  providers_ready, new_application, rollback_initialization, release_ipc, release_service,
  release_providers, release_store, reset_service, open_ipc, service_opened, initialize_by, cleanup,
}

-- No part is left.
pub record IsReleased (a : Application) : Type 0 where
  pub stage : a.stage ≡ not_started
  pub store : a.store ≡ none
  pub providers : a.providers ≡ false
  pub dispatcher : a.dispatcher ≡ false
  pub server : a.server ≡ false
  pub service : a.service ≡ none

-- Every part is there, and the service is ready and accepts writes.
pub record IsServing (a : Application) : Type 0 where
  pub stage : a.stage ≡ ipc_started
  pub root : Store
  pub store : a.store ≡ some root
  pub providers : a.providers ≡ true
  pub dispatcher : a.dispatcher ≡ true
  pub server : a.server ≡ true
  pub service : Service
  pub held : a.service ≡ some service
  pub ready : service.initialized ≡ true
  pub running : service.shutting_down ≡ false

-- After `cleanup` no part is left, whatever there was before, and a second `cleanup` changes
-- nothing.
pub cleanup_releases :
    (a : Application) → IsReleased (cleanup a) × (cleanup (cleanup a) ≡ cleanup a)
unfolding cleanup reset_service
cleanup_releases a = (
  record {
    stage = refl;
    store = refl;
    providers = refl;
    dispatcher = refl;
    server = refl;
    service = refl;
  },
  refl,
)

-- Where the server does not start, all is released.
rollback_service-IsReleased :
    (a : Application)
    → a.stage ≡ InitStage.service_ready
    → a.dispatcher ≡ false
    → a.server ≡ false
    → IsReleased (rollback_initialization a)
unfolding rollback_initialization release_ipc release_service release_providers release_store
    reset_service
rollback_service-IsReleased a stage dispatcher server = simp stage (record {
  stage = refl;
  store = refl;
  providers = refl;
  dispatcher = dispatcher;
  server = server;
  service = refl;
})

-- The service is left, in an application without the store and the providers that it refers to.
pub record LeavesService (s : Service) (a : Application) : Type 0 where
  pub stage : a.stage ≡ not_started
  pub store : a.store ≡ none
  pub providers : a.providers ≡ false
  pub dispatcher : a.dispatcher ≡ false
  pub server : a.server ≡ false
  pub service : a.service ≡ some s

-- The result of an initialization: nothing left and false; all there and true, the server having
-- started; or, for a service that fails to initialize, the service left and false.
Outcome : Service → Bool → Bool → Bool × Application → Type 0
Outcome s succeeded started (ok, a) =
    ((ok ≡ false) × IsReleased a)
    ⊎ (((ok ≡ true) × (started ≡ true) × IsServing a)
        ⊎ ((ok ≡ false) × (succeeded ≡ false) × LeavesService s a))

open_ipc-Outcome :
    (started : Bool) (st : Store) (a : Application) (s : Service)
    → a.stage ≡ InitStage.service_ready
    → a.store ≡ some st
    → a.providers ≡ true
    → a.service ≡ some s
    → s.initialized ≡ true
    → s.shutting_down ≡ false
    → Outcome s true started (open_ipc started a)
unfolding Outcome open_ipc reset_service
open_ipc-Outcome true st a s stage store providers held ready running = inr (
    inl (
      refl,
      refl,
      record {
        stage = refl;
        root = st;
        store = store;
        providers = providers;
        dispatcher = refl;
        server = refl;
        service = s;
        held = held;
        ready = ready;
        running = running;
      },
    ))
open_ipc-Outcome false st a s stage store providers held ready running =
    inl (refl, rollback_service-IsReleased _ stage refl refl)

service_opened-Outcome :
    (started : Bool) (result : ErrorCode) (s : Service) (st : Store) (a : Application)
    → (is_success result ≡ true → (s.initialized ≡ true) × (s.shutting_down ≡ false))
    → a.stage ≡ providers_ready
    → a.store ≡ some st
    → a.providers ≡ true
    → a.dispatcher ≡ false
    → a.server ≡ false
    → Outcome s (is_success result) started (service_opened started (result, s) a)
unfolding Outcome rollback_initialization release_ipc release_service release_providers
    release_store
service_opened-Outcome started result s st a ready stage store providers dispatcher server =
    elim (Bool-cases (is_success result)) [
      | inl ok ↦
          let (initialized, running) = ready ok in
          simp ok (
            open_ipc-Outcome started st
              (record a { service = some s; stage = InitStage.service_ready }) s refl store
              providers refl initialized running)
      | inr failed ↦
          simp (failed, stage)
            (inr (
              inr (
                refl,
                refl,
                record {
                  stage = refl;
                  store = refl;
                  providers = refl;
                  dispatcher = dispatcher;
                  server = server;
                  service = refl;
                },
              )))
    ]

-- An application of which nothing is there.
empty-IsReleased :
    (a : Application)
    → a.stage ≡ not_started
    → a.store ≡ none
    → a.providers ≡ false
    → a.dispatcher ≡ false
    → a.server ≡ false
    → a.service ≡ none
    → IsReleased a
empty-IsReleased a stage store providers dispatcher server service = record {
  stage = stage;
  store = store;
  providers = providers;
  dispatcher = dispatcher;
  server = server;
  service = service;
}

module _ (start : Store → ServiceConfig → Disk → ErrorCode × Service)
    (ready : (st : Store) (config : ServiceConfig) (d : Disk)
      → is_success (start st config d).0 ≡ true
      → ((start st config d).1.initialized ≡ true)
        × ((start st config d).1.shutting_down ≡ false)) where
  -- Let the initialization of the service give any result, and a service that is initialized and
  -- not shutting down where that is SUCCESS. Then the initialization of a new application has one of
  -- three results. It returns false and no part is left. It returns true, the server has started,
  -- every part is there and the service accepts writes. Or the store opened and the service failed:
  -- it returns false and leaves that service, without the store and the providers that it refers to.
  pub initialize_outcomes :
      (started : Bool) (cfg : Option Settings) (d : Disk)
      → (((initialize_by start started cfg (new_application d)).0 ≡ false)
          × IsReleased (initialize_by start started cfg (new_application d)).1)
        ⊎ ((((initialize_by start started cfg (new_application d)).0 ≡ true)
              × (started ≡ true)
              × IsServing (initialize_by start started cfg (new_application d)).1)
            ⊎ (((initialize_by start started cfg (new_application d)).0 ≡ false)
                × ((c : Settings) × (cfg ≡ some c)
                    × ((Store.initialize (store_of c) d).0 ≡ true)
                    × (is_success
                          (start (store_of c) (config_of c) (Store.initialize (store_of c) d).1).0
                        ≡ false)
                    × LeavesService
                        (start (store_of c) (config_of c) (Store.initialize (store_of c) d).1).1
                        (initialize_by start started cfg (new_application d)).1)))
  unfolding Outcome
  initialize_outcomes started none d = inl (refl, empty-IsReleased _ refl refl refl refl refl refl)
  initialize_outcomes started (some cfg) d =
      let st = store_of cfg in
      let e = (Store.initialize st d).1 in
      elim (Bool-cases (Store.initialize st d).0) [
        | inl opened ↦
            simp opened
              (elim (service_opened-Outcome started (start st (config_of cfg) e).0
                (start st (config_of cfg) e).1 st
                (record (with_settings cfg (new_application d)) {
                  stage = providers_ready;
                  store = some st;
                  providers = true;
                  disk = e;
                })
                (ready st (config_of cfg) e) refl refl refl refl refl) [
                  | inl released ↦ inl released
                  | inr (inl serving) ↦ inr (inl serving)
                  | inr (inr (off, failed, left)) ↦
                      inr (inr (off, (cfg, refl, opened, failed, left)))
                ])
        | inr failed ↦ simp failed (inl (refl, empty-IsReleased _ refl refl refl refl refl refl))
      ]

module _ (J : JsonLibrary) where
  -- The initialization of ProvService is one of those.
  new_service-ready :
      (st : Store) (config : ServiceConfig) (d : Disk)
      → is_success (Service.initialize J st (new_service config d)).0 ≡ true
      → ((Service.initialize J st (new_service config d)).1.initialized ≡ true)
        × ((Service.initialize J st (new_service config d)).1.shutting_down ≡ false)
  unfolding Service.initialize
  new_service-ready st config d ok = (ok, refl)
