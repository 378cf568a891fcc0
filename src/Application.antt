-- ===== src/Application.antt =====
-- src/prov_application.cpp and include/prov_application.h: the composition root, as which of its
-- parts exist. The configuration snapshot and the start of the IPC server are parameters.
pub mod Lifecycle
pub mod System
pub mod Lifetimes
pub mod Held
pub mod Quiescence
pub mod Reopened
pub mod Written
pub mod Restart
pub mod Started
pub mod Lives
use iov_vehicle_tbox_prov.Base.{
  ℕ, ℤ, pos, to_uint32, if◌then◌else◌, Bool, true, false, Option, none, some, List, [], ◌∷◌, Str,
  codes,
}
use iov_vehicle_tbox_prov.Errors.{ErrorCode, is_success}
use iov_vehicle_tbox_prov.Json.{JsonLibrary}
use iov_vehicle_tbox_prov.Store
use iov_vehicle_tbox_prov.Store.{Store, Disk, new_store}
use iov_vehicle_tbox_prov.Service
use iov_vehicle_tbox_prov.Service.{new_service, begin_shutdown}
use iov_vehicle_tbox_prov.Service.Actions.{Service, ServiceConfig, LogEvent, info, error}

-- `InitStage`
pub data InitStage : Type 0 where
  not_started store_opened providers_ready service_ready ipc_started : InitStage

-- The typed readings of a configuration snapshot, each with its default.
pub record Settings : Type 0 where
  pub get_string : Str → Str → Str
  pub get_int : Str → ℤ → ℤ
  pub get_bool : Str → Bool → Bool

-- `static_cast<uint32_t>(cfg->getInt(key, fallback))`
abbrev pub count_of : Settings → Str → ℕ → ℕ
count_of cfg key fallback = to_uint32 (cfg.get_int key (pos fallback))

-- `IpcConfig` of the IPC framework, without the multiplier of the back-off, which is a `double`.
pub record IpcConfig : Type 0 where
  pub max_frame_bytes : ℕ
  pub receive_timeout_ms : ℕ
  pub connect_timeout_ms : ℕ
  pub listen_backlog : ℤ
  pub initial_backoff_ms : ℕ
  pub max_backoff_ms : ℕ

abbrev pub ipc_config_of : Settings → IpcConfig
ipc_config_of cfg = record {
  max_frame_bytes = count_of cfg (codes "common.ipc.max_frame_bytes") 10_485_760;
  receive_timeout_ms = count_of cfg (codes "common.ipc.receive_timeout_ms") 60_000;
  connect_timeout_ms = count_of cfg (codes "common.ipc.connect_timeout_ms") 3_000;
  listen_backlog = cfg.get_int (codes "common.ipc.listen_backlog") (pos 5);
  initial_backoff_ms = count_of cfg (codes "common.ipc.reconnect.initial_backoff_ms") 100;
  max_backoff_ms = count_of cfg (codes "common.ipc.reconnect.max_backoff_ms") 5_000;
}

abbrev pub socket_path_of : Settings → Str
socket_path_of cfg = cfg.get_string (codes "prov.ipc.socket_path") (codes "/tmp/tbox-prov.sock")

-- What `initialize` makes of them: the store and the configuration of the service.
abbrev pub store_of : Settings → Store
store_of cfg =
    new_store (codes "prov") (cfg.get_string (codes "common.store.root") (codes "/var/tbox"))

abbrev pub config_of : Settings → ServiceConfig
config_of cfg = record {
  enable_write_protection = cfg.get_bool (codes "storage.enable_write_protection") true;
  max_retry_count = count_of cfg (codes "storage.max_retry_count") 3;
}

-- A `ProvApplication`: a pointer is a flag, or the object where that has a state. The service works
-- on the disk while it exists.
pub record Application : Type 0 where
  pub stage : InitStage
  pub store : Option Store
  pub providers : Bool
  pub service : Option Service
  pub dispatcher : Bool
  pub server : Bool
  pub socket_path : Str
  pub ipc_config : Option IpcConfig
  pub disk : Disk
  -- the latest event first
  pub log : List LogEvent

-- The constructor.
abbrev pub new_application : Disk → Application
new_application d = record {
  stage = not_started;
  store = none;
  providers = false;
  service = none;
  dispatcher = false;
  server = false;
  socket_path = [];
  ipc_config = none;
  disk = d;
  log = [];
}

abbrev report : LogEvent → Application → Application
report e a = record a { log = e ∷ a.log }

-- The settings that are kept for the server.
abbrev pub with_settings : Settings → Application → Application
with_settings cfg a = record a {
  socket_path = socket_path_of cfg;
  ipc_config = some (ipc_config_of cfg);
}

-- `service_.reset()`: the disk stays as the service left it.
abbrev disk_after : Option Service → Disk → Disk
disk_after none d = d
disk_after (some s) d = s.storage.disk

unfoldable pub reset_service : Application → Application
reset_service a = record a { service = none; disk = disk_after a.service a.disk }

-- The four blocks of `rollbackInitialization`.
unfoldable pub release_ipc : InitStage → Application → Application
release_ipc ipc_started a = record a { server = false; dispatcher = false; stage = service_ready }
release_ipc _ a = a

unfoldable pub release_service : InitStage → Application → Application
unfolding reset_service
release_service service_ready a = record (reset_service a) { stage = providers_ready }
release_service _ a = a

unfoldable pub release_providers : InitStage → Application → Application
release_providers providers_ready a = record a { providers = false; stage = store_opened }
release_providers _ a = a

unfoldable pub release_store : InitStage → Application → Application
release_store store_opened a = record a { store = none; stage = not_started }
release_store _ a = a

unfoldable pub rollback_initialization : Application → Application
unfolding release_ipc release_service release_providers release_store
rollback_initialization a =
    let b = release_ipc a.stage a in
    let c = release_service b.stage b in
    let d = release_providers c.stage c in release_store d.stage d

-- The end of `initialize`: the dispatcher and the server, which starts or does not.
unfoldable pub open_ipc : Bool → Application → Bool × Application
unfolding rollback_initialization
open_ipc started a =
    if started
    then (
      true,
      report (info "ipc" "prov.ipc.started")
          (record a { dispatcher = true; server = true; stage = ipc_started }),
    )
    else (
      false,
      rollback_initialization (
          report (error "service" "prov.application.ipc_start_failed")
            (record a { dispatcher = false; server = false })),
    )

-- The service over an open store, as its initialization gives it, and what follows.
abbrev pub service_opened : Bool → ErrorCode × Service → Application → Bool × Application
service_opened started (result, s) a =
    let b = record a { service = some s } in
    if is_success result then open_ipc started (record b { stage = service_ready }) else (
      false,
      rollback_initialization (report (error "service" "prov.application.service_init_failed") b),
    )

-- `initialize` from the snapshot on, `none` being that there is none, over an initialization of the
-- service, which gives a result and the service.
abbrev pub initialize_by :
    (Store → ServiceConfig → Disk → ErrorCode × Service)
    → Bool
    → Option Settings
    → Application
    → Bool × Application
initialize_by start started none a =
    (false, report (error "service" "prov.application.config_unavailable") a)
initialize_by start started (some cfg) unread =
    let a = with_settings cfg unread in
    let st = store_of cfg in
    let (opened, d) = Store.initialize st a.disk in
    if opened
    then service_opened started (start st (config_of cfg) d)
        (record a { store = some st; disk = d; providers = true; stage = providers_ready })
    else (
      false,
      report (error "service" "prov.application.store_init_failed")
          (record a { store = none; disk = d }),
    )

-- With the initialization of ProvService.
unfoldable pub initialize : JsonLibrary → Bool → Option Settings → Application → Bool × Application
initialize J = initialize_by (λ st config d. Service.initialize J st (new_service config d))

unfoldable pub execute : Application → ℕ × Application
execute a = (0, report (info "service" "prov.service.ready") a)

-- `getServiceName`, and the signals that end the program or are ignored.
abbrev service_name : Str
service_name = codes "prov"

data Signal : Type 0 where
  sigint sigterm sighup sigpipe : Signal

abbrev graceful_signals : List Signal
graceful_signals = sigint ∷ sigterm ∷ sighup ∷ []

abbrev ignored_signals : List Signal
ignored_signals = sigpipe ∷ []

abbrev quiesced : Option Service → Option Service
quiesced none = none
quiesced (some s) = some (begin_shutdown s)

-- The six steps of `cleanup`.
pub data Step : Type 0 where
  quiesce stop_server drop_dispatcher drop_service drop_providers drop_store : Step

unfoldable pub perform : Step → Application → Application
unfolding reset_service
perform quiesce a = record a { service = quiesced a.service }
perform stop_server a = record a { server = false }
perform drop_dispatcher a = record a { dispatcher = false }
perform drop_service a = reset_service a
perform drop_providers a = record a { providers = false }
perform drop_store a = record a { store = none; stage = not_started }

abbrev pub cleanup_steps : List Step
cleanup_steps =
    quiesce ∷ stop_server ∷ drop_dispatcher ∷ drop_service ∷ drop_providers ∷ drop_store ∷ []

unfoldable pub perform_all : List Step → Application → Application
perform_all [] a = a
perform_all (step ∷ rest) a = perform_all rest (perform step a)

unfoldable pub cleanup : Application → Application
unfolding perform_all perform
cleanup = perform_all cleanup_steps
