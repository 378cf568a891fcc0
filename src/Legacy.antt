-- ===== src/Legacy.antt =====
-- src/main_legacy.cpp: the older entry point, with its own signal handlers and run loop. What the
-- operating system and the frameworks answer are parameters; the requests that the server's
-- threads dispatch meanwhile are those of Service/Requests.antt.
pub mod Termination
use iov_vehicle_tbox_prov.Base.{
  ℕ, zero, suc, ◌+◌, if◌then◌else◌, Bool, true, false, Option, none, some, List, [], ◌∷◌, Str,
  str_eq, codes,
}
use iov_vehicle_tbox_prov.Errors.{ErrorCode, is_success}
use iov_vehicle_tbox_prov.Json.{JsonLibrary}
use iov_vehicle_tbox_prov.Store.{Disk}
use iov_vehicle_tbox_prov.Application.{
  Settings, IpcConfig, store_of, config_of, socket_path_of, ipc_config_of,
}
use iov_vehicle_tbox_prov.Service
use iov_vehicle_tbox_prov.Service.{new_service}
use iov_vehicle_tbox_prov.Service.Actions.{Service, LogEvent, info, error}

pub data Signal : Type 0 where
  sigint sigterm sighup sigpipe : Signal

pub data LogLevel : Type 0 where
  trace_level debug_level info_level warn_level error_level : LogLevel

-- The chain of tests on `common.log.level`; any other text leaves the default.
unfoldable pub log_level : Str → LogLevel
log_level text =
    if str_eq text (codes "trace")
    then trace_level
    else if str_eq text (codes "debug")
    then debug_level
    else if str_eq text (codes "info")
    then info_level
    else if str_eq text (codes "warn")
    then warn_level
    else if str_eq text (codes "error")
    then error_level
    else info_level

-- The signals that are handled, in the order in which they are installed.
abbrev pub shutdown_signals : List Signal
shutdown_signals = sigint ∷ sigterm ∷ sighup ∷ []

-- `sigaction` succeeds for every signal of a list.
abbrev installs : (Signal → Bool) → List Signal → Bool
installs sigaction [] = true
installs sigaction (s ∷ rest) = if sigaction s then installs sigaction rest else false

unfoldable pub install_signal_handlers : (Signal → Bool) → Bool
install_signal_handlers sigaction =
    if installs sigaction shutdown_signals then sigaction sigpipe else false

-- The process: its two globals, the parts that `main` owns, the disk and the log.
pub record Process : Type 0 where
  pub shutdown_requested : Bool
  pub received_signal : Option Signal
  pub service : Option Service
  pub dispatcher : Bool
  pub server : Bool
  pub disk : Disk
  -- the latest event first
  pub log : List LogEvent

abbrev pub new_process : Disk → Process
new_process d = record {
  shutdown_requested = false;
  received_signal = none;
  service = none;
  dispatcher = false;
  server = false;
  disk = d;
  log = [];
}

abbrev report : LogEvent → Process → Process
report e p = record p { log = e ∷ p.log }

-- A signal that arrives: SIGPIPE is ignored, the others run `signal_handler`.
unfoldable pub deliver : Signal → Process → Process
deliver sigpipe p = p
deliver s p = record p { received_signal = some s; shutdown_requested = true }

unfoldable pub deliver_all : List Signal → Process → Process
unfolding deliver
deliver_all [] p = p
deliver_all (s ∷ rest) p = deliver_all rest (deliver s p)

-- The run loop: `arrivals n` are the signals of the `n`-th sleep. `none` is a loop that has not
-- ended with that fuel.
unfoldable pub poll : ℕ → ℕ → (ℕ → List Signal) → Process → Option Process
unfolding deliver_all
poll zero n arrivals p = none
poll (suc fuel) n arrivals p =
    let later = poll fuel (n + 1) arrivals (deliver_all (arrivals n) p) in
    if p.shutdown_requested then some p else later

-- What the operating system and the frameworks answer.
pub record Platform : Type 0 where
  pub sigaction : Signal → Bool
  pub configuration : Option Settings
  pub init_log : LogLevel → Bool
  pub start_server : Str → IpcConfig → Bool
  pub arrivals : ℕ → List Signal

-- From the loop to the end.
abbrev pub finish : Option Process → Option (ℕ × Process)
finish none = none
finish (some p) = some (
  0,
  report (info "service" "prov.service.stopped")
      (record (report (info "service" "prov.service.shutting_down") p) {
        server = false;
        dispatcher = false;
        service = none;
      }),
)

-- From the started server on.
unfoldable pub run_loop : ℕ → Platform → Process → Option (ℕ × Process)
unfolding poll
run_loop fuel os p =
    finish (poll fuel 0 os.arrivals (report (info "service" "prov.service.ready") p))

-- From the initialized service on; the objects that a return destroys are gone.
unfoldable pub serve : ℕ → Platform → Settings → Service → Process → Option (ℕ × Process)
unfolding run_loop
serve fuel os cfg s p =
    if os.start_server (socket_path_of cfg) (ipc_config_of cfg)
    then run_loop fuel os (record p { service = some s; dispatcher = true; server = true })
    else some (1, report (error "service" "prov.service.ipc_start_failed") p)

module _ (J : JsonLibrary) where
  -- From the loaded configuration on.
  unfoldable pub configured : ℕ → Platform → Settings → Process → Option (ℕ × Process)
  unfolding log_level serve
  configured fuel os cfg p =
      let level = log_level (cfg.get_string (codes "common.log.level") (codes "info")) in
      let (result, s) = Service.initialize J (store_of cfg) (new_service (config_of cfg) p.disk) in
      let q = record (report (info "service" "prov.service.starting") p) {
        disk = s.storage.disk;
      } in
      if os.init_log level
      then if is_success result
        then serve fuel os cfg s q
        else some (1, report (error "service" "prov.service.initialization_failed") q)
      else some (1, p)

  unfoldable pub with_configuration :
      ℕ → Platform → Option Settings → Process → Option (ℕ × Process)
  unfolding configured
  with_configuration fuel os none p = some (1, p)
  with_configuration fuel os (some cfg) p = configured fuel os cfg p

  -- `main`; `none` is a run loop that has not ended with that fuel.
  unfoldable pub main : ℕ → Platform → Disk → Option (ℕ × Process)
  unfolding install_signal_handlers with_configuration
  main fuel os d =
      if install_signal_handlers os.sigaction
      then with_configuration fuel os os.configuration (new_process d)
      else some (1, new_process d)
