-- ===== src/LogAdapter.antt =====
-- src/prov_log_adapter.cpp: the loggers of the service, and whether the framework was initialized.
use iov_vehicle_tbox_prov.Base.{if◌then◌else◌, Bool, true, String, Str}

-- What is asked of the logging framework: the name of a service, and whether that succeeds.
abbrev pub LogFramework : Type 0
LogFramework = Str → Bool

-- `ProvLogAdapter::init`: its result, and `s_initialized` after it.
unfoldable pub init : LogFramework → Str → Bool → Bool × Bool
init framework service initialized =
    (framework service, if framework service then true else initialized)

-- The names of the loggers, which an event carries.
abbrev pub service : String
service = "service"

abbrev pub vin : String
vin = "vin"

abbrev pub binding : String
binding = "binding"

abbrev pub rewrite : String
rewrite = "rewrite"

abbrev pub vehicle_config : String
vehicle_config = "vehicle_config"

abbrev pub production : String
production = "production"

abbrev pub ipc : String
ipc = "ipc"
