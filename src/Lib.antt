-- ===== src/Lib.antt =====
-- The provisioning service of a TBOX: it writes the VIN of a vehicle, binds it to the UID of the
-- control unit, keeps configuration and production data, and locks its storage afterwards.
--
-- The parts, in the order in which a request passes through them:
--   Application: src/prov_application.cpp, which assembles the parts below and takes them down.
--     Application/System is the program while it ends: the steps of `cleanup`, with requests of the
--     server's threads between any two of them. A request is one step, since the service holds its
--     mutex throughout; the first step of `cleanup` takes no mutex, and Application/Quiescence and
--     Service/Overtaken have the request that is in flight over it. Application/Lives is the disk
--     under one run of the program after another, each of which may be killed at any moment.
--   Client: src/prov_client.cpp and include/tbox/prov/client.h, the library that sends requests.
--     Client/Session is a sequence of its calls over a service that they change.
--   Dispatcher: src/prov_ipc_dispatcher.cpp and include/ipc_protocol.h, from a request in JSON to
--     a call of the service and back. `dispatch` is ProvIpcDispatcher::dispatch.
--   Service: src/prov_service.cpp and include/prov_service.h, the business kernel. A method is a
--     function from the state to an error code and the next state (Service/Actions); a method holds
--     the mutex throughout, so concurrent callers are a sequence of calls (Service/Requests), but for
--     `begin_shutdown`, which only sets a flag and logs (Service/Overtaken).
--   Vin: src/vin_validator.cpp.
--   Providers: src/ecu_uid.cpp, src/se_uid_provider.cpp, src/tbox_sn_provider.cpp, the sources of
--     the UID and of the serial number.
--   Storage: src/protected_storage.cpp, the three records and the write protection over the store.
--   Store: include/framework_store.h and src/framework_store.cpp, texts by key in files.
--   ConfigCheck and Cli: src/prov_cli.cpp, the check of a configuration file and the other commands.
--     `main` of Cli is its `main`, from the arguments to the exit status and the lines written.
--   Legacy: src/main_legacy.cpp, the older entry point with its signal handlers and run loop.
--   Masking and LogAdapter: what log events carry, of src/prov_service.cpp, src/prov_context.cpp
--     and src/prov_log_adapter.cpp.
--   Errors and Types: include/tbox/prov/errors.h, src/error_codes.cpp, include/tbox/prov/types.h.
-- Three parts have a specification beside them: Service/Device is the service as a device that takes
-- a VIN once, Store/Dictionary the store as a dictionary, and `exposed` of Client/Session what the
-- dispatcher exposes of the service to a client.
-- Json is the interface of nlohmann::json, a parameter of the model with its documented behaviour
-- as laws (`IsLawful`); Json/Example.antt is a library that meets them. Yaml is
-- the interface of yaml-cpp, of which no law is needed. Base holds what all share.
-- Tests and its children run the program at concrete inputs.
--
-- State. A `Service` holds its configuration, its storage, two flags and the events that it logged;
-- the storage holds the flag of the write protection and the disk; the disk holds files,
-- directories, and the faults that the coming calls of the file system meet, past the end of which
-- nothing goes wrong. What a call obtains from outside, the clock and the two providers' results,
-- is its argument `Inputs`.
--
-- Texts are lists of bytes. A time is a number of nanoseconds since 1970; times before are left
-- out. Counters wrap at 2 ^ 32 as uint32_t does. An exception is `none` where it leaves a function.
-- The enumerations have a constructor for the values that no enumerator names. Character tests are
-- those of the C locale. Every loop runs over a list or a fixed count but the run
-- loop of Legacy, which has fuel for its tests: two more than the sleeps before the one in which the
-- signal arrives are enough. Numbers in decimal and hexadecimal have fuel for as many digits as they
-- count, which is read back in Base/Decimal and Masking/Laws.
--
-- Not modelled: the fields of log events and the durations in them, but for the functions that
-- mask identifiers; what the parts other than Cli print to the console, so that a report of Cli
-- has only the lines of src/prov_cli.cpp itself; the logging, configuration and IPC frameworks,
-- which are not part of the repository (a configuration snapshot, a call of the IPC framework and
-- the start of a server are parameters); src/main.cpp, which only runs the application of the
-- framework; the multiplier of the back-off, a double that goes to the IPC framework; the requests
-- that arrive while the loop of Legacy runs, which are those of Service/Requests;
-- include/constants.h, which nothing uses; faults of reading a file that exists, and exceptions of
-- std::filesystem::exists, but for Application/Lifecycle, where the initialization of the service
-- may have any result.
pub mod Base
pub mod Vin
pub mod Errors
pub mod Types
pub mod Json
pub mod Store
pub mod Storage
pub mod Providers
pub mod Service
pub mod Dispatcher
pub mod Client
pub mod Application
pub mod Yaml
pub mod ConfigCheck
pub mod Cli
pub mod Legacy
pub mod Masking
pub mod LogAdapter
mod Tests
