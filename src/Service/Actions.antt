-- ===== src/Service/Actions.antt =====
-- Methods of the service as actions: a new state with an error code, SUCCESS to go on.
use iov_vehicle_tbox_prov.Base.{ℕ, if◌then◌else◌, Bool, true, false, List, ◌∷◌, String}
use iov_vehicle_tbox_prov.Errors.{ErrorCode, success, is_success}
use iov_vehicle_tbox_prov.Storage.{Storage}

-- `ProvServiceConfig`
pub record ServiceConfig : Type 0 where
  pub enable_write_protection : Bool
  pub max_retry_count : ℕ

pub data Level : Type 0 where
  debug_level info_level warn_level error_level : Level

-- An event sent to the logging framework: its logger, level and name. Fields are left out.
pub record LogEvent : Type 0 where
  pub logger : String
  pub level : Level
  pub event : String

abbrev pub debug : String → String → LogEvent
debug logger event = record { logger = logger; level = debug_level; event = event }

abbrev pub info : String → String → LogEvent
info logger event = record { logger = logger; level = info_level; event = event }

abbrev pub warn : String → String → LogEvent
warn logger event = record { logger = logger; level = warn_level; event = event }

abbrev pub error : String → String → LogEvent
error logger event = record { logger = logger; level = error_level; event = event }

-- A `ProvService`. `storage_` is null until `initialize`, and no method reads it before.
pub record Service : Type 0 where
  pub config : ServiceConfig
  pub initialized : Bool
  pub storage : Storage
  pub shutting_down : Bool
  -- the latest event first
  pub log : List LogEvent

abbrev pub Action : Type 0
Action = Service → ErrorCode × Service

abbrev pub logged : LogEvent → Service → Service
logged e s = record s { log = e ∷ s.log }

abbrev pub returns : ErrorCode → Action
returns c s = (c, s)

infixr 10 ◌▸◌
-- `result = m(); if (result != SUCCESS) return result; n();`
unfoldable pub ◌▸◌ : Action → Action → Action
◌▸◌ m n s = let (c, t) = m s in let next = n t in if is_success c then next else (c, t)

-- Log an event if `m` fails.
unfoldable pub on_failure : LogEvent → Action → Action
on_failure e m s = let (c, t) = m s in if is_success c then (c, t) else (c, logged e t)

-- `if (!test) return code;`
unfoldable pub guard : (Service → Bool) → ErrorCode → Action
guard test code s = if test s then (success, s) else (code, s)

unfoldable pub when : Bool → Action → Action
when true m s = m s
when false m s = (success, s)
