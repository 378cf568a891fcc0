-- ===== src/Types.antt =====
-- include/tbox/prov/types.h: the data that the service keeps. A time point is a number of
-- nanoseconds since the epoch, as the clock of libstdc++ counts them.
use iov_vehicle_tbox_prov.Base.{ℕ, ◌*◌, ◌/◌, ◌%◌, ◌==◌, if◌then◌else◌, Bool, false, List, [], Str}

-- `enum class ProvisionState : uint8_t`; `unnamed n` is a byte that no enumerator has.
pub data ProvisionState : Type 0 where
  none vin_written bound failed : ProvisionState
  unnamed : ℕ → ProvisionState

unfoldable pub state_value : ProvisionState → ℕ
state_value ProvisionState.none = 0
state_value vin_written = 1
state_value bound = 2
state_value failed = 3
state_value (unnamed n) = n

-- `static_cast<ProvisionState>`
unfoldable pub state_of_value : ℕ → ProvisionState
state_of_value m =
    let n = m % 256 in
    if n == 0
    then ProvisionState.none
    else if n == 1
    then vin_written
    else if n == 2
    then bound
    else if n == 3
    then failed
    else unnamed n

pub record VehicleBinding : Type 0 where
  pub vin : Str
  pub ecu_uid : Str
  pub sn : Str
  pub state : ProvisionState
  pub locked : Bool
  pub bound_at : ℕ
  pub last_error : Str
  pub retry_count : ℕ
  pub rewrite_count : ℕ
  pub last_rewrite_at : ℕ

-- `VehicleBinding binding;`
abbrev pub default_binding : VehicleBinding
default_binding = record {
  vin = [];
  ecu_uid = [];
  sn = [];
  state = ProvisionState.none;
  locked = false;
  bound_at = 0;
  last_error = [];
  retry_count = 0;
  rewrite_count = 0;
  last_rewrite_at = 0;
}

pub record VehicleConfig : Type 0 where
  pub variant_coding : List ℕ
  pub written_at : ℕ
  pub verified : Bool

pub record ProductionInfo : Type 0 where
  pub production_date : Str
  pub batch_num : Str
  pub station_id : Str
  pub written_at : ℕ

abbrev nanoseconds : ℕ
nanoseconds = 1_000_000_000

-- `system_clock::to_time_t` and `from_time_t`
abbrev pub to_time_t : ℕ → ℕ
to_time_t t = t / nanoseconds

abbrev pub from_time_t : ℕ → ℕ
from_time_t s = s * nanoseconds
