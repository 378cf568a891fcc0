-- ===== src/Providers.antt =====
-- src/ecu_uid.cpp, src/se_uid_provider.cpp, src/tbox_sn_provider.cpp and their headers: where the
-- ECU UID and the TBOX SN come from. The configuration framework is a parameter.
pub mod Isolation
use iov_vehicle_tbox_prov.Base.{
  ℕ, leb, not, ◌&&◌, if◌then◌else◌, Bool, true, false, Option, none, some, [], Str, String, codes,
  length, is_empty,
}
use iov_vehicle_tbox_prov.Errors.{
  ErrorCode, success, se_uid_read_failed, se_missing_config_not_found,
  se_missing_production_fail_closed,
}

pub record UidReadResult : Type 0 where
  pub uid : Str
  pub succeeded : Bool
  pub error_code : ErrorCode
  pub error_message : String

-- The two constructors that take arguments.
abbrev pub uid_found : Str → UidReadResult
uid_found uid = record { uid = uid; succeeded = true; error_code = success; error_message = "" }

abbrev pub uid_missing : ErrorCode → String → UidReadResult
uid_missing code message = record {
  uid = [];
  succeeded = false;
  error_code = code;
  error_message = message;
}

pub record SnReadResult : Type 0 where
  pub sn : Str
  pub succeeded : Bool
  pub error_message : String
  pub sn_source : String
  pub environment : String
  pub failure_stage : String

abbrev pub sn_found : Str → String → String → SnReadResult
sn_found sn source env = record {
  sn = sn;
  succeeded = true;
  error_message = "";
  sn_source = source;
  environment = env;
  failure_stage = "";
}

abbrev pub sn_missing : String → String → String → String → SnReadResult
sn_missing source env stage error = record {
  sn = [];
  succeeded = false;
  error_message = error;
  sn_source = source;
  environment = env;
  failure_stage = stage;
}

-- A snapshot of the configuration framework.
pub record Snapshot : Type 0 where
  pub has : Str → Bool
  pub get_string : Str → Str

-- `EcuUid::is_se_hardware_present` and `read_from_se`
abbrev pub is_se_hardware_present : Bool
is_se_hardware_present = false

abbrev pub read_from_se : Str
read_from_se = codes "SE987654321"

-- A member of the snapshot that is there and not empty.
abbrev pub configured : Str → Snapshot → Option Str
configured key cfg =
    if not (cfg.has key)
    then none
    else if is_empty (cfg.get_string key)
    then none
    else some (cfg.get_string key)

-- `EcuUid::read_uid_from_config`, from `CONFIG_SNAPSHOT`
unfoldable pub read_uid_from_config : Option Snapshot → Option Str
read_uid_from_config none = none
read_uid_from_config (some cfg) = configured (codes "ecu.uid") cfg

-- The branch that both providers take where the secure element is present.
abbrev read_se : UidReadResult
read_se =
    if not (is_empty read_from_se)
    then uid_found read_from_se
    else uid_missing se_uid_read_failed "SE UID读取失败/超时"

-- `SeHardwareUidProvider::readUidDetailed`
unfoldable pub hardware_uid : UidReadResult
hardware_uid =
    if is_se_hardware_present
    then read_se
    else uid_missing se_missing_production_fail_closed "生产环境无SE，禁止配置文件兜底"

-- `ConfigSeUidProvider::readUidDetailed`
unfoldable pub config_uid : Option Snapshot → UidReadResult
unfolding read_uid_from_config
config_uid snapshot =
    if is_se_hardware_present then read_se else elim (read_uid_from_config snapshot) [
      | some uid ↦ uid_found uid
      | none ↦ uid_missing se_missing_config_not_found "无SE且配置缺失/无对应UID"
    ]

-- `createSeUidProvider`, and its `readUidDetailed`: whether `TEST_ENVIRONMENT` is defined is the
-- first argument. `EcuUid::read_uid_detailed` is the same.
unfoldable pub read_uid_detailed : Bool → Option Snapshot → UidReadResult
unfolding hardware_uid config_uid
read_uid_detailed test_environment snapshot =
    if test_environment then config_uid snapshot else hardware_uid

-- `EcuUid::read_uid`
unfoldable pub read_uid : Bool → Option Snapshot → Str
unfolding read_uid_detailed
read_uid test_environment snapshot =
    let result = read_uid_detailed test_environment snapshot in
    if result.succeeded then result.uid else []

-- `EcuUid::validate`
unfoldable pub validate : Str → Bool
validate uid = not (is_empty uid) && leb 8 (length uid) && leb (length uid) 32

-- `PlatformTboxSnProvider::readSn`
unfoldable pub platform_sn : SnReadResult
platform_sn = sn_missing "platform" "production" "read_platform" "平台 SN 权威来源不可用（生产桩实现）"

config_sn_from : Option Snapshot → SnReadResult
config_sn_from none = sn_missing "config" "test" "read_config" "配置快照不可用"
config_sn_from (some cfg) =
    if not (cfg.has (codes "prov.sn"))
    then sn_missing "config" "test" "missing" "prov.sn 缺失"
    else if is_empty (cfg.get_string (codes "prov.sn"))
    then sn_missing "config" "test" "empty" "prov.sn 为空串"
    else sn_found (cfg.get_string (codes "prov.sn")) "config" "test"

-- `ConfigTboxSnProvider::readSn`
unfoldable pub config_sn : Bool → Option Snapshot → SnReadResult
unfolding config_sn_from
config_sn test_environment snapshot =
    if test_environment
    then config_sn_from snapshot
    else sn_missing "config" "production" "disabled" "生产构建禁用配置来源 SN"

-- `createTboxSnProvider`, and its `readSn`
unfoldable pub read_sn : Bool → Option Snapshot → SnReadResult
unfolding config_sn platform_sn
read_sn test_environment snapshot =
    if test_environment then config_sn test_environment snapshot else platform_sn
