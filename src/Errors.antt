-- ===== src/Errors.antt =====
-- include/tbox/prov/errors.h and src/error_codes.cpp.
pub mod Names
use iov_vehicle_tbox_prov.Base.{ℕ, ◌==◌, if◌then◌else◌, Bool, true, false, String}

-- `enum class ErrorCode : uint32_t`; `unnamed n` is a value that no enumerator has.
pub data ErrorCode : Type 0 where
  success : ErrorCode
  security_access_not_granted invalid_vin_format vin_write_failed : ErrorCode
  readback_verification_failed vin_conflict_unauthorized config_write_failed : ErrorCode
  production_info_write_failed se_uid_read_failed se_missing_config_not_found : ErrorCode
  se_missing_production_fail_closed : ErrorCode
  internal_error storage_error ecu_uid_read_error invalid_state sn_unavailable : ErrorCode
  unnamed : ℕ → ErrorCode

unfoldable pub code_value : ErrorCode → ℕ
code_value success = 0
code_value security_access_not_granted = 1001
code_value invalid_vin_format = 1002
code_value vin_write_failed = 1003
code_value readback_verification_failed = 1004
code_value vin_conflict_unauthorized = 1005
code_value config_write_failed = 1006
code_value production_info_write_failed = 1007
code_value se_uid_read_failed = 1008
code_value se_missing_config_not_found = 1009
code_value se_missing_production_fail_closed = 1010
code_value internal_error = 9999
code_value storage_error = 9998
code_value ecu_uid_read_error = 9997
code_value invalid_state = 9996
code_value sn_unavailable = 9995
code_value (unnamed n) = n

-- `static_cast<ErrorCode>` of a 32-bit value.
unfoldable pub of_value : ℕ → ErrorCode
of_value n =
    if n == 0
    then success
    else if n == 1001
    then security_access_not_granted
    else if n == 1002
    then invalid_vin_format
    else if n == 1003
    then vin_write_failed
    else if n == 1004
    then readback_verification_failed
    else if n == 1005
    then vin_conflict_unauthorized
    else if n == 1006
    then config_write_failed
    else if n == 1007
    then production_info_write_failed
    else if n == 1008
    then se_uid_read_failed
    else if n == 1009
    then se_missing_config_not_found
    else if n == 1010
    then se_missing_production_fail_closed
    else if n == 9999
    then internal_error
    else if n == 9998
    then storage_error
    else if n == 9997
    then ecu_uid_read_error
    else if n == 9996
    then invalid_state
    else if n == 9995
    then sn_unavailable
    else unnamed n

-- `== ErrorCode::SUCCESS`
abbrev pub is_success : ErrorCode → Bool
is_success success = true
is_success _ = false

-- The lookup in `error_code_strings`.
unfoldable pub error_code_to_string : ErrorCode → String
error_code_to_string success = "SUCCESS"
error_code_to_string security_access_not_granted = "PROV-1001"
error_code_to_string invalid_vin_format = "PROV-1002"
error_code_to_string vin_write_failed = "PROV-1003"
error_code_to_string readback_verification_failed = "PROV-1004"
error_code_to_string vin_conflict_unauthorized = "PROV-1005"
error_code_to_string config_write_failed = "PROV-1006"
error_code_to_string production_info_write_failed = "PROV-1007"
error_code_to_string se_uid_read_failed = "PROV-1008"
error_code_to_string se_missing_config_not_found = "PROV-1009"
error_code_to_string se_missing_production_fail_closed = "PROV-1010"
error_code_to_string internal_error = "INTERNAL-9999"
error_code_to_string storage_error = "INTERNAL-9998"
error_code_to_string ecu_uid_read_error = "INTERNAL-9997"
error_code_to_string invalid_state = "INTERNAL-9996"
error_code_to_string sn_unavailable = "SN-UNAVAILABLE-9995"
error_code_to_string (unnamed n) = "UNKNOWN"

-- The lookup in `error_code_descriptions`.
unfoldable pub error_code_to_description : ErrorCode → String
error_code_to_description success = "操作成功"
error_code_to_description security_access_not_granted = "安全访问未解锁/鉴权失败"
error_code_to_description invalid_vin_format = "VIN格式非法"
error_code_to_description vin_write_failed = "VIN写入失败"
error_code_to_description readback_verification_failed = "回读校验不一致"
error_code_to_description vin_conflict_unauthorized = "已绑定且VIN冲突（未授权改写）"
error_code_to_description config_write_failed = "配置/变量编码写入失败"
error_code_to_description production_info_write_failed = "生产信息写入失败"
error_code_to_description se_uid_read_failed = "SE UID读取失败/超时（SE在位）"
error_code_to_description se_missing_config_not_found = "无SE且配置文件缺失/无对应UID"
error_code_to_description se_missing_production_fail_closed = "生产环境无SE，禁止配置文件兜底"
error_code_to_description internal_error = "内部错误"
error_code_to_description storage_error = "存储错误"
error_code_to_description ecu_uid_read_error = "ECU UID读取错误"
error_code_to_description invalid_state = "无效状态"
error_code_to_description sn_unavailable = "TBOX SN不可用（读取失败或配置缺失，不回退HSM UID）"
error_code_to_description (unnamed n) = "未知错误"
