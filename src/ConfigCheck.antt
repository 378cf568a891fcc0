-- ===== src/ConfigCheck.antt =====
-- `check_config` of src/prov_cli.cpp: the checks of a configuration file.
pub mod Spec
pub mod Reports
use iov_vehicle_tbox_prov.Base.{
  ℕ, not, if◌then◌else◌, Bool, true, false, Option, none, some, List, [], ◌∷◌, ◌++◌, Str, codes,
}
use iov_vehicle_tbox_prov.Json.{◌>>=◌}
use iov_vehicle_tbox_prov.Yaml.{YamlLibrary}

-- A line that is written to the standard output or to the standard error output.
pub data Line : Type 0 where
  out err : Str → Line

-- An exit status with the lines that src/prov_cli.cpp itself wrote, in their order.
abbrev pub Report : Type 0
Report = ℕ × List Line

abbrev pub fail : Str → Option Report
fail reason = some (1, err (codes "FAIL: " ++ reason) ∷ [])

-- A node in a condition.
abbrev pub is_defined {ℓ} : {A : Type ℓ} → Option A → Bool
is_defined none = false
is_defined (some n) = true

abbrev pub socket_path : List Str
socket_path = codes "prov" ∷ codes "ipc" ∷ codes "socket_path" ∷ []

abbrev pub passed : Str → Report
passed path = (0, out (codes "PASS: " ++ path) ∷ [])

module _ (Y : YamlLibrary) where
  -- `node["a"]["b"]…` in a chain of `||` that stops at the first node that is not defined.
  unfoldable pub member_path : Y.Node → List Str → Option (Option Y.Node)
  member_path n [] = some (some n)
  member_path n (k ∷ ks) = do
    m ← Y.member n k
    elim m [ none ↦ some none | some n' ↦ member_path n' ks ]

  -- No top-level `common`.
  unfoldable pub check_common : Y.Node → Option Report → Option Report
  check_common config next = do
    common ← Y.member config (codes "common")
    if is_defined common
        then fail (
            codes "forbidden top-level key 'common' present (owned by BUILD /etc/tbox/common.yaml)")
        else next

  abbrev pub socket_outcome : Option Y.Node → Option Report → Option Report
  socket_outcome none next = fail (codes "missing required field 'prov.ipc.socket_path'")
  socket_outcome (some n) next =
      if not (Y.is_scalar n) then fail (codes "'prov.ipc.socket_path' must be a string") else next

  -- The required `prov.ipc.socket_path`.
  unfoldable pub check_socket : Y.Node → Option Report → Option Report
  unfolding member_path
  check_socket config next = do n ← member_path config socket_path; socket_outcome n next

  -- `config["prov"]["uid"] || config["prov"]["sn"]`
  unfoldable pub has_test_field : Y.Node → Option Bool
  unfolding member_path
  has_test_field config = do
    uid ← member_path config (codes "prov" ∷ codes "uid" ∷ [])
    let rest = do sn ← member_path config (codes "prov" ∷ codes "sn" ∷ []); some (is_defined sn)
    if is_defined uid then some true else rest

  -- No `prov.uid` and no `prov.sn`.
  unfoldable pub check_test_fields : Y.Node → Option Report → Option Report
  unfolding has_test_field
  check_test_fields config next = do
    found ← has_test_field config
    if found
        then fail (
            codes
              "test-only field 'prov.uid'/'prov.sn' present; must not appear in production conf.d/prov.yaml")
        else next

  abbrev pub scalar_outcome : Option Y.Node → Str → Option Report → Option Report
  scalar_outcome none reason next = next
  scalar_outcome (some n) reason next = if not (Y.is_scalar n) then fail reason else next

  -- An optional field of `storage` that has to be a scalar.
  unfoldable pub check_field : Y.Node → Str → Str → Option Report → Option Report
  check_field storage key reason next = do
    field ← Y.member storage key
    scalar_outcome field reason next

  unfoldable pub storage_outcome : Option Y.Node → Option Report → Option Report
  unfolding check_field
  storage_outcome none next = next
  storage_outcome (some storage) next =
      check_field storage (codes "enable_write_protection")
        (codes "'storage.enable_write_protection' must be a boolean")
        (check_field storage (codes "max_retry_count")
          (codes "'storage.max_retry_count' must be an integer") next)

  unfoldable pub check_storage : Y.Node → Option Report → Option Report
  unfolding storage_outcome
  check_storage config next = do
    storage ← Y.member config (codes "storage")
    storage_outcome storage next

  -- What is asked of a document; `none` is an exception, which ends the program.
  unfoldable pub check_document : Y.Node → Str → Option Report
  unfolding check_common check_socket check_test_fields check_storage
  check_document config path =
      if not (Y.is_map config)
      then fail (codes "root node is not a mapping")
      else check_common config (
          check_socket config
            (check_test_fields config (check_storage config (some (passed path)))))

  abbrev load_outcome : Str → Str → Option Y.Node → Option Report
  load_outcome what path none = fail (codes "cannot parse " ++ (path ++ (codes ": " ++ what)))
  load_outcome what path (some config) = check_document config path

  -- `check_config`; `what` is the text of the exception of `LoadFile`.
  unfoldable pub check_config : Str → Str → Option Report
  check_config what path = load_outcome what path (Y.load_file path)
