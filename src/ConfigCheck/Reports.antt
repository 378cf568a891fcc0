-- ===== src/ConfigCheck/Reports.antt =====
-- What `check_config` of src/prov_cli.cpp reports.
use iov_vehicle_tbox_prov.Base.{
  ◌≡◌, ◌⊎◌, refl, not, if◌then◌else◌, Bool, true, false, Option-cases, inl, inr, Option, none, some,
  List, [], ◌∷◌, Str, codes,
}
use iov_vehicle_tbox_prov.Json.{◌>>=◌}
use iov_vehicle_tbox_prov.Yaml.{YamlLibrary}
use iov_vehicle_tbox_prov.ConfigCheck.{
  Line, out, err, Report, passed, fail, is_defined, socket_outcome, scalar_outcome, check_common,
  check_socket, check_test_fields, check_field, storage_outcome, check_storage, check_document,
  check_config,
}

-- A line was written to the standard error output.
abbrev has_error : List Line → Bool
has_error [] = false
has_error (out s ∷ lines) = has_error lines
has_error (err s ∷ lines) = true

-- Status 0 with no line of the report on the standard error output, or status 1 with one on it.
unfoldable pub IsReport : Report → Type 0
IsReport r = ((r.0 ≡ 0) × (has_error r.1 ≡ false)) ⊎ ((r.0 ≡ 1) × (has_error r.1 ≡ true))

pub refused-IsReport : (reason : Str) → IsReport (1, err reason ∷ [])
unfolding IsReport
refused-IsReport reason = inr (refl, refl)

-- An exception, or a report.
unfoldable pub IsResult : Option Report → Type 0
IsResult r = (r ≡ none) ⊎ ((q : Report) × (r ≡ some q) × IsReport q)

fail-IsResult : (reason : Str) → IsResult (fail reason)
unfolding IsResult IsReport
fail-IsResult reason = inr (_, refl, inr (refl, refl))

passed-IsResult : (path : Str) → IsResult (some (passed path))
unfolding IsResult IsReport
passed-IsResult path = inr (_, refl, inl (refl, refl))

-- An answer of the library with a continuation of each kind.
answered-IsResult {ℓ} :
    {A : Type ℓ} (o : Option A) (next : A → Option Report)
    → ((a : A) → IsResult (next a))
    → IsResult (o >>= next)
unfolding IsResult
answered-IsResult none next h = inl refl
answered-IsResult (some a) next h = h a

either-IsResult :
    (b : Bool) (x y : Option Report) → IsResult x → IsResult y → IsResult (if b then x else y)
either-IsResult true x y p q = p
either-IsResult false x y p q = q

module _ (Y : YamlLibrary) where
  module _ (next : Option Report) (h : IsResult next) where
    check_common-IsResult : (config : Y.Node) → IsResult (check_common Y config next)
    unfolding check_common
    check_common-IsResult config =
        answered-IsResult (Y.member config (codes "common")) _
          (λ m. either-IsResult (is_defined m) _ _ (fail-IsResult _) h)

    socket_outcome-IsResult : (n : Option Y.Node) → IsResult (socket_outcome Y n next)
    socket_outcome-IsResult none = fail-IsResult _
    socket_outcome-IsResult (some n) = either-IsResult (not (Y.is_scalar n)) _ _ (fail-IsResult _) h

    check_socket-IsResult : (config : Y.Node) → IsResult (check_socket Y config next)
    unfolding check_socket
    check_socket-IsResult config = answered-IsResult _ _ socket_outcome-IsResult

    check_test_fields-IsResult : (config : Y.Node) → IsResult (check_test_fields Y config next)
    unfolding check_test_fields
    check_test_fields-IsResult config =
        answered-IsResult _ _ (λ b. either-IsResult b _ _ (fail-IsResult _) h)

    scalar_outcome-IsResult :
        (n : Option Y.Node) (reason : Str) → IsResult (scalar_outcome Y n reason next)
    scalar_outcome-IsResult none reason = h
    scalar_outcome-IsResult (some n) reason =
        either-IsResult (not (Y.is_scalar n)) _ _ (fail-IsResult _) h

    check_field-IsResult : (n : Y.Node) (k reason : Str) → IsResult (check_field Y n k reason next)
    unfolding check_field
    check_field-IsResult n k reason = answered-IsResult _ _ (λ m. scalar_outcome-IsResult m reason)

  storage_outcome-IsResult :
      (n : Option Y.Node) (next : Option Report)
      → IsResult next
      → IsResult (storage_outcome Y n next)
  unfolding storage_outcome
  storage_outcome-IsResult none next h = h
  storage_outcome-IsResult (some n) next h =
      check_field-IsResult _ (check_field-IsResult next h n _ _) n _ _

  check_document-IsResult : (config : Y.Node) (path : Str) → IsResult (check_document Y config path)
  unfolding check_document check_storage
  check_document-IsResult config path =
      let ok = passed-IsResult path in
      let storage : IsResult (check_storage Y config (some (passed path))) =
        answered-IsResult (Y.member config (codes "storage")) _
          (λ n. storage_outcome-IsResult n _ ok) in
      either-IsResult (not (Y.is_map config)) _ _ (fail-IsResult _) (
        check_common-IsResult _
          (check_socket-IsResult _ (check_test_fields-IsResult _ storage config) config) config)

  pub check_config-IsResult : (what path : Str) → IsResult (check_config Y what path)
  unfolding check_config
  check_config-IsResult what path = elim (Option-cases (Y.load_file path)) [
    | inl e ↦ simp e (fail-IsResult _)
    | inr (config, e) ↦ simp e (check_document-IsResult config path)
  ]
