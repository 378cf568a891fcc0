-- ===== src/ConfigCheck/Spec.antt =====
-- What `check_config` of src/prov_cli.cpp asks of a file, as a description of the document.
use iov_vehicle_tbox_prov.Base.{
  ◌≡◌, ◌↔◌, ◌⊎◌, refl, sym, ◌∙◌, true, Bool-cases, Option-cases, inl, inr, Option, none, some, List,
  [], ◌∷◌, Str, codes, arith,
}
use mathlib.Core.Path.{subst}
use iov_vehicle_tbox_prov.Yaml.{YamlLibrary}
use iov_vehicle_tbox_prov.ConfigCheck.{
  Report, Line, passed, member_path, socket_path, check_common, check_socket, has_test_field,
  check_test_fields, check_field, storage_outcome, check_storage, check_document, check_config,
}

module _ (Y : YamlLibrary) where
  -- A field that is not there, or a scalar.
  abbrev pub IsField : Y.Node → Str → Type 0
  IsField n k =
      (Y.member n k ≡ some none)
      ⊎ ((m : Y.Node) × (Y.member n k ≡ some (some m)) × (Y.is_scalar m ≡ true))

  -- The two fields of a `storage`.
  abbrev pub HasFields : Y.Node → Type 0
  HasFields n = IsField n (codes "enable_write_protection") × IsField n (codes "max_retry_count")

  abbrev pub IsStorage : Y.Node → Type 0
  IsStorage config =
      (Y.member config (codes "storage") ≡ some none)
      ⊎ ((n : Y.Node) × (Y.member config (codes "storage") ≡ some (some n)) × HasFields n)

  -- A mapping without `common` and without the two fields for tests, with a scalar for the path of
  -- the socket, and scalars, if anything, for the two fields of `storage`. The schema of the
  -- repository, config/schema/prov.schema.yaml, asks for more.
  pub record IsAccepted (config : Y.Node) : Type 0 where
    pub mapping : Y.is_map config ≡ true
    pub no_common : Y.member config (codes "common") ≡ some none
    pub socket :
        (n : Y.Node) × (member_path Y config socket_path ≡ some (some n)) × (Y.is_scalar n ≡ true)
    pub no_uid : member_path Y config (codes "prov" ∷ codes "uid" ∷ []) ≡ some none
    pub no_sn : member_path Y config (codes "prov" ∷ codes "sn" ∷ []) ≡ some none
    pub storage : IsStorage config

  -- A report of success.
  abbrev pub IsPass : Option Report → Type 0
  IsPass r = (lines : List Line) × (r ≡ some (0, lines))

  module _ (next : Option Report) where
    check_common_iff :
        (config : Y.Node)
        → IsPass (check_common Y config next)
          ↔ ((Y.member config (codes "common") ≡ some none) × IsPass next)
    unfolding check_common
    check_common_iff config = elim (Option-cases (Y.member config (codes "common"))) [
      | inl e ↦ ground (arith, e)
      | inr (none, e) ↦ ground (arith, e)
      | inr (some n, e) ↦ ground (arith, e)
    ]

    check_socket_iff :
        (config : Y.Node)
        → IsPass (check_socket Y config next) ↔ (
            ((n : Y.Node) × (member_path Y config socket_path ≡ some (some n))
              × (Y.is_scalar n ≡ true))
            × IsPass next)
    unfolding check_socket
    check_socket_iff config = elim (Option-cases (member_path Y config socket_path)) [
      | inl e ↦ ground (arith, e)
      | inr (none, e) ↦ ground (arith, e)
      | inr (some n, e) ↦ elim (Bool-cases (Y.is_scalar n)) [
        | inl scalar ↦
            let same : check_socket Y config next ≡ next = simp (e, scalar) refl in
            (
              λ (lines, h). ((n, e, scalar), (lines, sym same ∙ h)),
              λ (s, (lines, h)). (lines, same ∙ h),
            )
        | inr other ↦ ground (arith, e, other)
      ]
    ]

    check_test_fields_iff :
        (config : Y.Node)
        → IsPass (check_test_fields Y config next) ↔ (
            (member_path Y config (codes "prov" ∷ codes "uid" ∷ []) ≡ some none)
            × (member_path Y config (codes "prov" ∷ codes "sn" ∷ []) ≡ some none)
            × IsPass next)
    unfolding check_test_fields has_test_field
    check_test_fields_iff config =
        elim (Option-cases (member_path Y config (codes "prov" ∷ codes "uid" ∷ []))) [
          | inl e ↦ ground (arith, e)
          | inr (some n, e) ↦ ground (arith, e)
          | inr (none, e) ↦
              elim (Option-cases (member_path Y config (codes "prov" ∷ codes "sn" ∷ []))) [
                | inl f ↦ ground (arith, e, f)
                | inr (some n, f) ↦ ground (arith, e, f)
                | inr (none, f) ↦ ground (arith, e, f)
              ]
        ]

    check_field_iff :
        (n : Y.Node) (k reason : Str)
        → IsPass (check_field Y n k reason next) ↔ (IsField n k × IsPass next)
    unfolding check_field
    check_field_iff n k reason = elim (Option-cases (Y.member n k)) [
      | inl e ↦ ground (arith, e)
      | inr (none, e) ↦ ground (arith, e)
      | inr (some m, e) ↦ elim (Bool-cases (Y.is_scalar m)) [
        | inl scalar ↦
            let same : check_field Y n k reason next ≡ next = simp (e, scalar) refl in
            (
              λ (lines, h). (inr (m, e, scalar), (lines, sym same ∙ h)),
              λ (s, (lines, h)). (lines, same ∙ h),
            )
        | inr other ↦ ground (arith, e, other)
      ]
    ]

  storage_outcome_iff :
      (n : Y.Node) (next : Option Report)
      → IsPass (storage_outcome Y (some n) next) ↔ (HasFields n × IsPass next)
  unfolding storage_outcome
  storage_outcome_iff n next = (
    λ h.
        let (first, rest) = (check_field_iff _ n (codes "enable_write_protection") _).0 h in
        let (second, pass) = (check_field_iff next n (codes "max_retry_count") _).0 rest in
        ((first, second), pass),
    λ ((first, second), pass).
        (check_field_iff _ n (codes "enable_write_protection") _).1
          (first, (check_field_iff next n (codes "max_retry_count") _).1 (second, pass)),
  )

  check_storage_iff :
      (config : Y.Node) (next : Option Report)
      → IsPass (check_storage Y config next) ↔ (IsStorage config × IsPass next)
  unfolding check_storage
  check_storage_iff config next = elim (Option-cases (Y.member config (codes "storage"))) [
    | inl e ↦ ground (arith, e)
    | inr (none, e) ↦ ground (arith, e)
    | inr (some n, e) ↦
        let same : check_storage Y config next ≡ storage_outcome Y (some n) next = simp e refl in
        (
          λ (lines, h).
              let (fields, pass) = (storage_outcome_iff n next).0 (lines, sym same ∙ h) in
              (inr (n, e, fields), pass),
          λ (s, pass). elim s [
            | inl absent ↦ absurd (ground (arith, e, absent))
            | inr (m, f, fields) ↦
                let q : m ≡ n = ground (arith, e, f) in
                let (lines, h) = (storage_outcome_iff n next).1 (subst HasFields q fields, pass) in
                (lines, same ∙ h)
          ],
        )
  ]

  check_document_iff :
      (config : Y.Node) (path : Str) → IsPass (check_document Y config path) ↔ IsAccepted config
  unfolding check_document
  check_document_iff config path = elim (Bool-cases (Y.is_map config)) [
    | inr other ↦ (λ h. absurd (ground (arith, other, h)), λ d. absurd (cc (other, d.mapping)))
    | inl mapping ↦
        let same : check_document Y config path
            ≡ check_common Y config (
                check_socket Y config
                  (check_test_fields Y config (check_storage Y config (some (passed path))))) =
          simp mapping refl in
        (
          λ (lines, h).
              let (no_common, h₁) = (check_common_iff _ config).0 (lines, sym same ∙ h) in
              let (socket, h₂) = (check_socket_iff _ config).0 h₁ in
              let (no_uid, no_sn, h₃) = (check_test_fields_iff _ config).0 h₂ in
              let (storage, _) = (check_storage_iff config _).0 h₃ in
              record {
                mapping = mapping;
                no_common = no_common;
                socket = socket;
                no_uid = no_uid;
                no_sn = no_sn;
                storage = storage;
              },
          λ d.
              let (lines, h) = (check_common_iff _ config).1 (
                d.no_common,
                (check_socket_iff _ config).1 (
                  d.socket,
                  (check_test_fields_iff _ config).1
                      (d.no_uid, d.no_sn, (check_storage_iff config _).1 (d.storage, (_, refl))),
                ),
              ) in
              (lines, same ∙ h),
        )
  ]

  -- `check_config` returns 0 exactly for a file that is loaded and whose document is a mapping
  -- with a scalar at `prov.ipc.socket_path`, nothing at `common`, `prov.uid` and `prov.sn`, and a
  -- scalar or nothing at the two fields of `storage`; it asks nothing else.
  pub check_config_iff :
      (what path : Str)
      → IsPass (check_config Y what path)
        ↔ ((config : Y.Node) × (Y.load_file path ≡ some config) × IsAccepted config)
  unfolding check_config
  check_config_iff what path = elim (Option-cases (Y.load_file path)) [
    | inl e ↦ ground (arith, e)
    | inr (config, e) ↦
        let same : check_config Y what path ≡ check_document Y config path = simp e refl in
        (
          λ (lines, h). (config, e, (check_document_iff config path).0 (lines, sym same ∙ h)),
          λ (other, f, d).
              let q : other ≡ config = ground (arith, e, f) in
              let (lines, h) = (check_document_iff config path).1 (subst IsAccepted q d) in
              (lines, same ∙ h),
        )
  ]
