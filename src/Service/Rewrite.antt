-- ===== src/Service/Rewrite.antt =====
-- `authorize_rewrite` against `write_vin`, both of src/prov_service.cpp.
use iov_vehicle_tbox_prov.Base.{
  ◌≡◌, refl, ◌∙◌, ap, true, false, Bool-cases, inl, inr, Option, none, some, Str,
}
use iov_vehicle_tbox_prov.Errors.{ErrorCode, success, vin_write_failed}
use iov_vehicle_tbox_prov.Types.{VehicleBinding}
use iov_vehicle_tbox_prov.Vin
use iov_vehicle_tbox_prov.Json.{JsonLibrary, IsLawful}
use iov_vehicle_tbox_prov.Store.{Store}
use iov_vehicle_tbox_prov.Storage
use iov_vehicle_tbox_prov.Service.Actions.{Service, guard, on_failure, ◌▸◌}
use iov_vehicle_tbox_prov.Service.Frame.{SameFrame-refl, write_vin-SameFrame}
use iov_vehicle_tbox_prov.Service.Gates.{write_vin_protected}
use iov_vehicle_tbox_prov.Service.Completion.{IsCalm, final_binding, write_vin_completes}
use iov_vehicle_tbox_prov.Service.{
  Inputs, new_binding, validate_vin_format, check_conflict, write_vin, authorize_rewrite,
}

module _ (J : JsonLibrary) (st : Store) where
  check_conflict-unlocked :
      (vin : Str) (b : VehicleBinding) (s : Service)
      → Storage.read_vehicle_binding J st s.storage ≡ some b
      → b.locked ≡ false
      → check_conflict J st vin s ≡ (success, s)
  unfolding check_conflict
  check_conflict-unlocked vin b s stored unlocked = simp (stored, unlocked) refl

  check_conflict-new :
      (vin : Str) (s : Service)
      → Storage.read_vehicle_binding J st s.storage ≡ none
      → check_conflict J st vin s ≡ (success, s)
  unfolding check_conflict
  check_conflict-new vin s new = simp new refl

  rewrite_open :
      (i : Inputs) (vin : Str) (s : Service)
      → check_conflict J st vin s ≡ (success, s)
      → authorize_rewrite J st i vin s ≡ write_vin J st i vin s
  unfolding write_vin authorize_rewrite validate_vin_format guard on_failure ◌▸◌
  rewrite_open i vin s passes = elim (Bool-cases s.initialized) [
    | inr e ↦ simp e refl
    | inl ready ↦ elim (Bool-cases s.shutting_down) [
      | inl e ↦ simp (ready, e) refl
      | inr running ↦ elim (Bool-cases (Vin.validate vin)) [
        | inr e ↦ simp (ready, running, e) refl
        | inl valid ↦ simp (ready, running, valid, passes) refl
      ]
    ]
  ]

  -- Where the stored binding is not locked, `authorize_rewrite` does what `write_vin` does, result,
  -- storage and log, for every VIN.
  pub rewrite_is_write :
      (i : Inputs) (vin : Str) (b : VehicleBinding) (s : Service)
      → Storage.read_vehicle_binding J st s.storage ≡ some b
      → b.locked ≡ false
      → authorize_rewrite J st i vin s ≡ write_vin J st i vin s
  rewrite_is_write i vin b s stored unlocked =
      rewrite_open i vin s (check_conflict-unlocked vin b s stored unlocked)

  -- The same where no binding is stored.
  pub first_is_write :
      (i : Inputs) (vin : Str) (s : Service)
      → Storage.read_vehicle_binding J st s.storage ≡ none
      → authorize_rewrite J st i vin s ≡ write_vin J st i vin s
  first_is_write i vin s new = rewrite_open i vin s (check_conflict-new vin s new)

module _ (J : JsonLibrary) (st : Store) (L : IsLawful J) where
  pub locked-new_binding :
      (i : Inputs) (vin uid : Str) (existing : Option VehicleBinding)
      → (new_binding i vin uid existing).locked ≡ false
  unfolding new_binding
  locked-new_binding i vin uid none = refl
  locked-new_binding i vin uid (some b) = refl

  -- Let the service be initialized and not shutting down, write protection enabled, the storage
  -- unprotected with no fault ahead, both VINs valid, and both UIDs read, the first in UTF-8.
  -- After `write_vin` of the first VIN, `authorize_rewrite` of the second returns
  -- VIN_WRITE_FAILED, whichever VINs they are.
  pub rewrite_refused :
      (i j : Inputs) (vin new_vin : Str) (s : Service)
      → s.initialized ≡ true
      → s.shutting_down ≡ false
      → s.config.enable_write_protection ≡ true
      → IsCalm J st L s
      → Vin.validate vin ≡ true
      → i.uid.succeeded ≡ true
      → J.utf8 i.uid.uid ≡ true
      → Vin.validate new_vin ≡ true
      → j.uid.succeeded ≡ true
      → (authorize_rewrite J st j new_vin (write_vin J st i vin s).1).0 ≡ vin_write_failed
  rewrite_refused i j vin new_vin s ready running enabled calm valid uid text new_valid new_uid =
      let (_, done) = write_vin_completes J st L i vin s ready running calm valid uid text in
      let existing = Storage.read_vehicle_binding J st s.storage in
      let frame = (write_vin-SameFrame J st s i vin).at s (SameFrame-refl s) in
      let t = (write_vin J st i vin s).1 in
      ap (λ (r : ErrorCode × Service). r.0)
        (rewrite_is_write J st j new_vin (final_binding J st L i vin i.uid.uid existing) t
          done.there (locked-new_binding i vin i.uid.uid existing))
      ∙ write_vin_protected J st j new_vin t (frame.initialized ∙ ready)
          (frame.shutting_down ∙ running) (done.protection ∙ enabled) new_valid new_uid
