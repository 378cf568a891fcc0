-- ===== src/Service/Success.antt =====
-- `write_vin` and `authorize_rewrite` of src/prov_service.cpp where they return SUCCESS.
use iov_vehicle_tbox_prov.Base.{
  ◌≡◌, ◌≢◌, ◌⊎◌, refl, sym, ap, ◌∙◌, Bool, true, false, Bool-cases, Option-cases, inl, inr, some,
  Str, str_eq, str_eq_iff, codes, arith,
}
use iov_vehicle_tbox_prov.Errors.{success, invalid_state}
use iov_vehicle_tbox_prov.Types.{VehicleBinding}
use iov_vehicle_tbox_prov.Vin
use iov_vehicle_tbox_prov.Json.{JsonLibrary}
use iov_vehicle_tbox_prov.Store.{Store}
use iov_vehicle_tbox_prov.Storage
use iov_vehicle_tbox_prov.Storage.Laws.{
  binding-cong, load-set_write_protection, protected-set_write_protection,
}
use iov_vehicle_tbox_prov.Providers.{UidReadResult}
use iov_vehicle_tbox_prov.Service.Actions.{
  Service, ServiceConfig, Action, on_failure, guard, when, ◌▸◌,
}
use iov_vehicle_tbox_prov.Service.Rules.{
  ▸-success, guard-success, Triple, Triple-▸, Triple-on_failure, Triple-guard,
}
use iov_vehicle_tbox_prov.Service.Frame.{
  SameFrame, SameFrame-refl, validate_vin_format-SameFrame, check_conflict-SameFrame,
  write_vin-SameFrame, authorize_rewrite-SameFrame,
}
use iov_vehicle_tbox_prov.Service.{
  Inputs, is_ready, is_running, validate_vin_format, verify_write, set_write_protection, bind_vin,
  execute_vin_binding_flow, write_vin, check_conflict, authorize_rewrite, read_vin,
}

-- A provider that fails says why.
abbrev pub IsHonest : UidReadResult → Type 0
IsHonest r = r.succeeded ≡ false → r.error_code ≢ success

module _ (J : JsonLibrary) (st : Store) where
  -- The storage holds a binding of that VIN.
  abbrev pub HasVin : Str → Service → Type 0
  HasVin vin s =
      (b : VehicleBinding) × (Storage.read_vehicle_binding J st s.storage ≡ some b) × (b.vin ≡ vin)

  verify_write-success :
      (vin : Str) (s : Service)
      → (verify_write J st vin s).0 ≡ success
      → HasVin vin (verify_write J st vin s).1
  unfolding verify_write on_failure
  verify_write-success vin s h = elim (Option-cases (Storage.read_vehicle_binding J st s.storage)) [
    | inl e ↦ absurd (ground (arith, h, e))
    | inr (b, e) ↦ elim (Bool-cases (str_eq b.vin vin)) [
      | inl same ↦ simp (e, same) (b, refl, (str_eq_iff b.vin vin).0 same)
      | inr other ↦ absurd (ground (arith, h, e, other))
    ]
  ]

  -- The protection is stored under another key.
  HasVin-set_write_protection :
      (vin : Str) (locked : Bool) (s : Service)
      → HasVin vin s
      → HasVin vin (set_write_protection J st locked s).1
  unfolding set_write_protection
  HasVin-set_write_protection vin locked s (b, e, v) = (
    b,
    binding-cong J st s.storage _
          (load-set_write_protection J st locked s.storage (codes "binding") refl)
        ∙ e,
    v,
  )

  set_write_protection-success :
      (s : Service)
      → (set_write_protection J st true s).0 ≡ success
      → (set_write_protection J st true s).1.storage.write_protected ≡ true
  unfolding set_write_protection
  set_write_protection-success s h = protected-set_write_protection J st true s.storage h

  -- What holds after a write that succeeded: the VIN is stored, and protected if that is asked for.
  abbrev pub IsWritten : Bool → Str → Service → Type 0
  IsWritten protect vin s = HasVin vin s × ((protect ≡ false) ⊎ (s.storage.write_protected ≡ true))

  abbrev Any : Service → Type 0
  Any s = Unit

  protect-Triple :
      (protect : Bool) (vin : Str)
      → Triple (HasVin vin) (when protect (set_write_protection J st true)) (IsWritten protect vin)
  unfolding when
  protect-Triple true vin = record {
    holds =
        λ s v h. (HasVin-set_write_protection vin true s v, inr (set_write_protection-success s h));
  }
  protect-Triple false vin = record { holds = λ s v h. (v, inl refl) }

  bind_vin-Triple :
      (p : Bool) (i : Inputs) (vin uid : Str)
      → Triple Any (bind_vin J st p i vin uid) (IsWritten p vin)
  unfolding bind_vin
  bind_vin-Triple p i vin uid =
      Triple-▸ _ _ (Triple-on_failure {Q = Any} _ _ (record { holds = λ s a h. tt })) (
        Triple-▸ _ _
          (Triple-on_failure _ _ (record { holds = λ s a h. verify_write-success vin s h }))
          (Triple-▸ _ _ (protect-Triple p vin) (record { holds = λ s w h. w })))

  flow-success :
      (i : Inputs) (vin : Str) (s : Service)
      → IsHonest i.uid
      → (execute_vin_binding_flow J st i vin s).0 ≡ success
      → IsWritten s.config.enable_write_protection vin (execute_vin_binding_flow J st i vin s).1
  unfolding execute_vin_binding_flow
  flow-success i vin s honest h = elim (Bool-cases i.uid.succeeded) [
    | inl e ↦ simp e (
        (bind_vin-Triple s.config.enable_write_protection i vin i.uid.uid).holds s tt (simp e at h))
    | inr e ↦ absurd (honest e (simp e at h))
  ]

  pub validate_vin_format-success :
      (vin : Str) (s : Service) → (validate_vin_format vin s).0 ≡ success → Vin.validate vin ≡ true
  unfolding validate_vin_format on_failure
  validate_vin_format-success vin s h = ground arith

  -- `validate_vin_format` and the conflict test leave the configuration as it is.
  module _ (i : Inputs) (vin : Str) (s₀ : Service) (honest : IsHonest i.uid) where
    abbrev Start : Service → Type 0
    Start s = SameFrame s₀ s

    -- What the theorem states of the state that a call leaves.
    abbrev Done : Service → Type 0
    Done s = IsWritten s₀.config.enable_write_protection vin s × (Vin.validate vin ≡ true)

    Checked : Service → Type 0
    Checked s = SameFrame s₀ s × (Vin.validate vin ≡ true)

    flow-Triple : Triple Checked (execute_vin_binding_flow J st i vin) Done
    unfolding Checked
    flow-Triple = record {
      holds = λ s (frame, valid) h.
          let (stored, protected) = flow-success i vin s honest h in
          (
            (
              stored,
              elim protected [
                | inl off ↦
                    inl (
                      sym (ap (λ (c : ServiceConfig). c.enable_write_protection) frame.config)
                      ∙ off)
                | inr locked ↦ inr locked
              ],
            ),
            valid,
          );
    }

    validate-Triple : Triple Start (validate_vin_format vin) Checked
    unfolding Checked
    validate-Triple = record {
      holds = λ s frame h. (
        (validate_vin_format-SameFrame J st s₀ vin).at s frame,
        validate_vin_format-success vin s h,
      );
    }

    check_conflict-Triple : Triple Checked (check_conflict J st vin) Checked
    unfolding Checked
    check_conflict-Triple = record {
      holds = λ s (frame, valid) h. ((check_conflict-SameFrame J st s₀ vin).at s frame, valid);
    }

    gate-Triple : (test : Service → Bool) → Triple Start (guard test invalid_state) Start
    gate-Triple test = Triple-guard test invalid_state (λ e. cc) (λ s frame _. frame)

    write_vin-Triple : Triple Start (write_vin J st i vin) Done
    unfolding write_vin
    write_vin-Triple =
        Triple-▸ _ _ (gate-Triple is_ready)
          (Triple-▸ _ _ (gate-Triple is_running) (Triple-▸ _ _ validate-Triple flow-Triple))

    authorize_rewrite-Triple : Triple Start (authorize_rewrite J st i vin) Done
    unfolding authorize_rewrite
    authorize_rewrite-Triple = Triple-▸ _ _ (gate-Triple is_ready) (
        Triple-▸ _ _ (gate-Triple is_running)
          (Triple-▸ _ _ validate-Triple (Triple-▸ _ _ check_conflict-Triple flow-Triple)))

  ready_first :
      (m : Action) (s : Service)
      → ((guard is_ready invalid_state ▸ m) s).0 ≡ success
      → s.initialized ≡ true
  unfolding is_ready
  ready_first m s h =
      (guard-success is_ready invalid_state s (λ e. cc)
        (▸-success (guard is_ready invalid_state) m s h).0).0

  read_vin-HasVin :
      (vin : Str) (s : Service) → s.initialized ≡ true → HasVin vin s → read_vin J st s ≡ vin
  unfolding read_vin
  read_vin-HasVin vin s ready (b, e, v) = simp (ready, e) v

  pub write_vin-HasVin :
      (i : Inputs) (vin : Str) (s : Service)
      → IsHonest i.uid
      → (write_vin J st i vin s).0 ≡ success
      → HasVin vin (write_vin J st i vin s).1
  write_vin-HasVin i vin s honest h =
      ((write_vin-Triple i vin s honest).holds s (SameFrame-refl s) h).0.0

  -- If `write_vin` returns SUCCESS then, whatever went wrong on the device meanwhile and whatever
  -- was stored before: the VIN is valid, `read_vin` returns it, and the storage is protected if
  -- write protection is enabled. The UID provider is one that fails with an error code.
  pub write_vin-success :
      (i : Inputs) (vin : Str) (s : Service)
      → IsHonest i.uid
      → (write_vin J st i vin s).0 ≡ success
      → (Vin.validate vin ≡ true)
        × (read_vin J st (write_vin J st i vin s).1 ≡ vin)
        × ((s.config.enable_write_protection ≡ false)
            ⊎ ((write_vin J st i vin s).1.storage.write_protected ≡ true))
  unfolding write_vin
  write_vin-success i vin s honest h =
      let (written, valid) = (write_vin-Triple i vin s honest).holds s (SameFrame-refl s) h in
      let ready = (write_vin-SameFrame J st s i vin).at s (SameFrame-refl s) in
      (valid, read_vin-HasVin vin _ (ready.initialized ∙ ready_first _ s h) written.0, written.1)

  -- If `authorize_rewrite` returns SUCCESS then, whatever went wrong on the device meanwhile and
  -- whatever was stored before: the VIN is valid, `read_vin` returns it, and the storage is
  -- protected if write protection is enabled. The UID provider is one that fails with an error
  -- code.
  pub authorize_rewrite-success :
      (i : Inputs) (vin : Str) (s : Service)
      → IsHonest i.uid
      → (authorize_rewrite J st i vin s).0 ≡ success
      → (Vin.validate vin ≡ true)
        × (read_vin J st (authorize_rewrite J st i vin s).1 ≡ vin)
        × ((s.config.enable_write_protection ≡ false)
            ⊎ ((authorize_rewrite J st i vin s).1.storage.write_protected ≡ true))
  unfolding authorize_rewrite
  authorize_rewrite-success i vin s honest h =
      let (written, valid) =
        (authorize_rewrite-Triple i vin s honest).holds s (SameFrame-refl s) h in
      let ready = (authorize_rewrite-SameFrame J st s i vin).at s (SameFrame-refl s) in
      (valid, read_vin-HasVin vin _ (ready.initialized ∙ ready_first _ s h) written.0, written.1)
