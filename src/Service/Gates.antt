-- ===== src/Service/Gates.antt =====
-- The writes of src/prov_service.cpp while the service shuts down or the storage is protected.
use iov_vehicle_tbox_prov.Base.{
  ◌≡◌, refl, ap, ◌∙◌, Bool, true, false, not, ◌&&◌, Bool-cases, inl, inr, Option, none, some, List,
  ℕ, Str, str_eq,
}
use iov_vehicle_tbox_prov.Errors.{
  ErrorCode, security_access_not_granted, vin_write_failed, invalid_state,
}
use iov_vehicle_tbox_prov.Types.{VehicleBinding, ProductionInfo}
use iov_vehicle_tbox_prov.Vin
use iov_vehicle_tbox_prov.Json.{JsonLibrary}
use iov_vehicle_tbox_prov.Store.{Store}
use iov_vehicle_tbox_prov.Storage
use iov_vehicle_tbox_prov.Storage.{Storage}
use iov_vehicle_tbox_prov.Storage.Laws.{binding_write_protected}
use iov_vehicle_tbox_prov.Service.Actions.{
  Service, Action, LogEvent, error, logged, on_failure, guard, ◌▸◌,
}
use iov_vehicle_tbox_prov.Service.Rules.{
  Keeps, Keeps-on_failure, keeps_rules, ▸-stop, on_failure-code,
}
use iov_vehicle_tbox_prov.Service.{
  Inputs, validate_vin_format, new_binding, store_binding, establish_binding, bind_vin,
  execute_vin_binding_flow, write_vin, check_conflict, conflict_outcome, authorize_rewrite,
  on_storage, write_vehicle_config, write_production_info,
}

module _ (J : JsonLibrary) (st : Store) where
  -- After `begin_shutdown` every write returns INVALID_STATE and changes nothing, not even the log.
  pub writes_after_shutdown :
      (i : Inputs) (vin : Str) (config_data : List ℕ) (info : ProductionInfo) (s : Service)
      → s.shutting_down ≡ true
      → (write_vin J st i vin s ≡ (invalid_state, s))
        × (authorize_rewrite J st i vin s ≡ (invalid_state, s))
        × (write_vehicle_config J st i config_data s ≡ (invalid_state, s))
        × (write_production_info J st i info s ≡ (invalid_state, s))
  unfolding write_vin authorize_rewrite write_vehicle_config write_production_info guard ◌▸◌
  writes_after_shutdown i vin config_data info s h = elim (Bool-cases s.initialized) [
    | inl e ↦ simp (e, h) (refl, refl, refl, refl)
    | inr e ↦ simp e (refl, refl, refl, refl)
  ]

  -- An initialized service that is not shutting down refuses configuration and production data if
  -- the storage is protected, and is left as it is.
  pub data_writes_protected :
      (i : Inputs) (config_data : List ℕ) (info : ProductionInfo) (s : Service)
      → s.initialized ≡ true
      → s.shutting_down ≡ false
      → s.storage.write_protected ≡ true
      → (write_vehicle_config J st i config_data s ≡ (security_access_not_granted, s))
        × (write_production_info J st i info s ≡ (security_access_not_granted, s))
  unfolding write_vehicle_config write_production_info guard ◌▸◌
  data_writes_protected i config_data info s ready running locked =
      simp (ready, running, locked) (refl, refl)

  module _ (t₀ : Storage) (locked : t₀.write_protected ≡ true) where
    abbrev pub Frozen : Service → Type 0
    Frozen s = s.storage ≡ t₀

    logged-Frozen : (e : LogEvent) (s : Service) → Frozen s → Frozen (logged e s)
    logged-Frozen e s h = h

    succeed-Frozen : (e : LogEvent) (c : ErrorCode) → Keeps Frozen (λ t. (c, logged e t))
    succeed-Frozen e c = record { at = λ s h. h }

    write_refused :
        (b : VehicleBinding) (s : Service)
        → Frozen s
        → Storage.write_vehicle_binding J st b s.storage ≡ (security_access_not_granted, s.storage)
    write_refused b s h =
        binding_write_protected J st b s.storage
          (ap (λ (t : Storage). t.write_protected) h ∙ locked)

    write-Frozen :
        (b : VehicleBinding) (c : ErrorCode)
        → Keeps Frozen (on_storage J st (Storage.write_vehicle_binding J st b) c)
    unfolding on_storage
    write-Frozen b c = record {
      at = λ s h. ap (λ (r : ErrorCode × Storage). r.1) (write_refused b s h) ∙ h;
    }

    write-failed :
        (b : VehicleBinding) (c : ErrorCode) (s : Service)
        → Frozen s
        → (on_storage J st (Storage.write_vehicle_binding J st b) c s).0 ≡ c
    unfolding on_storage
    write-failed b c s h = rw (write_refused b s h) refl

    store_binding-Frozen : (b : VehicleBinding) → Keeps Frozen (store_binding J st b)
    unfolding store_binding
    store_binding-Frozen b = search (keeps_rules, succeed-Frozen, write-Frozen)

    store_binding-failed :
        (b : VehicleBinding) (s : Service)
        → Frozen s
        → (store_binding J st b s).0 ≡ vin_write_failed
    unfolding store_binding
    store_binding-failed b s h =
        ap (λ (r : ErrorCode × Service). r.0)
          (▸-stop (on_storage J st (Storage.write_vehicle_binding J st b) vin_write_failed) _ s
            (λ e. cc (write-failed b vin_write_failed s h, e)))
        ∙ write-failed b vin_write_failed s h

    establish-Frozen :
        (i : Inputs) (vin uid : Str) → Keeps Frozen (establish_binding J st i vin uid)
    unfolding establish_binding
    establish-Frozen i vin uid = record {
      at = λ s.
          (store_binding-Frozen
              (new_binding i vin uid (Storage.read_vehicle_binding J st s.storage))).at
            s;
    }

    establish-failed :
        (i : Inputs) (vin uid : Str) (s : Service)
        → Frozen s
        → (establish_binding J st i vin uid s).0 ≡ vin_write_failed
    unfolding establish_binding
    establish-failed i vin uid s h =
        store_binding-failed (new_binding i vin uid (Storage.read_vehicle_binding J st s.storage)) s
          h

    abbrev establish_stage : Inputs → Str → Str → Action
    establish_stage i vin uid =
        on_failure (error "vin" "prov.vin.write.failed") (establish_binding J st i vin uid)

    establish_stage-failed :
        (i : Inputs) (vin uid : Str) (s : Service)
        → Frozen s
        → (establish_stage i vin uid s).0 ≡ vin_write_failed
    establish_stage-failed i vin uid s h =
        on_failure-code (error "vin" "prov.vin.write.failed") (establish_binding J st i vin uid) s
        ∙ establish-failed i vin uid s h

    bind_vin_stops :
        (p : Bool) (i : Inputs) (vin uid : Str) (s : Service)
        → Frozen s
        → bind_vin J st p i vin uid s ≡ establish_stage i vin uid s
    unfolding bind_vin
    bind_vin_stops p i vin uid s h =
        ▸-stop (establish_stage i vin uid) _ s (λ e. cc (establish_stage-failed i vin uid s h, e))

    flow-Frozen : (i : Inputs) (vin : Str) → Keeps Frozen (execute_vin_binding_flow J st i vin)
    unfolding execute_vin_binding_flow
    flow-Frozen i vin = record {
      at = λ s h. elim (Bool-cases i.uid.succeeded) [
        | inl e ↦
            simp (e, bind_vin_stops s.config.enable_write_protection i vin i.uid.uid s h)
              ((Keeps-on_failure logged-Frozen _ _ (establish-Frozen i vin i.uid.uid)).at s h)
        | inr e ↦ simp e h
      ];
    }

    validate-Frozen : (vin : Str) → Keeps Frozen (validate_vin_format vin)
    unfolding validate_vin_format
    validate-Frozen vin = elim (Bool-cases (Vin.validate vin)) [
      | inl e ↦ rw e (search keeps_rules)
      | inr e ↦ rw e (search (keeps_rules, logged-Frozen))
    ]

    conflict_outcome-Frozen :
        (vin : Str) (o : Option VehicleBinding) → Keeps Frozen (conflict_outcome vin o)
    conflict_outcome-Frozen vin none = search keeps_rules
    conflict_outcome-Frozen vin (some b) = elim (Bool-cases (b.locked && not (str_eq vin b.vin))) [
      | inl e ↦ rw e (search (keeps_rules, logged-Frozen))
      | inr e ↦ rw e (search keeps_rules)
    ]

    check_conflict-Frozen : (vin : Str) → Keeps Frozen (check_conflict J st vin)
    unfolding check_conflict
    check_conflict-Frozen vin = record {
      at = λ s. (conflict_outcome-Frozen vin (Storage.read_vehicle_binding J st s.storage)).at s;
    }

    pub write_vin-Frozen : (i : Inputs) (vin : Str) → Keeps Frozen (write_vin J st i vin)
    unfolding write_vin
    write_vin-Frozen i vin = search (keeps_rules, validate-Frozen, flow-Frozen) depth 8

    pub authorize_rewrite-Frozen :
        (i : Inputs) (vin : Str) → Keeps Frozen (authorize_rewrite J st i vin)
    unfolding authorize_rewrite
    authorize_rewrite-Frozen i vin =
        search (keeps_rules, validate-Frozen, check_conflict-Frozen, flow-Frozen) depth 9

    pub write_config-Frozen :
        (i : Inputs) (config_data : List ℕ) → Keeps Frozen (write_vehicle_config J st i config_data)
    unfolding write_vehicle_config guard ◌▸◌
    write_config-Frozen i config_data = record {
      at = λ s h.
          let l = ap (λ (t : Storage). t.write_protected) h ∙ locked in
          elim (Bool-cases s.initialized) [
            | inl ready ↦ elim (Bool-cases s.shutting_down) [
              | inl down ↦ simp (ready, down) h
              | inr running ↦ simp (ready, running, l) h
            ]
            | inr fresh ↦ simp fresh h
          ];
    }

    pub write_production-Frozen :
        (i : Inputs) (info : ProductionInfo) → Keeps Frozen (write_production_info J st i info)
    unfolding write_production_info guard ◌▸◌
    write_production-Frozen i info = record {
      at = λ s h.
          let l = ap (λ (t : Storage). t.write_protected) h ∙ locked in
          elim (Bool-cases s.initialized) [
            | inl ready ↦ elim (Bool-cases s.shutting_down) [
              | inl down ↦ simp (ready, down) h
              | inr running ↦ simp (ready, running, l) h
            ]
            | inr fresh ↦ simp fresh h
          ];
    }

  -- Past the three tests `write_vin` is the binding flow.
  pub write_vin_open :
      (i : Inputs) (vin : Str) (s : Service)
      → s.initialized ≡ true
      → s.shutting_down ≡ false
      → Vin.validate vin ≡ true
      → write_vin J st i vin s ≡ execute_vin_binding_flow J st i vin s
  unfolding write_vin validate_vin_format guard ◌▸◌
  write_vin_open i vin s ready running valid = simp (ready, running, valid)

  pub flow_open :
      (i : Inputs) (vin : Str) (s : Service)
      → i.uid.succeeded ≡ true
      → execute_vin_binding_flow J st i vin s
        ≡ bind_vin J st s.config.enable_write_protection i vin i.uid.uid s
  unfolding execute_vin_binding_flow
  flow_open i vin s uid = simp uid

  -- An initialized service that is not shutting down and whose storage is protected answers a
  -- valid VIN with a readable UID by VIN_WRITE_FAILED, also if the stored binding is of the same
  -- VIN.
  pub write_vin_protected :
      (i : Inputs) (vin : Str) (s : Service)
      → s.initialized ≡ true
      → s.shutting_down ≡ false
      → s.storage.write_protected ≡ true
      → Vin.validate vin ≡ true
      → i.uid.succeeded ≡ true
      → (write_vin J st i vin s).0 ≡ vin_write_failed
  write_vin_protected i vin s ready running locked valid uid =
      rw (write_vin_open i vin s ready running valid, flow_open i vin s uid)
        (ap (λ (r : ErrorCode × Service). r.0)
            (bind_vin_stops s.storage locked s.config.enable_write_protection i vin i.uid.uid s
              refl)
          ∙ establish_stage-failed s.storage locked i vin i.uid.uid s refl)
