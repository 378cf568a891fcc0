-- ===== src/Service/Origins.antt =====
-- Whatever goes wrong on a device that takes a text whole or not at all, src/prov_service.cpp stores
-- nothing but what it was asked to.
use iov_vehicle_tbox_prov.Base.{
  ◌≡◌, refl, true, false, Bool, Bool-cases, inl, inr, Option, List, [], ◌∷◌, ℕ, Str, All,
}
use iov_vehicle_tbox_prov.Errors.{ErrorCode}
use iov_vehicle_tbox_prov.Types.{VehicleBinding, VehicleConfig, ProductionInfo, bound}
use iov_vehicle_tbox_prov.Vin
use iov_vehicle_tbox_prov.Json.{JsonLibrary, IsLawful}
use iov_vehicle_tbox_prov.Store.{Store}
use iov_vehicle_tbox_prov.Storage
use iov_vehicle_tbox_prov.Storage.Serialize.{Fits}
use iov_vehicle_tbox_prov.Storage.Parts.{
  Origins, IsFrom, write_vehicle_binding-IsFrom, write_vehicle_config-IsFrom,
  write_production_info-IsFrom, set_write_protection-IsFrom, initialize-IsFrom, same_files-IsFrom,
}
use iov_vehicle_tbox_prov.Service
use iov_vehicle_tbox_prov.Service.Actions.{Service, LogEvent, logged, guard, on_failure, ◌▸◌}
use iov_vehicle_tbox_prov.Service.Rules.{Keeps, keeps_rules}
use iov_vehicle_tbox_prov.Service.Writes.{write_vin-Keeps_only, authorize_rewrite-Keeps_only}
use iov_vehicle_tbox_prov.Service.Completion.{new_binding-Fits, vin-new_binding}
use iov_vehicle_tbox_prov.Service.Requests.{
  Request, initialize_request, begin_shutdown_request, write_vin_request, authorize_rewrite_request,
  write_vehicle_config_request, write_production_info_request, read_binding_request, serve,
  serve_all, storage-read_binding,
}
use iov_vehicle_tbox_prov.Service.{
  Inputs, new_binding, on_storage, set_write_protection, begin_shutdown, write_vin,
  authorize_rewrite, write_vehicle_config, write_production_info, validate_vin_format,
  mark_verified, readback_config, readback_production,
}

module _ (J : JsonLibrary) (st : Store) (L : IsLawful J) (O : Origins) where
  Sound : Service → Type 0
  Sound s = IsFrom J st L O s.storage

  log-Sound : (e : LogEvent) (s : Service) → Sound s → Sound (logged e s)
  unfolding Sound
  log-Sound e s h = h

  abbrev IsOf : Str → VehicleBinding → Type 0
  IsOf vin b = (b.vin ≡ vin) × Fits b

  module _ (vin : Str) (from : O.Vin vin) where
    write-Sound :
        (b : VehicleBinding) (c : ErrorCode)
        → IsOf vin b
        → Keeps Sound (on_storage J st (Storage.write_vehicle_binding J st b) c)
    unfolding Sound on_storage
    write-Sound b c (same, fits) = record {
      at = λ s h. write_vehicle_binding-IsFrom J st L O b s.storage (rw same from) fits h;
    }

    protect-Sound : (p : Bool) → Keeps Sound (set_write_protection J st p)
    unfolding Sound set_write_protection
    protect-Sound p = record { at = λ s h. set_write_protection-IsFrom J st L O p s.storage h }

    new_binding-IsOf :
        (i : Inputs) (uid : Str) (o : Option VehicleBinding) → IsOf vin (new_binding i vin uid o)
    new_binding-IsOf i uid o =
        (vin-new_binding J st L i vin uid o, new_binding-Fits J st L i vin uid o)

    bound-IsOf : (b : VehicleBinding) → IsOf vin b → IsOf vin (record b { state = bound })
    bound-IsOf b (v, f) = (v, record { state = tt; retries = f.retries; rewrites = f.rewrites })

    write_vin-Sound : (i : Inputs) → Keeps Sound (write_vin J st i vin)
    write_vin-Sound i =
        write_vin-Keeps_only J st vin log-Sound new_binding-IsOf bound-IsOf write-Sound
          protect-Sound i

    authorize_rewrite-Sound : (i : Inputs) → Keeps Sound (authorize_rewrite J st i vin)
    authorize_rewrite-Sound i =
        authorize_rewrite-Keeps_only J st vin log-Sound new_binding-IsOf bound-IsOf write-Sound
          protect-Sound i

  -- An invalid VIN is refused before anything is written.
  storage-invalid :
      (i : Inputs) (vin : Str) (s : Service)
      → Vin.validate vin ≡ false
      → ((write_vin J st i vin s).1.storage ≡ s.storage)
        × ((authorize_rewrite J st i vin s).1.storage ≡ s.storage)
  unfolding write_vin authorize_rewrite validate_vin_format guard on_failure ◌▸◌
  storage-invalid i vin s invalid = elim (Bool-cases s.initialized) [
    | inr raw ↦ simp raw (refl, refl)
    | inl ready ↦ elim (Bool-cases s.shutting_down) [
      | inl down ↦ simp (ready, down) (refl, refl)
      | inr running ↦ simp (ready, running, invalid) (refl, refl)
    ]
  ]

  module _ (bytes : List ℕ) (from : O.Data bytes) where
    store_config-Sound :
        (c : VehicleConfig) (code : ErrorCode)
        → c.variant_coding ≡ bytes
        → Keeps Sound (on_storage J st (Storage.write_vehicle_config J st c) code)
    unfolding Sound on_storage
    store_config-Sound c code same = record {
      at = λ s h. write_vehicle_config-IsFrom J st L O c s.storage (rw same from) h;
    }

    mark_verified-Sound :
        (c : VehicleConfig) → c.variant_coding ≡ bytes → Keeps Sound (mark_verified J st c)
    unfolding Sound mark_verified
    mark_verified-Sound c same = record {
      at = λ s h. write_vehicle_config-IsFrom J st L O _ s.storage (rw same from) h;
    }

    readback_config-Sound : Keeps Sound (readback_config J st bytes)
    unfolding readback_config
    readback_config-Sound = record { at = λ s h. h }

    write_vehicle_config-Sound : (i : Inputs) → Keeps Sound (write_vehicle_config J st i bytes)
    unfolding write_vehicle_config
    write_vehicle_config-Sound i =
        search
          (keeps_rules, log-Sound, store_config-Sound, readback_config-Sound, mark_verified-Sound)
          depth 9

  module _ (p : ProductionInfo) (from : O.Texts p.production_date p.batch_num p.station_id) where
    store_production-Sound :
        (t : ℕ) (code : ErrorCode)
        → Keeps Sound (
            on_storage J st (Storage.write_production_info J st (record p { written_at = t })) code)
    unfolding Sound on_storage
    store_production-Sound t code = record {
      at = λ s h.
          write_production_info-IsFrom J st L O (record p { written_at = t }) s.storage from h;
    }

    readback_production-Sound : Keeps Sound (readback_production J st p)
    unfolding readback_production
    readback_production-Sound = record { at = λ s h. h }

    write_production_info-Sound : (i : Inputs) → Keeps Sound (write_production_info J st i p)
    unfolding write_production_info
    write_production_info-Sound i =
        search (keeps_rules, log-Sound, store_production-Sound, readback_production-Sound) depth 9

  -- What a request asks to store meets the predicates; a VIN only needs to if it is valid.
  abbrev pub Asks : Request → Type 0
  Asks (write_vin_request i vin) = Vin.validate vin ≡ true → O.Vin vin
  Asks (authorize_rewrite_request i vin) = Vin.validate vin ≡ true → O.Vin vin
  Asks (write_vehicle_config_request i bytes) = O.Data bytes
  Asks (write_production_info_request i p) = O.Texts p.production_date p.batch_num p.station_id
  Asks _ = Unit

  -- The service may be initialized already.
  initialize-Sound : (s : Service) → Sound s → Sound (Service.initialize J st s).1
  unfolding Service.initialize Sound
  initialize-Sound s h = elim (Bool-cases s.initialized) [
    | inl ready ↦ simp ready h
    | inr raw ↦ simp raw (
        initialize-IsFrom J st L O (record { write_protected = false; disk = s.storage.disk })
          (same_files-IsFrom J st L O s.storage _ refl h.whole h))
  ]

  -- One request.
  pub serve-IsFrom :
      (r : Request) (s : Service)
      → IsFrom J st L O s.storage
      → Asks r
      → IsFrom J st L O (serve J st r s).storage
  unfolding serve begin_shutdown Sound
  serve-IsFrom initialize_request s h asks = initialize-Sound s h
  serve-IsFrom begin_shutdown_request s h asks = h
  serve-IsFrom (write_vin_request i vin) s h asks = elim (Bool-cases (Vin.validate vin)) [
    | inl valid ↦ (write_vin-Sound vin (asks valid) i).at s h
    | inr invalid ↦ rw (storage-invalid i vin s invalid).0 h
  ]
  serve-IsFrom (authorize_rewrite_request i vin) s h asks = elim (Bool-cases (Vin.validate vin)) [
    | inl valid ↦ (authorize_rewrite-Sound vin (asks valid) i).at s h
    | inr invalid ↦ rw (storage-invalid i vin s invalid).1 h
  ]
  serve-IsFrom (write_vehicle_config_request i bytes) s h asks =
      (write_vehicle_config-Sound bytes asks i).at s h
  serve-IsFrom (write_production_info_request i p) s h asks =
      (write_production_info-Sound p asks i).at s h
  serve-IsFrom (read_binding_request i) s h asks = rw (storage-read_binding J st i s) h

  -- Let the device take a text whole or not at all, and fail in any other way. Let predicates on
  -- VINs, configuration data and production texts hold of what a service has stored, of the valid
  -- VINs that the requests bring, and of all their configuration and production data. Then after
  -- any sequence of requests, whatever they returned, each record that is stored meets its
  -- predicate.
  pub serve_all-IsFrom :
      (rs : List Request) (s : Service)
      → IsFrom J st L O s.storage
      → All Asks rs
      → IsFrom J st L O (serve_all J st rs s).storage
  unfolding serve_all
  serve_all-IsFrom [] s h asks = h
  serve_all-IsFrom (r ∷ rs) s h (asks, later) =
      serve_all-IsFrom rs (serve J st r s) (serve-IsFrom r s h asks) later
