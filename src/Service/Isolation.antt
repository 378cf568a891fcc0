-- ===== src/Service/Isolation.antt =====
-- Which keys of the store the writes of src/prov_service.cpp leave as they are.
use iov_vehicle_tbox_prov.Base.{◌≡◌, refl, ◌∙◌, Bool, false, inr, List, ℕ, Str, str_eq, codes}
use iov_vehicle_tbox_prov.Errors.{ErrorCode}
use iov_vehicle_tbox_prov.Types.{VehicleBinding, VehicleConfig, ProductionInfo}
use iov_vehicle_tbox_prov.Json.{JsonLibrary}
use iov_vehicle_tbox_prov.Store.{Store, load}
use iov_vehicle_tbox_prov.Storage
use iov_vehicle_tbox_prov.Storage.{Storage}
use iov_vehicle_tbox_prov.Storage.Laws.{
  load-guarded_write, load-set_write_protection, binding-cong, config-cong, production-cong,
}
use iov_vehicle_tbox_prov.Service.Actions.{Service, LogEvent, logged}
use iov_vehicle_tbox_prov.Service.Rules.{Keeps, keeps_rules}
use iov_vehicle_tbox_prov.Service.Writes.{write_vin-Keeps, authorize_rewrite-Keeps}
use iov_vehicle_tbox_prov.Service.{
  Inputs, on_storage, set_write_protection, readback_config, mark_verified, readback_production,
  write_vin, authorize_rewrite, write_vehicle_config, write_production_info,
}

module _ (J : JsonLibrary) (st : Store) (j : Str) (s₀ : Service) where
  -- The key loads what it loaded.
  SameKey : Service → Type 0
  SameKey t = load J st j t.storage.disk ≡ load J st j s₀.storage.disk

  log-SameKey : (e : LogEvent) (s : Service) → SameKey s → SameKey (logged e s)
  unfolding SameKey
  log-SameKey e s h = h

  -- A write of the storage that leaves the key as it is.
  call-SameKey :
      (call : Storage → ErrorCode × Storage) (c : ErrorCode)
      → ((t : Storage) → load J st j (call t).1.disk ≡ load J st j t.disk)
      → Keeps SameKey (on_storage J st call c)
  unfolding SameKey on_storage
  call-SameKey call c same = record { at = λ s h. same s.storage ∙ h }

  module _ (ne : str_eq (codes "binding") j ≡ false)
      (pe : str_eq (codes "protection") j ≡ false) where
    binding-SameKey :
        (b : VehicleBinding) (c : ErrorCode)
        → Keeps SameKey (on_storage J st (Storage.write_vehicle_binding J st b) c)
    unfolding Storage.write_vehicle_binding
    binding-SameKey b c = call-SameKey (Storage.write_vehicle_binding J st b) c (λ t.
        load-guarded_write J st (codes "binding") (Storage.serialize_binding J b) t j (inr ne))

    protection-SameKey : (b : Bool) → Keeps SameKey (set_write_protection J st b)
    unfolding SameKey set_write_protection
    protection-SameKey b = record {
      at = λ s h. load-set_write_protection J st b s.storage j pe ∙ h;
    }

    write_vin-SameKey : (i : Inputs) (vin : Str) → Keeps SameKey (write_vin J st i vin)
    write_vin-SameKey = write_vin-Keeps J st log-SameKey binding-SameKey protection-SameKey

    authorize_rewrite-SameKey :
        (i : Inputs) (vin : Str) → Keeps SameKey (authorize_rewrite J st i vin)
    authorize_rewrite-SameKey =
        authorize_rewrite-Keeps J st log-SameKey binding-SameKey protection-SameKey

  module _ (ne : str_eq (codes "config") j ≡ false) where
    config_call :
        (c : VehicleConfig) (t : Storage)
        → load J st j (Storage.write_vehicle_config J st c t).1.disk ≡ load J st j t.disk
    unfolding Storage.write_vehicle_config
    config_call c t =
        load-guarded_write J st (codes "config") (Storage.serialize_config J c) t j (inr ne)

    store_config-SameKey :
        (c : VehicleConfig) (code : ErrorCode)
        → Keeps SameKey (on_storage J st (Storage.write_vehicle_config J st c) code)
    store_config-SameKey c code = call-SameKey _ code (config_call c)

    mark_verified-SameKey : (c : VehicleConfig) → Keeps SameKey (mark_verified J st c)
    unfolding SameKey mark_verified
    mark_verified-SameKey c = record { at = λ s h. config_call _ s.storage ∙ h }

    readback_config-SameKey : (bytes : List ℕ) → Keeps SameKey (readback_config J st bytes)
    unfolding readback_config
    readback_config-SameKey bytes = record { at = λ s h. h }

    write_vehicle_config-SameKey :
        (i : Inputs) (config_data : List ℕ)
        → Keeps SameKey (write_vehicle_config J st i config_data)
    unfolding write_vehicle_config
    write_vehicle_config-SameKey i config_data =
        search
          (
            keeps_rules, log-SameKey, store_config-SameKey, readback_config-SameKey,
            mark_verified-SameKey,
          )
          depth 9

  module _ (ne : str_eq (codes "production_info") j ≡ false) where
    store_production-SameKey :
        (p : ProductionInfo) (code : ErrorCode)
        → Keeps SameKey (on_storage J st (Storage.write_production_info J st p) code)
    unfolding Storage.write_production_info
    store_production-SameKey p code = call-SameKey (Storage.write_production_info J st p) code (λ t.
        load-guarded_write J st (codes "production_info") (Storage.serialize_production_info J p) t
          j (inr ne))

    readback_production-SameKey : (p : ProductionInfo) → Keeps SameKey (readback_production J st p)
    unfolding readback_production
    readback_production-SameKey p = record { at = λ s h. h }

    write_production_info-SameKey :
        (i : Inputs) (p : ProductionInfo) → Keeps SameKey (write_production_info J st i p)
    unfolding write_production_info
    write_production_info-SameKey i p =
        search (keeps_rules, log-SameKey, store_production-SameKey, readback_production-SameKey)
          depth 9

module _ (J : JsonLibrary) (st : Store) where
  -- Each write keeps what the others store: writing a VIN or authorizing a rewrite leaves the
  -- stored configuration and production data as they are, and writing configuration or production
  -- data leaves the stored binding and the other data as they are. That holds on every branch and
  -- whatever goes wrong on the device.
  pub writes_keep_others :
      (i : Inputs) (vin : Str) (config_data : List ℕ) (p : ProductionInfo) (s : Service)
      → (Storage.read_vehicle_config J st (write_vin J st i vin s).1.storage
          ≡ Storage.read_vehicle_config J st s.storage)
        × (Storage.read_production_info J st (write_vin J st i vin s).1.storage
            ≡ Storage.read_production_info J st s.storage)
        × (Storage.read_vehicle_config J st (authorize_rewrite J st i vin s).1.storage
            ≡ Storage.read_vehicle_config J st s.storage)
        × (Storage.read_production_info J st (authorize_rewrite J st i vin s).1.storage
            ≡ Storage.read_production_info J st s.storage)
        × (Storage.read_vehicle_binding J st (write_vehicle_config J st i config_data s).1.storage
            ≡ Storage.read_vehicle_binding J st s.storage)
        × (Storage.read_production_info J st (write_vehicle_config J st i config_data s).1.storage
            ≡ Storage.read_production_info J st s.storage)
        × (Storage.read_vehicle_binding J st (write_production_info J st i p s).1.storage
            ≡ Storage.read_vehicle_binding J st s.storage)
        × (Storage.read_vehicle_config J st (write_production_info J st i p s).1.storage
            ≡ Storage.read_vehicle_config J st s.storage)
  unfolding SameKey
  writes_keep_others i vin config_data p s = (
    config-cong J st s.storage _
        ((write_vin-SameKey J st (codes "config") s refl refl i vin).at s refl),
    production-cong J st s.storage _
        ((write_vin-SameKey J st (codes "production_info") s refl refl i vin).at s refl),
    config-cong J st s.storage _
        ((authorize_rewrite-SameKey J st (codes "config") s refl refl i vin).at s refl),
    production-cong J st s.storage _
        ((authorize_rewrite-SameKey J st (codes "production_info") s refl refl i vin).at s refl),
    binding-cong J st s.storage _
        ((write_vehicle_config-SameKey J st (codes "binding") s refl i config_data).at s refl),
    production-cong J st s.storage _ (
        (write_vehicle_config-SameKey J st (codes "production_info") s refl i config_data).at s
          refl),
    binding-cong J st s.storage _
        ((write_production_info-SameKey J st (codes "binding") s refl i p).at s refl),
    config-cong J st s.storage _
        ((write_production_info-SameKey J st (codes "config") s refl i p).at s refl),
  )
