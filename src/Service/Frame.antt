-- ===== src/Service/Frame.antt =====
-- The configuration and the flags of the service under the writes of src/prov_service.cpp.
use iov_vehicle_tbox_prov.Base.{◌≡◌, refl, Bool, Str, List, ℕ}
use iov_vehicle_tbox_prov.Errors.{ErrorCode}
use iov_vehicle_tbox_prov.Types.{VehicleBinding, VehicleConfig, ProductionInfo}
use iov_vehicle_tbox_prov.Json.{JsonLibrary}
use iov_vehicle_tbox_prov.Store.{Store}
use iov_vehicle_tbox_prov.Storage
use iov_vehicle_tbox_prov.Storage.{Storage}
use iov_vehicle_tbox_prov.Service.Actions.{Service, LogEvent, info, logged}
use iov_vehicle_tbox_prov.Service.Rules.{Keeps, keeps_rules}
use iov_vehicle_tbox_prov.Service.Writes.{
  validate_vin_format-Keeps, check_conflict-Keeps, write_vin-Keeps, authorize_rewrite-Keeps,
}
use iov_vehicle_tbox_prov.Service.{
  Inputs, validate_vin_format, set_write_protection, write_vin, check_conflict, authorize_rewrite,
  on_storage, write_vehicle_config, readback_config, mark_verified, write_production_info,
  readback_production,
}

pub record SameFrame (s t : Service) : Type 0 where
  pub config : t.config ≡ s.config
  pub initialized : t.initialized ≡ s.initialized
  pub shutting_down : t.shutting_down ≡ s.shutting_down

pub SameFrame-refl : (s : Service) → SameFrame s s
SameFrame-refl s = record { config = refl; initialized = refl; shutting_down = refl }

module _ (J : JsonLibrary) (st : Store) (s₀ : Service) where
  logged-SameFrame : (e : LogEvent) (s : Service) → SameFrame s₀ s → SameFrame s₀ (logged e s)
  logged-SameFrame e s h = record {
    config = h.config;
    initialized = h.initialized;
    shutting_down = h.shutting_down;
  }

  succeed-SameFrame : (e : LogEvent) (c : ErrorCode) → Keeps (SameFrame s₀) (λ t. (c, logged e t))
  succeed-SameFrame e c = record { at = logged-SameFrame e }

  on_storage-SameFrame :
      (call : Storage → ErrorCode × Storage) (c : ErrorCode)
      → Keeps (SameFrame s₀) (on_storage J st call c)
  unfolding on_storage
  on_storage-SameFrame call c = record {
    at = λ s h. record {
      config = h.config;
      initialized = h.initialized;
      shutting_down = h.shutting_down;
    };
  }

  ruleset frame_rules = (keeps_rules, logged-SameFrame, succeed-SameFrame, on_storage-SameFrame)

  write_binding-SameFrame :
      (b : VehicleBinding) (c : ErrorCode)
      → Keeps (SameFrame s₀) (on_storage J st (Storage.write_vehicle_binding J st b) c)
  write_binding-SameFrame b c = on_storage-SameFrame _ c

  set_write_protection-SameFrame : (b : Bool) → Keeps (SameFrame s₀) (set_write_protection J st b)
  unfolding set_write_protection
  set_write_protection-SameFrame b = record {
    at = λ s h. record {
      config = h.config;
      initialized = h.initialized;
      shutting_down = h.shutting_down;
    };
  }

  pub validate_vin_format-SameFrame : (vin : Str) → Keeps (SameFrame s₀) (validate_vin_format vin)
  validate_vin_format-SameFrame =
      validate_vin_format-Keeps J st logged-SameFrame write_binding-SameFrame
        set_write_protection-SameFrame

  pub check_conflict-SameFrame : (vin : Str) → Keeps (SameFrame s₀) (check_conflict J st vin)
  check_conflict-SameFrame =
      check_conflict-Keeps J st logged-SameFrame write_binding-SameFrame
        set_write_protection-SameFrame

  pub write_vin-SameFrame : (i : Inputs) (vin : Str) → Keeps (SameFrame s₀) (write_vin J st i vin)
  write_vin-SameFrame =
      write_vin-Keeps J st logged-SameFrame write_binding-SameFrame set_write_protection-SameFrame

  pub authorize_rewrite-SameFrame :
      (i : Inputs) (vin : Str) → Keeps (SameFrame s₀) (authorize_rewrite J st i vin)
  authorize_rewrite-SameFrame =
      authorize_rewrite-Keeps J st logged-SameFrame write_binding-SameFrame
        set_write_protection-SameFrame

  readback_config-SameFrame :
      (config_data : List ℕ) → Keeps (SameFrame s₀) (readback_config J st config_data)
  unfolding readback_config
  readback_config-SameFrame config_data = record { at = λ s h. h }

  readback_production-SameFrame :
      (i : ProductionInfo) → Keeps (SameFrame s₀) (readback_production J st i)
  unfolding readback_production
  readback_production-SameFrame i = record { at = λ s h. h }

  mark_verified-SameFrame : (c : VehicleConfig) → Keeps (SameFrame s₀) (mark_verified J st c)
  unfolding mark_verified
  mark_verified-SameFrame c = record {
    at = λ s h. record {
      config = h.config;
      initialized = h.initialized;
      shutting_down = h.shutting_down;
    };
  }

  pub write_vehicle_config-SameFrame :
      (i : Inputs) (config_data : List ℕ)
      → Keeps (SameFrame s₀) (write_vehicle_config J st i config_data)
  unfolding write_vehicle_config
  write_vehicle_config-SameFrame i config_data =
      search (frame_rules, readback_config-SameFrame, mark_verified-SameFrame) depth 9

  pub write_production_info-SameFrame :
      (i : Inputs) (info : ProductionInfo)
      → Keeps (SameFrame s₀) (write_production_info J st i info)
  unfolding write_production_info
  write_production_info-SameFrame i info =
      search (frame_rules, readback_production-SameFrame) depth 9
