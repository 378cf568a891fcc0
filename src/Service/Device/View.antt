-- ===== src/Service/Device/View.antt =====
-- The device that a service shows, and what a call that changes nothing of it leaves.
use iov_vehicle_tbox_prov.Base.{
  ◌≡◌, refl, ap, ◌∙◌, Bool, true, false, Option, none, some, List, [], ℕ, Str,
}
use iov_vehicle_tbox_prov.Errors.{ErrorCode, success}
use iov_vehicle_tbox_prov.Types.{VehicleBinding, VehicleConfig, ProductionInfo}
use iov_vehicle_tbox_prov.Json.{JsonLibrary}
use iov_vehicle_tbox_prov.Store.{Store}
use iov_vehicle_tbox_prov.Storage
use iov_vehicle_tbox_prov.Storage.{Storage}
use iov_vehicle_tbox_prov.Storage.Serialize.{ProductionIsText}
use iov_vehicle_tbox_prov.Service
use iov_vehicle_tbox_prov.Service.Actions.{Service, ServiceConfig}
use iov_vehicle_tbox_prov.Service.Frame.{SameFrame}
use iov_vehicle_tbox_prov.Service.Requests.{
  Request, initialize_request, begin_shutdown_request, write_vin_request, authorize_rewrite_request,
  write_vehicle_config_request, write_production_info_request, read_binding_request,
}
use iov_vehicle_tbox_prov.Service.Device.{Device}

abbrev pub vin_of : Option VehicleBinding → Option Str
vin_of none = none
vin_of (some b) = some b.vin

abbrev pub bytes_of : Option VehicleConfig → Option (List ℕ)
bytes_of none = none
bytes_of (some c) = some c.variant_coding

abbrev pub texts_of : Option ProductionInfo → Option (Str × Str × Str)
texts_of none = none
texts_of (some p) = some (p.production_date, p.batch_num, p.station_id)

-- No binding, or one that is not locked.
abbrev pub IsUnlocked : Option VehicleBinding → Type 0
IsUnlocked none = Unit
IsUnlocked (some b) = b.locked ≡ false

module _ (J : JsonLibrary) (st : Store) where
  -- What the service shows of its storage.
  abbrev pub view : Service → Device
  view s = record {
    vin = vin_of (Storage.read_vehicle_binding J st s.storage);
    config_data = bytes_of (Storage.read_vehicle_config J st s.storage);
    production = texts_of (Storage.read_production_info J st s.storage);
    protected = s.storage.write_protected;
    down = s.shutting_down;
  }

  -- The answer to a request; one that returns no code is answered by SUCCESS.
  unfoldable pub answer : Request → Service → ErrorCode
  answer initialize_request s = (Service.initialize J st s).0
  answer begin_shutdown_request s = success
  answer (write_vin_request i vin) s = (Service.write_vin J st i vin s).0
  answer (authorize_rewrite_request i vin) s = (Service.authorize_rewrite J st i vin s).0
  answer (write_vehicle_config_request i bytes) s = (Service.write_vehicle_config J st i bytes s).0
  answer (write_production_info_request i p) s = (Service.write_production_info J st i p s).0
  answer (read_binding_request i) s = success

  -- An initialized service on a device without faults, with a binding that is not locked; whether
  -- write protection is enabled.
  pub record IsSound (enabled : Bool) (s : Service) : Type 0 where
    pub ready : s.initialized ≡ true
    pub enables : s.config.enable_write_protection ≡ enabled
    pub weather : s.storage.disk.weather ≡ []
    pub unlocked : IsUnlocked (Storage.read_vehicle_binding J st s.storage)

  -- What a request sends that is stored as text is UTF-8.
  abbrev pub IsText : Request → Type 0
  IsText (write_vin_request i vin) = J.utf8 i.uid.uid ≡ true
  IsText (authorize_rewrite_request i vin) = J.utf8 i.uid.uid ≡ true
  IsText (write_production_info_request i p) = ProductionIsText J p
  IsText _ = Unit

  -- A call that does what the device does.
  pub record Refines (enabled : Bool) (d : ErrorCode × Device) (m : ErrorCode × Service)
      : Type 0 where
    pub code : m.0 ≡ d.0
    pub device : view m.1 ≡ d.1
    pub sound : IsSound enabled m.1

  -- The storage alone decides what is shown but for the shutdown.
  pub view-cong :
      (s t : Service) → t.storage ≡ s.storage → t.shutting_down ≡ s.shutting_down → view t ≡ view s
  view-cong s t e d = rw (e, d) refl

  -- A service shows a device whose parts it shows.
  pub shows :
      (t : Service) (d : Device)
      → vin_of (Storage.read_vehicle_binding J st t.storage) ≡ d.vin
      → bytes_of (Storage.read_vehicle_config J st t.storage) ≡ d.config_data
      → texts_of (Storage.read_production_info J st t.storage) ≡ d.production
      → t.storage.write_protected ≡ d.protected
      → t.shutting_down ≡ d.down
      → view t ≡ d
  shows t d vin config production protected down =
      rw (vin, config, production, protected, down) refl

  -- A call that leaves the storage.
  pub unchanged-Refines :
      (enabled : Bool) (s : Service) (c : ErrorCode) (m : ErrorCode × Service)
      → IsSound enabled s
      → m.0 ≡ c
      → m.1.storage ≡ s.storage
      → SameFrame s m.1
      → Refines enabled (c, view s) m
  unchanged-Refines enabled s c m sound code same frame = record {
    code = code;
    device = view-cong s m.1 same frame.shutting_down;
    sound = record {
      ready = frame.initialized ∙ sound.ready;
      enables = ap (λ (k : ServiceConfig). k.enable_write_protection) frame.config ∙ sound.enables;
      weather = ap (λ (t : Storage). t.disk.weather) same ∙ sound.weather;
      unlocked = rw same sound.unlocked;
    };
  }
