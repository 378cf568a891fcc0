-- ===== src/Storage.antt =====
-- src/protected_storage.cpp and include/protected_storage_impl.h, over the key-value store. The
-- lines that the methods print on the standard streams are not modelled.
pub mod Serialize
pub mod Laws
pub mod Reset
pub mod Whole
pub mod Parts
use iov_vehicle_tbox_prov.Base.{
  ℕ, ◌≡◌, if◌then◌else◌, Bool, true, false, Option, none, some, List, [], ◌∷◌, Str, str_eq, codes,
}
use iov_vehicle_tbox_prov.Errors.{ErrorCode, success, security_access_not_granted, storage_error}
use iov_vehicle_tbox_prov.Types.{
  state_value, state_of_value, VehicleBinding, VehicleConfig, ProductionInfo, to_time_t,
  from_time_t,
}
use iov_vehicle_tbox_prov.Json.{
  JsonLibrary, JsonValue, text, number, boolean, byte_array, get_text, get_uint32, get_number,
  get_bool, get_bytes, value_text, ◌>>=◌,
}
use iov_vehicle_tbox_prov.Json.Documents.{document}
use iov_vehicle_tbox_prov.Store
use iov_vehicle_tbox_prov.Store.{Disk, save, load}

-- A `ProtectedStorageImpl` with the file system below it.
pub record Storage : Type 0 where
  pub write_protected : Bool
  pub disk : Disk

abbrev pub binding_members : VehicleBinding → List (Str × JsonValue)
binding_members b =
    (codes "vin", text b.vin)
    ∷ (codes "ecu_uid", text b.ecu_uid)
    ∷ (codes "sn", text b.sn)
    ∷ (codes "state", number (state_value b.state))
    ∷ (codes "locked", boolean b.locked)
    ∷ (codes "bound_at", number (to_time_t b.bound_at))
    ∷ (codes "last_error", text b.last_error)
    ∷ (codes "retry_count", number b.retry_count)
    ∷ (codes "rewrite_count", number b.rewrite_count)
    ∷ (codes "last_rewrite_at", number (to_time_t b.last_rewrite_at))
    ∷ []

abbrev pub config_members : VehicleConfig → List (Str × JsonValue)
config_members c =
    (codes "variant_coding", byte_array c.variant_coding)
    ∷ (codes "written_at", number (to_time_t c.written_at))
    ∷ (codes "verified", boolean c.verified)
    ∷ []

abbrev pub production_members : ProductionInfo → List (Str × JsonValue)
production_members i =
    (codes "production_date", text i.production_date)
    ∷ (codes "batch_num", text i.batch_num)
    ∷ (codes "station_id", text i.station_id)
    ∷ (codes "written_at", number (to_time_t i.written_at))
    ∷ []

-- What `deserialize_binding` reads of the members of a document; `none` is an exception.
unfoldable pub binding_of : (Str → Option JsonValue) → Option VehicleBinding
binding_of member = do
  vin ← get_text (member (codes "vin"))
  ecu_uid ← get_text (member (codes "ecu_uid"))
  sn ← value_text (member (codes "sn")) []
  state ← get_number (member (codes "state"))
  locked ← get_bool (member (codes "locked"))
  bound_at ← get_number (member (codes "bound_at"))
  last_error ← get_text (member (codes "last_error"))
  retry_count ← get_uint32 (member (codes "retry_count"))
  rewrite_count ← get_uint32 (member (codes "rewrite_count"))
  last_rewrite_at ← get_number (member (codes "last_rewrite_at"))
  some (record {
    vin = vin;
    ecu_uid = ecu_uid;
    sn = sn;
    state = state_of_value state;
    locked = locked;
    bound_at = from_time_t bound_at;
    last_error = last_error;
    retry_count = retry_count;
    rewrite_count = rewrite_count;
    last_rewrite_at = from_time_t last_rewrite_at;
  })

unfoldable pub config_of : (Str → Option JsonValue) → Option VehicleConfig
config_of member = do
  variant_coding ← get_bytes (member (codes "variant_coding"))
  written_at ← get_number (member (codes "written_at"))
  verified ← get_bool (member (codes "verified"))
  some (record {
    variant_coding = variant_coding;
    written_at = from_time_t written_at;
    verified = verified;
  })

unfoldable pub production_of : (Str → Option JsonValue) → Option ProductionInfo
production_of member = do
  production_date ← get_text (member (codes "production_date"))
  batch_num ← get_text (member (codes "batch_num"))
  station_id ← get_text (member (codes "station_id"))
  written_at ← get_number (member (codes "written_at"))
  some (record {
    production_date = production_date;
    batch_num = batch_num;
    station_id = station_id;
    written_at = from_time_t written_at;
  })

-- Serialisation; `none` is an exception of the JSON library.
module _ (J : JsonLibrary) where
  unfoldable pub serialize_binding : VehicleBinding → Option Str
  serialize_binding b = J.dump 4 (document J (binding_members b))

  unfoldable pub deserialize_binding : Str → Option VehicleBinding
  deserialize_binding s = do j ← J.parse s; binding_of (J.get j)

  unfoldable pub serialize_config : VehicleConfig → Option Str
  serialize_config c = J.dump 4 (document J (config_members c))

  unfoldable pub deserialize_config : Str → Option VehicleConfig
  deserialize_config s = do j ← J.parse s; config_of (J.get j)

  unfoldable pub serialize_production_info : ProductionInfo → Option Str
  serialize_production_info i = J.dump 4 (document J (production_members i))

  unfoldable pub deserialize_production_info : Str → Option ProductionInfo
  deserialize_production_info s = do j ← J.parse s; production_of (J.get j)

-- What a method returns for the result of a save.
abbrev pub save_code : Option Bool → ErrorCode
save_code none = storage_error
save_code (some true) = success
save_code (some false) = storage_error

abbrev pub protection_after : Option Bool → Bool → Bool → Bool
protection_after (some true) locked before = locked
protection_after _ locked before = before

abbrev pub protection_text : Bool → Str
protection_text true = codes "1"
protection_text false = codes "0"

-- `write_protected_` after the recorded protection was looked up.
abbrev pub protection_found : Option Str → Bool → Bool
protection_found none before = before
protection_found (some value) before = str_eq value (codes "1")

unfoldable pub is_write_protected : Storage → Bool
is_write_protected s = s.write_protected

module _ (J : JsonLibrary) (st : Store.Store) where
  unfoldable pub initialize : Storage → ErrorCode × Storage
  initialize s =
      let (ready, d) = Store.initialize st s.disk in
      if ready
      then (
        success,
        record {
          write_protected = protection_found (load J st (codes "protection") d) s.write_protected;
          disk = d;
        },
      )
      else (storage_error, record s { disk = d })

  unfoldable pub read_vehicle_binding : Storage → Option VehicleBinding
  unfolding deserialize_binding
  read_vehicle_binding s = do
    content ← load J st (codes "binding") s.disk
    deserialize_binding J content

  unfoldable pub read_vehicle_config : Storage → Option VehicleConfig
  unfolding deserialize_config
  read_vehicle_config s = do
    content ← load J st (codes "config") s.disk
    deserialize_config J content

  unfoldable pub read_production_info : Storage → Option ProductionInfo
  unfolding deserialize_production_info
  read_production_info s = do
    content ← load J st (codes "production_info") s.disk
    deserialize_production_info J content

  -- The body that the three writes share: the protection test, the serialisation and the save.
  unfoldable pub guarded_write : Str → Option Str → Storage → ErrorCode × Storage
  guarded_write key none s =
      if s.write_protected then (security_access_not_granted, s) else (storage_error, s)
  guarded_write key (some content) s =
      let (saved, d) = save J st key content s.disk in
      if s.write_protected
      then (security_access_not_granted, s)
      else (save_code saved, record s { disk = d })

  unfoldable pub write_vehicle_binding : VehicleBinding → Storage → ErrorCode × Storage
  write_vehicle_binding b s = guarded_write (codes "binding") (serialize_binding J b) s

  unfoldable pub write_vehicle_config : VehicleConfig → Storage → ErrorCode × Storage
  write_vehicle_config c s = guarded_write (codes "config") (serialize_config J c) s

  unfoldable pub write_production_info : ProductionInfo → Storage → ErrorCode × Storage
  write_production_info i s =
      guarded_write (codes "production_info") (serialize_production_info J i) s

  unfoldable pub set_write_protection : Bool → Storage → ErrorCode × Storage
  set_write_protection locked s =
      let (saved, d) = save J st (codes "protection") (protection_text locked) s.disk in
      (
        save_code saved,
        record { write_protected = protection_after saved locked s.write_protected; disk = d },
      )

  -- The results of the four removals are not looked at.
  unfoldable pub clear_all : Storage → ErrorCode × Storage
  clear_all s =
      let (_, d₁) = Store.remove st (codes "binding") s.disk in
      let (_, d₂) = Store.remove st (codes "config") d₁ in
      let (_, d₃) = Store.remove st (codes "production_info") d₂ in
      let (_, d₄) = Store.remove st (codes "protection") d₃ in
      (success, record { write_protected = false; disk = d₄ })
