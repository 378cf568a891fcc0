-- ===== src/Storage/Whole.antt =====
-- The writes of src/protected_storage.cpp on a device that may fail, but takes a text whole or not
-- at all.
use iov_vehicle_tbox_prov.Base.{
  ◌≡◌, refl, Bool-cases, inl, inr, Option, none, some, Str, codes, arith,
}
use iov_vehicle_tbox_prov.Errors.{success}
use iov_vehicle_tbox_prov.Types.{VehicleBinding, VehicleConfig, ProductionInfo}
use iov_vehicle_tbox_prov.Json.{JsonLibrary, IsLawful}
use iov_vehicle_tbox_prov.Store.{Store, save, load}
use iov_vehicle_tbox_prov.Store.Whole.{IsWhole, save-IsWhole, load-save_whole}
use iov_vehicle_tbox_prov.Storage.{
  Storage, guarded_write, save_code, write_vehicle_binding, write_vehicle_config,
  write_production_info, read_vehicle_binding, read_vehicle_config, read_production_info,
  serialize_binding, serialize_config, serialize_production_info,
}
use iov_vehicle_tbox_prov.Storage.Serialize.{
  Fits, binding_in_seconds, config_in_seconds, production_in_seconds, deserialize-serialize_binding,
  deserialize-serialize_config, deserialize-serialize_production_info,
}
use iov_vehicle_tbox_prov.Storage.Laws.{save_code-success}

module _ (J : JsonLibrary) (st : Store) (L : IsLawful J) where
  pub guarded_write-IsWhole :
      (key : Str) (c : Option Str) (s : Storage)
      → IsWhole s.disk.weather
      → IsWhole (guarded_write J st key c s).1.disk.weather
  unfolding guarded_write
  guarded_write-IsWhole key none s whole = elim (Bool-cases s.write_protected) [
    | inl p ↦ simp p whole
    | inr p ↦ simp p whole
  ]
  guarded_write-IsWhole key (some v) s whole = elim (Bool-cases s.write_protected) [
    | inl p ↦ simp p whole
    | inr p ↦ simp p (save-IsWhole J st key v s.disk whole)
  ]

  -- A write that returns SUCCESS has stored its text.
  load-guarded_write_whole :
      (key : Str) (c : Option Str) (s : Storage)
      → IsWhole s.disk.weather
      → (guarded_write J st key c s).0 ≡ success
      → (v : Str) × (c ≡ some v) × (load J st key (guarded_write J st key c s).1.disk ≡ some v)
  unfolding guarded_write
  load-guarded_write_whole key none s whole h = absurd (ground (arith, h))
  load-guarded_write_whole key (some v) s whole h = elim (Bool-cases s.write_protected) [
    | inl locked ↦ absurd (ground (arith, locked, h))
    | inr open' ↦
        let done : save_code (save J st key v s.disk).0 ≡ success = simp open' at h in
        (v, refl, simp open' (load-save_whole J st L key v s.disk whole (save_code-success _ done)))
  ]

  -- So it is read back as it was, its times cut to seconds.
  pub binding_whole :
      (b : VehicleBinding) (s : Storage)
      → Fits b
      → IsWhole s.disk.weather
      → (write_vehicle_binding J st b s).0 ≡ success
      → read_vehicle_binding J st (write_vehicle_binding J st b s).1 ≡ some (binding_in_seconds b)
  unfolding write_vehicle_binding read_vehicle_binding
  binding_whole b s f whole h =
      let (v, e, there) =
        load-guarded_write_whole (codes "binding") (serialize_binding J b) s whole h in
      simp there (deserialize-serialize_binding J L b v f e)

  pub config_whole :
      (c : VehicleConfig) (s : Storage)
      → IsWhole s.disk.weather
      → (write_vehicle_config J st c s).0 ≡ success
      → read_vehicle_config J st (write_vehicle_config J st c s).1 ≡ some (config_in_seconds c)
  unfolding write_vehicle_config read_vehicle_config
  config_whole c s whole h =
      let (v, e, there) =
        load-guarded_write_whole (codes "config") (serialize_config J c) s whole h in
      simp there (deserialize-serialize_config J L c v e)

  pub production_whole :
      (p : ProductionInfo) (s : Storage)
      → IsWhole s.disk.weather
      → (write_production_info J st p s).0 ≡ success
      → read_production_info J st (write_production_info J st p s).1
        ≡ some (production_in_seconds p)
  unfolding write_production_info read_production_info
  production_whole p s whole h =
      let (v, e, there) =
        load-guarded_write_whole (codes "production_info") (serialize_production_info J p) s whole
          h in
      simp there (deserialize-serialize_production_info J L p v e)
