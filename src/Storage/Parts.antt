-- ===== src/Storage/Parts.antt =====
-- What the three records of src/protected_storage.cpp hold, on a device that may fail, but takes a
-- text whole or not at all: nothing but what was written.
use iov_vehicle_tbox_prov.Base.{
  ◌≡◌, ◌≢◌, ◌⊎◌, refl, sym, ap, Bool, false, Option-cases, Bool-cases, inl, inr, str_eq, Option,
  none, some, List, ℕ, Str, codes, arith,
}
use iov_vehicle_tbox_prov.Errors.{ErrorCode, success, is_success}
use iov_vehicle_tbox_prov.Types.{VehicleBinding, VehicleConfig, ProductionInfo}
use iov_vehicle_tbox_prov.Json.{JsonLibrary, IsLawful}
use iov_vehicle_tbox_prov.Store.{Store, load}
use iov_vehicle_tbox_prov.Store.Whole.{IsWhole, save-IsWhole, initialize-IsWhole}
use iov_vehicle_tbox_prov.Store.Laws.{load-same_files}
use iov_vehicle_tbox_prov.Store
use iov_vehicle_tbox_prov.Storage.{
  Storage, guarded_write, write_vehicle_binding, write_vehicle_config, write_production_info,
  set_write_protection, initialize, read_vehicle_binding, read_vehicle_config, read_production_info,
  serialize_binding, serialize_config, serialize_production_info,
}
use iov_vehicle_tbox_prov.Storage.Serialize.{Fits}
use iov_vehicle_tbox_prov.Storage.Laws.{
  load-guarded_write, binding-cong, config-cong, production-cong, load-set_write_protection,
}
use iov_vehicle_tbox_prov.Storage.Whole.{
  guarded_write-IsWhole, binding_whole, config_whole, production_whole,
}

-- The predicates on the VIN, the configuration data and the texts of the production data.
pub record Origins : Type 1 where
  pub Vin : Str → Type 0
  pub Data : List ℕ → Type 0
  pub Texts : Str → Str → Str → Type 0

module _ (J : JsonLibrary) (st : Store) (L : IsLawful J) (O : Origins) where
  abbrev pub BindingFrom : Option VehicleBinding → Type 0
  BindingFrom none = Unit
  BindingFrom (some b) = O.Vin b.vin

  abbrev pub ConfigFrom : Option VehicleConfig → Type 0
  ConfigFrom none = Unit
  ConfigFrom (some c) = O.Data c.variant_coding

  abbrev pub ProductionFrom : Option ProductionInfo → Type 0
  ProductionFrom none = Unit
  ProductionFrom (some p) = O.Texts p.production_date p.batch_num p.station_id

  -- Each record that is there meets its predicate.
  pub record IsFrom (t : Storage) : Type 0 where
    pub whole : IsWhole t.disk.weather
    pub binding : BindingFrom (read_vehicle_binding J st t)
    pub config : ConfigFrom (read_vehicle_config J st t)
    pub production : ProductionFrom (read_production_info J st t)

  -- What a write leaves of a record: all, if it fails or writes another key.
  kept_binding :
      (key : Str) (c : Option Str) (t : Storage)
      → ((guarded_write J st key c t).0 ≢ success) ⊎ (str_eq key (codes "binding") ≡ false)
      → BindingFrom (read_vehicle_binding J st t)
      → BindingFrom (read_vehicle_binding J st (guarded_write J st key c t).1)
  kept_binding key c t h from =
      rw
        (binding-cong J st t (guarded_write J st key c t).1
          (load-guarded_write J st key c t (codes "binding") h))
        from

  kept_config :
      (key : Str) (c : Option Str) (t : Storage)
      → ((guarded_write J st key c t).0 ≢ success) ⊎ (str_eq key (codes "config") ≡ false)
      → ConfigFrom (read_vehicle_config J st t)
      → ConfigFrom (read_vehicle_config J st (guarded_write J st key c t).1)
  kept_config key c t h from =
      rw
        (config-cong J st t (guarded_write J st key c t).1
          (load-guarded_write J st key c t (codes "config") h))
        from

  kept_production :
      (key : Str) (c : Option Str) (t : Storage)
      → ((guarded_write J st key c t).0 ≢ success) ⊎ (str_eq key (codes "production_info") ≡ false)
      → ProductionFrom (read_production_info J st t)
      → ProductionFrom (read_production_info J st (guarded_write J st key c t).1)
  kept_production key c t h from =
      rw
        (production-cong J st t (guarded_write J st key c t).1
          (load-guarded_write J st key c t (codes "production_info") h))
        from

  not_success : (c : ErrorCode) → is_success c ≡ false → c ≢ success
  not_success c fails e = cc (ap is_success e, fails)

  pub write_vehicle_binding-IsFrom :
      (b : VehicleBinding) (t : Storage)
      → O.Vin b.vin
      → Fits b
      → IsFrom t
      → IsFrom (write_vehicle_binding J st b t).1
  unfolding write_vehicle_binding
  write_vehicle_binding-IsFrom b t from fits h =
      let content = serialize_binding J b in
      record {
        whole = guarded_write-IsWhole J st L (codes "binding") content t h.whole;
        binding = elim (Bool-cases (is_success (write_vehicle_binding J st b t).0)) [
          | inl ok ↦ rw (binding_whole J st L b t fits h.whole (ground (arith, ok))) from
          | inr fails ↦
              kept_binding (codes "binding") content t (inl (not_success _ fails)) h.binding
        ];
        config = kept_config (codes "binding") content t (inr refl) h.config;
        production = kept_production (codes "binding") content t (inr refl) h.production;
      }

  pub write_vehicle_config-IsFrom :
      (c : VehicleConfig) (t : Storage)
      → O.Data c.variant_coding
      → IsFrom t
      → IsFrom (write_vehicle_config J st c t).1
  unfolding write_vehicle_config
  write_vehicle_config-IsFrom c t from h =
      let content = serialize_config J c in
      record {
        whole = guarded_write-IsWhole J st L (codes "config") content t h.whole;
        binding = kept_binding (codes "config") content t (inr refl) h.binding;
        config = elim (Bool-cases (is_success (write_vehicle_config J st c t).0)) [
          | inl ok ↦ rw (config_whole J st L c t h.whole (ground (arith, ok))) from
          | inr fails ↦ kept_config (codes "config") content t (inl (not_success _ fails)) h.config
        ];
        production = kept_production (codes "config") content t (inr refl) h.production;
      }

  pub write_production_info-IsFrom :
      (p : ProductionInfo) (t : Storage)
      → O.Texts p.production_date p.batch_num p.station_id
      → IsFrom t
      → IsFrom (write_production_info J st p t).1
  unfolding write_production_info
  write_production_info-IsFrom p t from h =
      let content = serialize_production_info J p in
      record {
        whole = guarded_write-IsWhole J st L (codes "production_info") content t h.whole;
        binding = kept_binding (codes "production_info") content t (inr refl) h.binding;
        config = kept_config (codes "production_info") content t (inr refl) h.config;
        production = elim (Bool-cases (is_success (write_production_info J st p t).0)) [
          | inl ok ↦ rw (production_whole J st L p t h.whole (ground (arith, ok))) from
          | inr fails ↦
              kept_production (codes "production_info") content t (inl (not_success _ fails))
                h.production
        ];
      }

  pub set_write_protection-IsFrom :
      (locked : Bool) (t : Storage) → IsFrom t → IsFrom (set_write_protection J st locked t).1
  unfolding set_write_protection
  set_write_protection-IsFrom locked t h =
      let after = (set_write_protection J st locked t).1 in
      record {
        whole = save-IsWhole J st (codes "protection") _ t.disk h.whole;
        binding =
            rw
              (binding-cong J st t after
                (load-set_write_protection J st locked t (codes "binding") refl))
              h.binding;
        config =
            rw
              (config-cong J st t after
                (load-set_write_protection J st locked t (codes "config") refl))
              h.config;
        production =
            rw
              (production-cong J st t after
                (load-set_write_protection J st locked t (codes "production_info") refl))
              h.production;
      }

  -- The records depend on the files alone.
  pub same_files-IsFrom :
      (t u : Storage) → u.disk.files ≡ t.disk.files → IsWhole u.disk.weather → IsFrom t → IsFrom u
  unfolding read_vehicle_binding read_vehicle_config read_production_info
  same_files-IsFrom t u files whole h = record {
    whole = whole;
    binding = elim (Option-cases (load J st (codes "binding") u.disk)) [
      | inl gone ↦ rw gone tt
      | inr (v, e) ↦
          let e' = load-same_files J st L (codes "binding") v u.disk t.disk (sym files) e in
          rw e (rw e' at h.binding)
    ];
    config = elim (Option-cases (load J st (codes "config") u.disk)) [
      | inl gone ↦ rw gone tt
      | inr (v, e) ↦
          let e' = load-same_files J st L (codes "config") v u.disk t.disk (sym files) e in
          rw e (rw e' at h.config)
    ];
    production = elim (Option-cases (load J st (codes "production_info") u.disk)) [
      | inl gone ↦ rw gone tt
      | inr (v, e) ↦
          let e' = load-same_files J st L (codes "production_info") v u.disk t.disk (sym files) e in
          rw e (rw e' at h.production)
    ];
  }

  -- Opening the storage keeps them.
  pub initialize-IsFrom : (t : Storage) → IsFrom t → IsFrom (initialize J st t).1
  unfolding initialize
  initialize-IsFrom t h =
      let (files, whole) = initialize-IsWhole st t.disk h.whole in
      elim (Bool-cases (Store.initialize st t.disk).0) [
        | inl opened ↦ simp opened (same_files-IsFrom t _ files whole h)
        | inr failed ↦ simp failed (same_files-IsFrom t _ files whole h)
      ]
