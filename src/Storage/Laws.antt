-- ===== src/Storage/Laws.antt =====
-- The methods of src/protected_storage.cpp over the store.
use iov_vehicle_tbox_prov.Base.{
  ◌≡◌, ◌≢◌, ◌⊎◌, inl, inr, refl, ◌∙◌, ap, Bool, true, false, Bool-cases, Option, none, some, [],
  Str, str_eq, codes, arith,
}
use iov_vehicle_tbox_prov.Errors.{ErrorCode, success, security_access_not_granted}
use iov_vehicle_tbox_prov.Types.{VehicleBinding, VehicleConfig, ProductionInfo}
use iov_vehicle_tbox_prov.Json.{JsonLibrary, IsLawful}
use iov_vehicle_tbox_prov.Store.{Store, clear, next_event, save, load}
use iov_vehicle_tbox_prov.Store.Laws.{load-save_unchanged, load-save}
use iov_vehicle_tbox_prov.Storage.{
  Storage, guarded_write, write_vehicle_binding, write_vehicle_config, write_production_info,
  set_write_protection, read_vehicle_binding, read_vehicle_config, read_production_info, save_code,
  protection_text, serialize_binding, serialize_config, serialize_production_info,
}
use iov_vehicle_tbox_prov.Storage.Serialize.{
  Fits, BindingIsText, binding_in_seconds, serialize_binding-dumped, deserialize-serialize_binding,
  config_in_seconds, production_in_seconds, ProductionIsText, serialize_config-dumped,
  serialize_production_info-dumped, deserialize-serialize_config,
  deserialize-serialize_production_info,
}

pub save_code-success : (r : Option Bool) → save_code r ≡ success → r ≡ some true
save_code-success r h = ground arith

module _ (J : JsonLibrary) (st : Store) where
  -- While the storage is protected the three writes are refused and change nothing.
  pub writes_protected :
      (s : Storage) (b : VehicleBinding) (c : VehicleConfig) (i : ProductionInfo)
      → s.write_protected ≡ true
      → (write_vehicle_binding J st b s ≡ (security_access_not_granted, s))
        × (write_vehicle_config J st c s ≡ (security_access_not_granted, s))
        × (write_production_info J st i s ≡ (security_access_not_granted, s))
  unfolding write_vehicle_binding write_vehicle_config write_production_info guarded_write
  writes_protected s b c i h = ground arith

  pub binding_write_protected :
      (b : VehicleBinding) (s : Storage)
      → s.write_protected ≡ true
      → write_vehicle_binding J st b s ≡ (security_access_not_granted, s)
  unfolding write_vehicle_binding guarded_write
  binding_write_protected b s h = ground arith

  guarded_write_cases :
      (key : Str) (c : Option Str) (s : Storage)
      → (((guarded_write J st key c s).1 ≡ s) × ((guarded_write J st key c s).0 ≢ success))
        ⊎ ((v : Str) × (guarded_write J st key c s ≡ (
          save_code (save J st key v s.disk).0,
          record s { disk = (save J st key v s.disk).1 },
        )))
  unfolding guarded_write
  guarded_write_cases key none s = ground arith
  guarded_write_cases key (some v) s = elim (Bool-cases s.write_protected) [
    | inl h ↦ inl (ground arith)
    | inr h ↦ inr (v, rw h refl)
  ]

  pub protected-guarded_write :
      (key : Str) (c : Option Str) (s : Storage)
      → (guarded_write J st key c s).1.write_protected ≡ s.write_protected
  unfolding guarded_write
  protected-guarded_write key none s = ground arith
  protected-guarded_write key (some v) s = ground arith

  -- A write that does not return SUCCESS leaves what every key loads as it was, and a write that
  -- does leaves what every other key loads as it was.
  pub load-guarded_write :
      (key : Str) (c : Option Str) (s : Storage) (j : Str)
      → ((guarded_write J st key c s).0 ≢ success) ⊎ (str_eq key j ≡ false)
      → load J st j (guarded_write J st key c s).1.disk ≡ load J st j s.disk
  load-guarded_write key c s j h = elim (guarded_write_cases key c s) [
    | inl (same, _) ↦ ap (λ (t : Storage). load J st j t.disk) same
    | inr (v, e) ↦
        ap (λ (t : ErrorCode × Storage). load J st j t.1.disk) e
        ∙ load-save_unchanged J st key v s.disk j (elim h [
          | inl f ↦ inl (λ r. f (ap (λ (t : ErrorCode × Storage). t.0) e ∙ ap save_code r))
          | inr n ↦ inr n
        ])
  ]

  pub load-set_write_protection :
      (locked : Bool) (s : Storage) (j : Str)
      → str_eq (codes "protection") j ≡ false
      → load J st j (set_write_protection J st locked s).1.disk ≡ load J st j s.disk
  unfolding set_write_protection
  load-set_write_protection locked s j ne =
      load-save_unchanged J st (codes "protection") (protection_text locked) s.disk j (inr ne)

  -- The flag is the one asked for exactly when the method returns SUCCESS or it was so before.
  pub protected-set_write_protection :
      (locked : Bool) (s : Storage)
      → (set_write_protection J st locked s).0 ≡ success
      → (set_write_protection J st locked s).1.write_protected ≡ locked
  unfolding set_write_protection
  protected-set_write_protection locked s h = ground arith

  pub binding-cong :
      (s t : Storage)
      → load J st (codes "binding") t.disk ≡ load J st (codes "binding") s.disk
      → read_vehicle_binding J st t ≡ read_vehicle_binding J st s
  unfolding read_vehicle_binding
  binding-cong s t h = rw h refl

  pub config-cong :
      (s t : Storage)
      → load J st (codes "config") t.disk ≡ load J st (codes "config") s.disk
      → read_vehicle_config J st t ≡ read_vehicle_config J st s
  unfolding read_vehicle_config
  config-cong s t h = rw h refl

  pub production-cong :
      (s t : Storage)
      → load J st (codes "production_info") t.disk ≡ load J st (codes "production_info") s.disk
      → read_production_info J st t ≡ read_production_info J st s
  unfolding read_production_info
  production-cong s t h = rw h refl

  weather-guarded_write :
      (key : Str) (c : Option Str) (s : Storage)
      → s.disk.weather ≡ []
      → (guarded_write J st key c s).1.disk.weather ≡ []
  unfolding guarded_write save
  weather-guarded_write key none s h = ground arith
  weather-guarded_write key (some v) s h = ground arith

  -- With no fault ahead none is met.
  pub weather-write_vehicle_binding :
      (b : VehicleBinding) (s : Storage)
      → s.disk.weather ≡ []
      → (write_vehicle_binding J st b s).1.disk.weather ≡ []
  unfolding write_vehicle_binding
  weather-write_vehicle_binding b s h =
      weather-guarded_write (codes "binding") (serialize_binding J b) s h

  pub weather-write_vehicle_config :
      (c : VehicleConfig) (s : Storage)
      → s.disk.weather ≡ []
      → (write_vehicle_config J st c s).1.disk.weather ≡ []
  unfolding write_vehicle_config
  weather-write_vehicle_config c s h =
      weather-guarded_write (codes "config") (serialize_config J c) s h

  pub weather-write_production_info :
      (i : ProductionInfo) (s : Storage)
      → s.disk.weather ≡ []
      → (write_production_info J st i s).1.disk.weather ≡ []
  unfolding write_production_info
  weather-write_production_info i s h =
      weather-guarded_write (codes "production_info") (serialize_production_info J i) s h

  pub protected-write_vehicle_config :
      (c : VehicleConfig) (s : Storage)
      → (write_vehicle_config J st c s).1.write_protected ≡ s.write_protected
  unfolding write_vehicle_config
  protected-write_vehicle_config c s =
      protected-guarded_write (codes "config") (serialize_config J c) s

  pub protected-write_production_info :
      (i : ProductionInfo) (s : Storage)
      → (write_production_info J st i s).1.write_protected ≡ s.write_protected
  unfolding write_production_info
  protected-write_production_info i s =
      protected-guarded_write (codes "production_info") (serialize_production_info J i) s

  pub weather-set_write_protection :
      (locked : Bool) (s : Storage)
      → s.disk.weather ≡ []
      → (set_write_protection J st locked s).1.disk.weather ≡ []
  unfolding set_write_protection save
  weather-set_write_protection locked s h = ground arith

  pub protected-write_vehicle_binding :
      (b : VehicleBinding) (s : Storage)
      → (write_vehicle_binding J st b s).1.write_protected ≡ s.write_protected
  unfolding write_vehicle_binding
  protected-write_vehicle_binding b s =
      protected-guarded_write (codes "binding") (serialize_binding J b) s

  module _ (L : IsLawful J) where
    protection_text-utf8 : (locked : Bool) → J.utf8 (protection_text locked) ≡ true
    protection_text-utf8 true = L.utf8-ascii (codes "1") refl
    protection_text-utf8 false = L.utf8-ascii (codes "0") refl

    -- With no fault on the device the protection is set.
    pub set_write_protection_calm :
        (locked : Bool) (s : Storage)
        → (next_event s.disk.weather).fault ≡ clear
        → ((set_write_protection J st locked s).0 ≡ success)
          × (load J st (codes "protection") (set_write_protection J st locked s).1.disk
              ≡ some (protection_text locked))
    unfolding set_write_protection
    set_write_protection_calm locked s fault =
        let (ok, there) =
          load-save J st L (codes "protection") (protection_text locked) s.disk
            (protection_text-utf8 locked) fault in
        (rw ok refl, there)

    -- On an unprotected storage and with no fault on the device, a binding whose texts are UTF-8
    -- is written, and read back as it was, its times cut to whole seconds.
    pub read-write_vehicle_binding :
        (b : VehicleBinding) (s : Storage)
        → Fits b
        → BindingIsText J b
        → s.write_protected ≡ false
        → (next_event s.disk.weather).fault ≡ clear
        → ((write_vehicle_binding J st b s).0 ≡ success)
          × (read_vehicle_binding J st (write_vehicle_binding J st b s).1
              ≡ some (binding_in_seconds b))
    unfolding write_vehicle_binding guarded_write read_vehicle_binding
    read-write_vehicle_binding b s f t open' fault =
        let (content, dumped, utf8) = serialize_binding-dumped J L b t in
        let (ok, there) = load-save J st L (codes "binding") content s.disk utf8 fault in
        rw (dumped, open', ok, there) (refl, deserialize-serialize_binding J L b content f dumped)

    -- The same for configuration data, which are bytes, and for production data in UTF-8.
    pub read-write_vehicle_config :
        (c : VehicleConfig) (s : Storage)
        → s.write_protected ≡ false
        → (next_event s.disk.weather).fault ≡ clear
        → ((write_vehicle_config J st c s).0 ≡ success)
          × (read_vehicle_config J st (write_vehicle_config J st c s).1
              ≡ some (config_in_seconds c))
    unfolding write_vehicle_config guarded_write read_vehicle_config
    read-write_vehicle_config c s open' fault =
        let (content, dumped, utf8) = serialize_config-dumped J L c in
        let (ok, there) = load-save J st L (codes "config") content s.disk utf8 fault in
        rw (dumped, open', ok, there) (refl, deserialize-serialize_config J L c content dumped)

    pub read-write_production_info :
        (i : ProductionInfo) (s : Storage)
        → ProductionIsText J i
        → s.write_protected ≡ false
        → (next_event s.disk.weather).fault ≡ clear
        → ((write_production_info J st i s).0 ≡ success)
          × (read_production_info J st (write_production_info J st i s).1
              ≡ some (production_in_seconds i))
    unfolding write_production_info guarded_write read_production_info
    read-write_production_info i s t open' fault =
        let (content, dumped, utf8) = serialize_production_info-dumped J L i t in
        let (ok, there) = load-save J st L (codes "production_info") content s.disk utf8 fault in
        rw (dumped, open', ok, there)
          (refl, deserialize-serialize_production_info J L i content dumped)
