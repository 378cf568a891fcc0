-- ===== src/Storage/Serialize.antt =====
-- The three serialisations of src/protected_storage.cpp.
use native.Mathlib.Nat.{mod-eq_of_lt}
use iov_vehicle_tbox_prov.Base.{ℕ, ◌≡◌, ◌<◌, ◌≤◌, ◌^◌, refl, true, Option, some, Str, arith}
use iov_vehicle_tbox_prov.Types.{
  ProvisionState, unnamed, state_value, state_of_value, VehicleBinding, VehicleConfig,
  ProductionInfo, to_time_t, from_time_t,
}
use iov_vehicle_tbox_prov.Json.{JsonLibrary, JsonValue, IsLawful}
use iov_vehicle_tbox_prov.Json.Documents.{document, dump-document}
use iov_vehicle_tbox_prov.Storage.{
  binding_members, config_members, production_members, binding_of, config_of, production_of,
  serialize_binding, deserialize_binding, serialize_config, deserialize_config,
  serialize_production_info, deserialize_production_info,
}

-- A state that a byte can hold, written in the one way that the model has for it.
abbrev pub IsState : ProvisionState → Type 0
IsState (unnamed n) = (4 ≤ n) × (n < 256)
IsState _ = Unit

-- The cast takes the value of a state back to the state: a named one, or another that a byte can
-- hold.
pub state_of_value-state_value :
    (s : ProvisionState) → IsState s → state_of_value (state_value s) ≡ s
unfolding state_of_value state_value
state_of_value-state_value (unnamed n) h = ground arith
state_of_value-state_value ProvisionState.none h = refl
state_of_value-state_value _ h = refl

-- The values that the fields of a binding can hold.
pub record Fits (b : VehicleBinding) : Type 0 where
  pub state : IsState b.state
  pub retries : b.retry_count < 2 ^ 32
  pub rewrites : b.rewrite_count < 2 ^ 32

-- `time_t` counts whole seconds.
abbrev pub whole_seconds : ℕ → ℕ
whole_seconds t = from_time_t (to_time_t t)

abbrev pub binding_in_seconds : VehicleBinding → VehicleBinding
binding_in_seconds b = record b {
  bound_at = whole_seconds b.bound_at;
  last_rewrite_at = whole_seconds b.last_rewrite_at;
}

abbrev pub config_in_seconds : VehicleConfig → VehicleConfig
config_in_seconds c = record c { written_at = whole_seconds c.written_at }

abbrev pub production_in_seconds : ProductionInfo → ProductionInfo
production_in_seconds i = record i { written_at = whole_seconds i.written_at }

module _ (J : JsonLibrary) where
  abbrev pub ProductionIsText : ProductionInfo → Type 0
  ProductionIsText i =
      (J.utf8 i.production_date ≡ true) × (J.utf8 i.batch_num ≡ true) × (J.utf8 i.station_id ≡ true)

  -- What `dump` can write of a binding.
  abbrev pub BindingIsText : VehicleBinding → Type 0
  BindingIsText b =
      (J.utf8 b.vin ≡ true)
      × (J.utf8 b.ecu_uid ≡ true)
      × (J.utf8 b.sn ≡ true)
      × (J.utf8 b.last_error ≡ true)

module _ (J : JsonLibrary) (L : IsLawful J) where
  binding_of-document :
      (b : VehicleBinding) (member : Str → Option JsonValue)
      → Fits b
      → ((k : Str) → member k ≡ J.get (document J (binding_members b)) k)
      → binding_of member ≡ some (binding_in_seconds b)
  unfolding binding_of
  binding_of-document b member f same =
      simp (same, L.get-set)
        (cc (
          state_of_value-state_value b.state f.state,
          mod-eq_of_lt f.retries,
          mod-eq_of_lt f.rewrites,
        ))

  -- A binding whose fields fit and that is serialized is deserialized to itself, its times cut to whole
  -- seconds.
  pub deserialize-serialize_binding :
      (b : VehicleBinding) (s : Str)
      → Fits b
      → serialize_binding J b ≡ some s
      → deserialize_binding J s ≡ some (binding_in_seconds b)
  unfolding serialize_binding deserialize_binding
  deserialize-serialize_binding b s f dumped =
      let (e, parsed, same) = L.parse-dump 4 (document J (binding_members b)) s dumped in
      rw parsed (binding_of-document b (J.get e) f same)

  -- A configuration that is serialized is deserialized to itself, its time cut to whole seconds.
  pub deserialize-serialize_config :
      (c : VehicleConfig) (s : Str)
      → serialize_config J c ≡ some s
      → deserialize_config J s ≡ some (config_in_seconds c)
  unfolding serialize_config deserialize_config config_of
  deserialize-serialize_config c s dumped =
      let (e, parsed, same) = L.parse-dump 4 (document J (config_members c)) s dumped in
      rw parsed (simp (same, L.get-set))

  -- Production data that are serialized are deserialized to themselves, their time cut to whole
  -- seconds.
  pub deserialize-serialize_production_info :
      (i : ProductionInfo) (s : Str)
      → serialize_production_info J i ≡ some s
      → deserialize_production_info J s ≡ some (production_in_seconds i)
  unfolding serialize_production_info deserialize_production_info production_of
  deserialize-serialize_production_info i s dumped =
      let (e, parsed, same) = L.parse-dump 4 (document J (production_members i)) s dumped in
      rw parsed (simp (same, L.get-set))

  pub serialize_binding-dumped :
      (b : VehicleBinding)
      → BindingIsText J b
      → (s : Str) × (serialize_binding J b ≡ some s) × (J.utf8 s ≡ true)
  unfolding serialize_binding
  serialize_binding-dumped b (vin, uid, sn, err) =
      dump-document J L 4 (binding_members b)
        (vin, (uid, (sn, (refl, (refl, (refl, (err, (refl, (refl, (refl, tt))))))))))

  pub serialize_config-dumped :
      (c : VehicleConfig) → (s : Str) × (serialize_config J c ≡ some s) × (J.utf8 s ≡ true)
  unfolding serialize_config
  serialize_config-dumped c = dump-document J L 4 (config_members c) (refl, (refl, (refl, tt)))

  pub serialize_production_info-dumped :
      (i : ProductionInfo)
      → ProductionIsText J i
      → (s : Str) × (serialize_production_info J i ≡ some s) × (J.utf8 s ≡ true)
  unfolding serialize_production_info
  serialize_production_info-dumped i (date, batch, station) =
      dump-document J L 4 (production_members i) (date, (batch, (station, (refl, tt))))
