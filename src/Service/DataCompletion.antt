-- ===== src/Service/DataCompletion.antt =====
-- `write_vehicle_config` and `write_production_info` of src/prov_service.cpp on a device without
-- faults.
use iov_vehicle_tbox_prov.Base.{◌≡◌, refl, ◌∙◌, true, false, some, List, ℕ, str_eq_refl}
use iov_vehicle_tbox_prov.Errors.{
  ErrorCode, success, config_write_failed, production_info_write_failed,
}
use iov_vehicle_tbox_prov.Types.{VehicleConfig, ProductionInfo}
use iov_vehicle_tbox_prov.Json.{JsonLibrary, IsLawful}
use iov_vehicle_tbox_prov.Store.{Store, next_event}
use iov_vehicle_tbox_prov.Storage
use iov_vehicle_tbox_prov.Storage.Serialize.{
  ProductionIsText, config_in_seconds, production_in_seconds,
}
use iov_vehicle_tbox_prov.Storage.Laws.{
  read-write_vehicle_config, read-write_production_info, weather-write_vehicle_config,
  weather-write_production_info, protected-write_vehicle_config, protected-write_production_info,
}
use iov_vehicle_tbox_prov.Service.Actions.{Service, guard}
use iov_vehicle_tbox_prov.Service.Rules.{Total, Total-▸, Total-on_failure, Total-guard}
use iov_vehicle_tbox_prov.Service.Completion.{IsCalm}
use iov_vehicle_tbox_prov.Service.{
  Inputs, is_ready, is_running, is_unprotected, on_storage, readback_config, mark_verified,
  readback_production, write_vehicle_config, write_production_info,
}

module _ (J : JsonLibrary) (st : Store) (L : IsLawful J) where
  -- Initialized, not shutting down, and calm.
  pub record IsOpen (s : Service) : Type 0 where
    pub ready : s.initialized ≡ true
    pub running : s.shutting_down ≡ false
    pub calm : IsCalm J st L s

  -- Calm, with these data in the storage.
  pub record HasConfig (c : VehicleConfig) (s : Service) : Type 0 where
    pub calm : IsCalm J st L s
    pub there : Storage.read_vehicle_config J st s.storage ≡ some c

  pub record HasProduction (p : ProductionInfo) (s : Service) : Type 0 where
    pub calm : IsCalm J st L s
    pub there : Storage.read_production_info J st s.storage ≡ some p

  ready_calm : (c : ErrorCode) → Total IsOpen (guard is_ready c) IsOpen
  unfolding is_ready
  ready_calm c = Total-guard is_ready c (λ s o. (o.ready, o))

  running_calm : (c : ErrorCode) → Total IsOpen (guard is_running c) IsOpen
  unfolding is_running
  running_calm c = Total-guard is_running c (λ s o. (rw o.running refl, o))

  unprotected_calm : (c : ErrorCode) → Total IsOpen (guard is_unprotected c) (IsCalm J st L)
  unfolding is_unprotected
  unprotected_calm c = Total-guard is_unprotected c (λ s o. (rw o.calm.unprotected refl, o.calm))

  config_calm :
      (c : VehicleConfig) (s : Service)
      → IsCalm J st L s
      → ((Storage.write_vehicle_config J st c s.storage).0 ≡ success)
        × HasConfig
            (config_in_seconds c)
            (record s { storage = (Storage.write_vehicle_config J st c s.storage).1 })
  config_calm c s calm =
      let (ok, there) =
        read-write_vehicle_config J st L c s.storage calm.unprotected
          (rw (calm.weather, next_event) refl) in
      (
        ok,
        record {
          calm = record {
            unprotected = protected-write_vehicle_config J st c s.storage ∙ calm.unprotected;
            weather = weather-write_vehicle_config J st c s.storage calm.weather;
          };
          there = there;
        },
      )

  store_config_calm :
      (c : VehicleConfig)
      → Total
          (IsCalm J st L)
          (on_storage J st (Storage.write_vehicle_config J st c) config_write_failed)
          (HasConfig (config_in_seconds c))
  unfolding on_storage
  store_config_calm c = record {
    runs = λ s calm. let (ok, has) = config_calm c s calm in (rw ok refl, has);
  }

  readback_config_calm :
      (c : VehicleConfig)
      → Total (HasConfig c) (readback_config J st c.variant_coding) (HasConfig c)
  unfolding readback_config
  readback_config_calm c = record { runs = λ s h. (simp (h.there, str_eq_refl) refl, h) }

  mark_verified_calm :
      (b c : VehicleConfig)
      → Total
          (HasConfig b)
          (mark_verified J st c)
          (HasConfig (config_in_seconds (record c { verified = true })))
  unfolding mark_verified
  mark_verified_calm b c = record {
    runs = λ s h. (refl, (config_calm (record c { verified = true }) s h.calm).1);
  }

  -- What `write_vehicle_config` leaves.
  abbrev pub verified_config : Inputs → List ℕ → VehicleConfig
  verified_config i config_data =
      config_in_seconds
        (record { variant_coding = config_data; written_at = i.clock 0; verified = true })

  -- With no fault ahead and an unprotected storage, `write_vehicle_config` on an initialized
  -- service that is not shutting down returns SUCCESS for any bytes. The storage then holds them,
  -- marked as verified, with the time of the call in whole seconds, and is unprotected with no
  -- fault ahead.
  pub write_vehicle_config_completes :
      (i : Inputs) (config_data : List ℕ) (s : Service)
      → IsOpen s
      → ((write_vehicle_config J st i config_data s).0 ≡ success)
        × HasConfig (verified_config i config_data) (write_vehicle_config J st i config_data s).1
  unfolding write_vehicle_config
  write_vehicle_config_completes i config_data s open' =
      let c : VehicleConfig = record {
        variant_coding = config_data;
        written_at = i.clock 0;
        verified = false;
      } in
      (Total-▸ _ _ (ready_calm _) (
          Total-▸ _ _ (running_calm _) (
            Total-▸ _ _ (unprotected_calm _) (
              Total-▸ _ _
                (Total-on_failure _ _
                  (Total-▸ _ _ (store_config_calm c) (readback_config_calm (config_in_seconds c))))
                (mark_verified_calm (config_in_seconds c) c))))).runs
        s open'

  store_production_calm :
      (p : ProductionInfo)
      → ProductionIsText J p
      → Total
          (IsCalm J st L)
          (on_storage J st (Storage.write_production_info J st p) production_info_write_failed)
          (HasProduction (production_in_seconds p))
  unfolding on_storage
  store_production_calm p text = record {
    runs = λ s calm.
        let (ok, there) =
          read-write_production_info J st L p s.storage text calm.unprotected
            (rw (calm.weather, next_event) refl) in
        (
          rw ok refl,
          record {
            calm = record {
              unprotected = protected-write_production_info J st p s.storage ∙ calm.unprotected;
              weather = weather-write_production_info J st p s.storage calm.weather;
            };
            there = there;
          },
        );
  }

  readback_production_calm :
      (p : ProductionInfo) (t : ℕ)
      → Total
          (HasProduction (record p { written_at = t }))
          (readback_production J st p)
          (HasProduction (record p { written_at = t }))
  unfolding readback_production
  readback_production_calm p t = record { runs = λ s h. (simp (h.there, str_eq_refl) refl, h) }

  -- With no fault ahead and an unprotected storage, `write_production_info` of texts in UTF-8 on
  -- an initialized service that is not shutting down returns SUCCESS. The storage then holds them
  -- with the time of the call in whole seconds, and is unprotected with no fault ahead.
  pub write_production_info_completes :
      (i : Inputs) (p : ProductionInfo) (s : Service)
      → ProductionIsText J p
      → IsOpen s
      → ((write_production_info J st i p s).0 ≡ success)
        × HasProduction
            (production_in_seconds (record p { written_at = i.clock 0 }))
            (write_production_info J st i p s).1
  unfolding write_production_info
  write_production_info_completes i p s text open' =
      (Total-▸ _ _ (ready_calm _) (
          Total-▸ _ _ (running_calm _) (
            Total-▸ _ _ (unprotected_calm _) (
              Total-on_failure _ _ (
                Total-▸ _ _ (store_production_calm (record p { written_at = i.clock 0 }) text)
                  (readback_production_calm p _)))))).runs
        s open'
