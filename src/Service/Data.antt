-- ===== src/Service/Data.antt =====
-- `write_vehicle_config` and `write_production_info` of src/prov_service.cpp.
use iov_vehicle_tbox_prov.Base.{
  ◌≡◌, ◌≢◌, sym, ap, ◌∙◌, Bool, true, Option-cases, inl, inr, some, List, [], ℕ, str_eq, str_eq_iff,
  arith,
}
use iov_vehicle_tbox_prov.Errors.{ErrorCode, success, invalid_state, security_access_not_granted}
use iov_vehicle_tbox_prov.Types.{ProductionInfo}
use iov_vehicle_tbox_prov.Json.{JsonLibrary}
use iov_vehicle_tbox_prov.Store.{Store}
use iov_vehicle_tbox_prov.Storage
use iov_vehicle_tbox_prov.Storage.{Storage}
use iov_vehicle_tbox_prov.Service.Actions.{Service, guard}
use iov_vehicle_tbox_prov.Service.Isolation.{writes_keep_others}
use iov_vehicle_tbox_prov.Service.Rules.{Triple, Triple-▸, Triple-on_failure, Triple-guard}
use iov_vehicle_tbox_prov.Service.{
  Inputs, is_ready, is_running, is_unprotected, production_readback, readback_production,
  write_vehicle_config, write_production_info,
}

module _ (J : JsonLibrary) (st : Store) where
  -- Writing configuration or production data leaves the stored binding as it is, on every branch and
  -- whatever goes wrong on the device.
  pub data_writes_keep_binding :
      (i : Inputs) (config_data : List ℕ) (p : ProductionInfo) (s : Service)
      → (Storage.read_vehicle_binding J st (write_vehicle_config J st i config_data s).1.storage
          ≡ Storage.read_vehicle_binding J st s.storage)
        × (Storage.read_vehicle_binding J st (write_production_info J st i p s).1.storage
            ≡ Storage.read_vehicle_binding J st s.storage)
  data_writes_keep_binding i config_data p s =
      let (_, _, _, _, config, _, production, _) = writes_keep_others J st i [] config_data p s in
      (config, production)

  -- The storage holds production data of those three texts.
  HasProduction : ProductionInfo → Service → Type 0
  HasProduction p s =
      (q : ProductionInfo) × (Storage.read_production_info J st s.storage ≡ some q)
      × (q.production_date ≡ p.production_date)
      × (q.batch_num ≡ p.batch_num)
      × (q.station_id ≡ p.station_id)

  Any : Service → Type 0
  Any s = Unit

  production_readback-success :
      (p q : ProductionInfo)
      → production_readback p (some q) ≡ success
      → (str_eq q.production_date p.production_date ≡ true)
        × (str_eq q.batch_num p.batch_num ≡ true)
        × (str_eq q.station_id p.station_id ≡ true)
  production_readback-success p q h = ground (arith, h)

  readback_production-success :
      (p : ProductionInfo) (s : Service)
      → (readback_production J st p s).0 ≡ success
      → HasProduction p (readback_production J st p s).1
  unfolding readback_production HasProduction
  readback_production-success p s h =
      elim (Option-cases (Storage.read_production_info J st s.storage)) [
        | inl e ↦ absurd (ground (arith, h, e))
        | inr (q, e) ↦
            let (date, batch, station) =
              production_readback-success p q (sym (ap (production_readback p) e) ∙ h) in
            (
              q,
              e,
              (str_eq_iff q.production_date p.production_date).0 date,
              (str_eq_iff q.batch_num p.batch_num).0 batch,
              (str_eq_iff q.station_id p.station_id).0 station,
            )
      ]

  write_production-Triple :
      (i : Inputs) (p : ProductionInfo)
      → Triple Any (write_production_info J st i p) (HasProduction p)
  unfolding write_production_info Any
  write_production-Triple i p = Triple-▸ _ _ (gate is_ready invalid_state (λ e. cc)) (
      Triple-▸ _ _ (gate is_running invalid_state (λ e. cc)) (
        Triple-▸ _ _ (gate is_unprotected security_access_not_granted (λ e. cc)) (
          Triple-on_failure _ _ (
            Triple-▸ {R = Any} _ _ (record { holds = λ s a h. tt })
              (record { holds = λ s a h. readback_production-success p s h })))))
    where
      gate : (test : Service → Bool) (c : ErrorCode) → c ≢ success → Triple Any (guard test c) Any
      gate test c ne = Triple-guard test c ne (λ s a e. a)

  -- If `write_production_info` returns SUCCESS, the storage holds production data of the same date,
  -- batch and station, whatever went wrong on the device meanwhile.
  pub write_production_info-success :
      (i : Inputs) (p : ProductionInfo) (s : Service)
      → (write_production_info J st i p s).0 ≡ success
      → (q : ProductionInfo) × (Storage.read_production_info J st
            (write_production_info J st i p s).1.storage
          ≡ some q)
        × (q.production_date ≡ p.production_date)
        × (q.batch_num ≡ p.batch_num)
        × (q.station_id ≡ p.station_id)
  unfolding HasProduction Any
  write_production_info-success i p s h = (write_production-Triple i p).holds s tt h
