-- ===== src/Service/Durable.antt =====
-- What a SUCCESS of `write_vin` of src/prov_service.cpp is worth after a restart, on a device that
-- takes a text whole or not at all.
use iov_vehicle_tbox_prov.Base.{
  ◌≡◌, refl, Bool, true, false, Bool-cases, inl, inr, some, [], Str, codes,
}
use iov_vehicle_tbox_prov.Errors.{success, invalid_state}
use iov_vehicle_tbox_prov.Json.{JsonLibrary, IsLawful}
use iov_vehicle_tbox_prov.Store.{Store, load}
use iov_vehicle_tbox_prov.Store.Whole.{IsWhole, load-save_whole}
use iov_vehicle_tbox_prov.Storage
use iov_vehicle_tbox_prov.Storage.{Storage, protection_text}
use iov_vehicle_tbox_prov.Storage.Laws.{save_code-success}
use iov_vehicle_tbox_prov.Service.Actions.{Service, ServiceConfig, on_failure, guard, when}
use iov_vehicle_tbox_prov.Service.Rules.{Triple, Triple-▸, Triple-on_failure, Triple-guard}
use iov_vehicle_tbox_prov.Vin
use iov_vehicle_tbox_prov.Service.Success.{IsHonest, write_vin-HasVin}
use iov_vehicle_tbox_prov.Service.Atomicity.{Holds, establish_binding-Holds, verify_write-Holds}
use iov_vehicle_tbox_prov.Service.Restart.{storage-initialize, binding-same_files, initialize-fresh}
use iov_vehicle_tbox_prov.Service.{
  Inputs, is_ready, is_running, new_service, initialize, validate_vin_format, set_write_protection,
  bind_vin, execute_vin_binding_flow, write_vin, read_vin,
}

module _ (J : JsonLibrary) (st : Store) (L : IsLawful J) (vin : Str) where
  abbrev Whole : Service → Type 0
  Whole = Holds J st L vin (λ o. Unit) (λ b v. tt)

  -- The protection is on the disk.
  abbrev Persisted : Service → Type 0
  Persisted s = load J st (codes "protection") s.storage.disk ≡ some (protection_text true)

  protect-Triple : Triple Whole (set_write_protection J st true) Persisted
  unfolding Holds set_write_protection Storage.set_write_protection
  protect-Triple = record {
    holds = λ s (whole, _) h.
        load-save_whole J st L (codes "protection") (protection_text true) s.storage.disk whole
          (save_code-success _ h);
  }

  bind_vin-Triple : (i : Inputs) (uid : Str) → Triple Whole (bind_vin J st true i vin uid) Persisted
  unfolding bind_vin when
  bind_vin-Triple i uid =
      Triple-▸ _ _
        (Triple-on_failure {Q = Whole} _ _
          (record { holds = λ s w h. (establish_binding-Holds J st L vin _ _ i uid).at s w }))
        (Triple-▸ _ _
          (Triple-on_failure {Q = Whole} _ _
            (record { holds = λ s w h. (verify_write-Holds J st L vin _ _).at s w }))
          (Triple-▸ _ _ protect-Triple (record { holds = λ s w h. w })))

  -- With write protection enabled.
  Start : Service → Type 0
  Start s = Whole s × (s.config.enable_write_protection ≡ true)

  flow-Triple :
      (i : Inputs) → IsHonest i.uid → Triple Start (execute_vin_binding_flow J st i vin) Persisted
  unfolding execute_vin_binding_flow Start
  flow-Triple i honest = record {
    holds = λ s (whole, enabled) h. elim (Bool-cases i.uid.succeeded) [
      | inl e ↦
          simp (e, enabled) ((bind_vin-Triple i i.uid.uid).holds s whole (simp (e, enabled) at h))
      | inr e ↦ absurd (honest e (simp e at h))
    ];
  }

  validate-Triple : Triple Start (validate_vin_format vin) Start
  unfolding validate_vin_format on_failure guard Start Holds
  validate-Triple = record {
    holds = λ s start h. elim (Bool-cases (Vin.validate vin)) [
      | inl valid ↦ simp valid start
      | inr invalid ↦ simp invalid start
    ];
  }

  gate-Triple : (test : Service → Bool) → Triple Start (guard test invalid_state) Start
  gate-Triple test = Triple-guard test invalid_state (λ e. cc) (λ s start _. start)

  write_vin-Persisted :
      (i : Inputs) → IsHonest i.uid → Triple Start (write_vin J st i vin) Persisted
  unfolding write_vin
  write_vin-Persisted i honest =
      Triple-▸ _ _ (gate-Triple is_ready) (
        Triple-▸ _ _ (gate-Triple is_running) (Triple-▸ _ _ validate-Triple (flow-Triple i honest)))

  -- Let the device take a text whole or not at all, and fail in any other way during `write_vin`,
  -- write protection be enabled, and the UID provider be one that fails with an error code. If
  -- `write_vin` returns SUCCESS and leaves no fault ahead, then a new process that initializes over
  -- the disk does so with SUCCESS, is protected, and reads that VIN, whatever its configuration.
  pub success_is_durable :
      (i : Inputs) (s : Service) (c : ServiceConfig)
      → IsHonest i.uid
      → s.config.enable_write_protection ≡ true
      → IsWhole s.storage.disk.weather
      → (write_vin J st i vin s).0 ≡ success
      → (write_vin J st i vin s).1.storage.disk.weather ≡ []
      → let r = initialize J st (new_service c (write_vin J st i vin s).1.storage.disk) in
        (r.0 ≡ success) × (r.1.storage.write_protected ≡ true) × (read_vin J st r.1 ≡ vin)
  unfolding read_vin Start Holds
  success_is_durable i s c honest enabled whole ok calm =
      let persisted = (write_vin-Persisted i honest).holds s ((whole, tt), enabled) ok in
      let d = (write_vin J st i vin s).1.storage.disk in
      let t : Storage = record { write_protected = false; disk = d } in
      let (opened, locked, files) = storage-initialize J st L t calm persisted in
      let (b, there, same) = write_vin-HasVin J st i vin s honest ok in
      let kept =
        binding-same_files J st L (write_vin J st i vin s).1.storage (Storage.initialize J st t).1 b
          files there in
      rw (initialize-fresh J st L c d) (simp (opened, kept) (refl, locked, same))
