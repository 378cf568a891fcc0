-- ===== src/Service/Restart.antt =====
-- `initialize` of src/prov_service.cpp over the disk that `write_vin` left.
use iov_vehicle_tbox_prov.Base.{
  ◌≡◌, ◌⊎◌, refl, Option-cases, inl, inr, Bool, true, false, some, [], Str, codes, arith,
}
use iov_vehicle_tbox_prov.Errors.{success, is_success}
use iov_vehicle_tbox_prov.Types.{VehicleBinding}
use iov_vehicle_tbox_prov.Vin
use iov_vehicle_tbox_prov.Json.{JsonLibrary, IsLawful}
use iov_vehicle_tbox_prov.Store
use iov_vehicle_tbox_prov.Store.{Store, Disk, load}
use iov_vehicle_tbox_prov.Store.Laws.{load-same_files, initialize_calm}
use iov_vehicle_tbox_prov.Storage
use iov_vehicle_tbox_prov.Storage.{Storage, protection_text}
use iov_vehicle_tbox_prov.Service.Actions.{Service, ServiceConfig}
use iov_vehicle_tbox_prov.Service.{Inputs, new_service, initialize, write_vin, read_vin}
use iov_vehicle_tbox_prov.Service.Completion.{IsCalm, write_vin_completes, vin-new_binding}

module _ (J : JsonLibrary) (st : Store) (L : IsLawful J) where
  -- A storage that is opened over a disk on which the protection is recorded.
  pub storage-initialize :
      (t : Storage)
      → t.disk.weather ≡ []
      → load J st (codes "protection") t.disk ≡ some (protection_text true)
      → ((Storage.initialize J st t).0 ≡ success)
        × ((Storage.initialize J st t).1.write_protected ≡ true)
        × ((Storage.initialize J st t).1.disk.files ≡ t.disk.files)
  unfolding Storage.initialize
  storage-initialize t calm kept =
      let (ok, files, _) = initialize_calm st t.disk calm in
      let kept' =
        load-same_files J st L (codes "protection") (protection_text true) t.disk
          (Store.initialize st t.disk).1 files kept in
      rw (ok, kept') (refl, refl, files)

  pub binding-same_files :
      (s t : Storage) (b : VehicleBinding)
      → t.disk.files ≡ s.disk.files
      → Storage.read_vehicle_binding J st s ≡ some b
      → Storage.read_vehicle_binding J st t ≡ some b
  unfolding Storage.read_vehicle_binding
  binding-same_files s t b files h = elim (Option-cases (load J st (codes "binding") s.disk)) [
    | inl e ↦ absurd (ground (arith, e, h))
    | inr (v, e) ↦
        let e' = load-same_files J st L (codes "binding") v s.disk t.disk files e in
        simp e' (simp e at h)
  ]

  pub initialize-fresh :
      (c : ServiceConfig) (d : Disk)
      → initialize J st (new_service c d) ≡ (
        (Storage.initialize J st (record { write_protected = false; disk = d })).0,
        record (new_service c d) {
          storage = (Storage.initialize J st (record { write_protected = false; disk = d })).1;
          initialized =
              is_success (Storage.initialize J st (record { write_protected = false; disk = d })).0;
        },
      )
  unfolding initialize
  initialize-fresh c d = refl

  persisted_if : (b : Bool) (P : Type 0) → b ≡ true → (b ≡ false) ⊎ P → P
  persisted_if b P h (inl off) = absurd (cc (h, off))
  persisted_if b P h (inr p) = p

  -- Let the service be initialized and not shutting down, write protection enabled, the storage
  -- unprotected with no fault ahead, the VIN valid, and the UID read and UTF-8. After `write_vin`
  -- a new process that initializes over the same disk does so with SUCCESS, is protected, and
  -- reads the same VIN, whatever its configuration.
  pub restart_protected :
      (i : Inputs) (vin : Str) (s : Service) (c : ServiceConfig)
      → s.initialized ≡ true
      → s.shutting_down ≡ false
      → s.config.enable_write_protection ≡ true
      → IsCalm J st L s
      → Vin.validate vin ≡ true
      → i.uid.succeeded ≡ true
      → J.utf8 i.uid.uid ≡ true
      → let r = initialize J st (new_service c (write_vin J st i vin s).1.storage.disk) in
        (r.0 ≡ success) × (r.1.storage.write_protected ≡ true) × (read_vin J st r.1 ≡ vin)
  unfolding read_vin
  restart_protected i vin s c ready running enabled calm valid uid text =
      let (_, done) = write_vin_completes J st L i vin s ready running calm valid uid text in
      let d = (write_vin J st i vin s).1.storage.disk in
      let t : Storage = record { write_protected = false; disk = d } in
      let (ok, locked, files) =
        storage-initialize t done.weather
          (persisted_if s.config.enable_write_protection _ enabled done.persisted) in
      let there =
        binding-same_files (write_vin J st i vin s).1.storage (Storage.initialize J st t).1 _ files
          done.there in
      rw (initialize-fresh c d) (
        simp (ok, there)
          (
            refl,
            locked,
            vin-new_binding J st L i vin i.uid.uid (Storage.read_vehicle_binding J st s.storage),
          ))
