-- ===== src/Service/Atomicity.antt =====
-- What `write_vin` and `authorize_rewrite` of src/prov_service.cpp leave stored where they fail.
use iov_vehicle_tbox_prov.Base.{
  ◌≡◌, ◌≢◌, ◌⊎◌, refl, ap, Bool, Bool-cases, inl, inr, Option, some, Str, codes, arith,
}
use iov_vehicle_tbox_prov.Errors.{ErrorCode, success, is_success}
use iov_vehicle_tbox_prov.Types.{VehicleBinding, bound}
use iov_vehicle_tbox_prov.Json.{JsonLibrary, IsLawful}
use iov_vehicle_tbox_prov.Store.{Store}
use iov_vehicle_tbox_prov.Store.Whole.{IsWhole, save-IsWhole}
use iov_vehicle_tbox_prov.Storage
use iov_vehicle_tbox_prov.Storage.{Storage, save_code}
use iov_vehicle_tbox_prov.Storage.Serialize.{Fits, binding_in_seconds}
use iov_vehicle_tbox_prov.Storage.Whole.{guarded_write-IsWhole, binding_whole}
use iov_vehicle_tbox_prov.Storage.Laws.{load-guarded_write, binding-cong, load-set_write_protection}
use iov_vehicle_tbox_prov.Service.Actions.{Service, LogEvent, logged}
use iov_vehicle_tbox_prov.Service.Rules.{Keeps}
use iov_vehicle_tbox_prov.Service.Writes.{
  establish-Keeps, verify_write-Keeps, write_vin-Keeps_only, authorize_rewrite-Keeps_only,
}
use iov_vehicle_tbox_prov.Service.Completion.{new_binding-Fits, vin-new_binding}
use iov_vehicle_tbox_prov.Service.{
  Inputs, new_binding, on_storage, establish_binding, verify_write, set_write_protection, write_vin,
  authorize_rewrite,
}

module _ (J : JsonLibrary) (st : Store) (L : IsLawful J) where
  weather-IsWhole :
      (b : VehicleBinding) (s : Storage)
      → IsWhole s.disk.weather
      → IsWhole (Storage.write_vehicle_binding J st b s).1.disk.weather
  unfolding Storage.write_vehicle_binding
  weather-IsWhole b s whole =
      guarded_write-IsWhole J st L (codes "binding") (Storage.serialize_binding J b) s whole

  unwritten :
      (b : VehicleBinding) (s : Storage)
      → (Storage.write_vehicle_binding J st b s).0 ≢ success
      → Storage.read_vehicle_binding J st (Storage.write_vehicle_binding J st b s).1
        ≡ Storage.read_vehicle_binding J st s
  unfolding Storage.write_vehicle_binding
  unwritten b s fails = binding-cong J st s _ (
      load-guarded_write J st (codes "binding") (Storage.serialize_binding J b) s (codes "binding")
        (inl fails))

  -- A predicate on what is stored, which holds of every binding of the VIN.
  module _ (vin : Str) (H : Option VehicleBinding → Type 0)
      (fresh : (b : VehicleBinding) → b.vin ≡ vin → H (some b)) where
    -- It holds of what the storage holds, on a device that takes a text whole or not at all.
    unfoldable pub Holds : Service → Type 0
    Holds s = IsWhole s.storage.disk.weather × H (Storage.read_vehicle_binding J st s.storage)

    abbrev IsNew : VehicleBinding → Type 0
    IsNew b = (b.vin ≡ vin) × Fits b

    log-Holds : (e : LogEvent) (s : Service) → Holds s → Holds (logged e s)
    unfolding Holds
    log-Holds e s h = h

    write-Holds :
        (b : VehicleBinding) (c : ErrorCode)
        → IsNew b
        → Keeps Holds (on_storage J st (Storage.write_vehicle_binding J st b) c)
    unfolding Holds on_storage
    write-Holds b c (v, f) = record {
      at = λ s (whole, h). (
        weather-IsWhole b s.storage whole,
        elim (Bool-cases (is_success (Storage.write_vehicle_binding J st b s.storage).0)) [
          | inl ok ↦
              rw (binding_whole J st L b s.storage f whole (ground (arith, ok)))
                (fresh (binding_in_seconds b) v)
          | inr fails ↦ rw (unwritten b s.storage (λ e. cc (ap is_success e, fails))) h
        ],
      );
    }

    protect-Holds : (p : Bool) → Keeps Holds (set_write_protection J st p)
    unfolding Holds set_write_protection Storage.set_write_protection
    protect-Holds p = record {
      at = λ s (whole, h). (
        save-IsWhole J st (codes "protection") _ s.storage.disk whole,
        rw
            (binding-cong J st s.storage (Storage.set_write_protection J st p s.storage).1
              (load-set_write_protection J st p s.storage (codes "binding") refl))
            h,
      );
    }

    new_binding-IsNew :
        (i : Inputs) (uid : Str) (o : Option VehicleBinding) → IsNew (new_binding i vin uid o)
    new_binding-IsNew i uid o =
        (vin-new_binding J st L i vin uid o, new_binding-Fits J st L i vin uid o)

    bound-IsNew : (b : VehicleBinding) → IsNew b → IsNew (record b { state = bound })
    bound-IsNew b (v, f) = (v, record { state = tt; retries = f.retries; rewrites = f.rewrites })

    pub establish_binding-Holds :
        (i : Inputs) (uid : Str) → Keeps Holds (establish_binding J st i vin uid)
    establish_binding-Holds i uid =
        establish-Keeps J st vin log-Holds new_binding-IsNew bound-IsNew write-Holds protect-Holds i
          uid

    pub verify_write-Holds : Keeps Holds (verify_write J st vin)
    verify_write-Holds =
        verify_write-Keeps J st vin log-Holds new_binding-IsNew bound-IsNew write-Holds
          protect-Holds

    pub write_vin-Holds : (i : Inputs) → Keeps Holds (write_vin J st i vin)
    write_vin-Holds i =
        write_vin-Keeps_only J st vin log-Holds new_binding-IsNew bound-IsNew write-Holds
          protect-Holds i

    pub authorize_rewrite-Holds : (i : Inputs) → Keeps Holds (authorize_rewrite J st i vin)
    authorize_rewrite-Holds i =
        authorize_rewrite-Keeps_only J st vin log-Holds new_binding-IsNew bound-IsNew write-Holds
          protect-Holds i

  module _ (vin : Str) (s₀ : Service) where
    -- The binding is that of before, or one of the VIN.
    abbrev IsOldOrNew : Option VehicleBinding → Type 0
    IsOldOrNew o =
        (o ≡ Storage.read_vehicle_binding J st s₀.storage)
        ⊎ ((b : VehicleBinding) × (o ≡ some b) × (b.vin ≡ vin))

    abbrev pub IsEither : Storage → Type 0
    IsEither t = IsOldOrNew (Storage.read_vehicle_binding J st t)

    -- Let the device take a text whole or not at all, and fail in any other way. After `write_vin`
    -- or `authorize_rewrite` of a VIN, whatever they return, the stored binding is that of before,
    -- or one of that VIN.
    pub write_vin-IsEither :
        (i : Inputs)
        → IsWhole s₀.storage.disk.weather
        → IsEither (write_vin J st i vin s₀).1.storage
          × IsEither (authorize_rewrite J st i vin s₀).1.storage
    unfolding Holds
    write_vin-IsEither i whole = (
      ((write_vin-Holds vin IsOldOrNew (λ b v. inr (b, refl, v)) i).at s₀ (whole, inl refl)).1,
      ((authorize_rewrite-Holds vin IsOldOrNew (λ b v. inr (b, refl, v)) i).at s₀
          (whole, inl refl)).1,
    )
