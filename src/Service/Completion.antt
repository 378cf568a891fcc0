-- ===== src/Service/Completion.antt =====
-- `execute_vin_binding_flow` of src/prov_service.cpp on a device without faults.
use iov_vehicle_tbox_prov.Base.{
  ◌≡◌, ◌⊎◌, refl, sym, ap, ◌∙◌, Bool, true, false, inl, inr, Option, none, some, [], Str,
  str_eq_refl, codes, arith,
}
use iov_vehicle_tbox_prov.Errors.{ErrorCode, success, vin_write_failed}
use iov_vehicle_tbox_prov.Types.{VehicleBinding, bound}
use iov_vehicle_tbox_prov.Vin
use iov_vehicle_tbox_prov.Vin.Spec.{validate-is_ascii}
use iov_vehicle_tbox_prov.Json.{JsonLibrary, IsLawful}
use iov_vehicle_tbox_prov.Store.{Store, next_event, load}
use iov_vehicle_tbox_prov.Storage
use iov_vehicle_tbox_prov.Storage.{Storage, protection_text}
use iov_vehicle_tbox_prov.Storage.Serialize.{Fits, BindingIsText, binding_in_seconds}
use iov_vehicle_tbox_prov.Storage.Laws.{
  read-write_vehicle_binding, weather-write_vehicle_binding, protected-write_vehicle_binding,
  set_write_protection_calm, binding-cong, weather-set_write_protection, load-set_write_protection,
  protected-set_write_protection,
}
use iov_vehicle_tbox_prov.Service.Actions.{Service, Action, LogEvent, logged, when}
use iov_vehicle_tbox_prov.Service.Rules.{▸-continue, Total, Total-▸, Total-on_failure}
use iov_vehicle_tbox_prov.Service.Gates.{write_vin_open, flow_open}
use iov_vehicle_tbox_prov.Service.{
  Inputs, new_binding, on_storage, store_binding, establish_binding, verify_write,
  set_write_protection, bind_vin, write_vin,
}

module _ (J : JsonLibrary) (st : Store) (L : IsLawful J) where
  -- An unprotected storage with no fault ahead.
  pub record IsCalm (s : Service) : Type 0 where
    pub unprotected : s.storage.write_protected ≡ false
    pub weather : s.storage.disk.weather ≡ []

  record Stored (b : VehicleBinding) (s : Service) : Type 0 where
    calm : IsCalm s
    there : Storage.read_vehicle_binding J st s.storage ≡ some b

  on_storage-success :
      (call : Storage → ErrorCode × Storage) (c : ErrorCode) (s : Service)
      → (call s.storage).0 ≡ success
      → on_storage J st call c s ≡ (success, record s { storage = (call s.storage).1 })
  unfolding on_storage
  on_storage-success call c s h = rw h refl

  abbrev write : VehicleBinding → ErrorCode → Action
  write b c = on_storage J st (Storage.write_vehicle_binding J st b) c

  write_calm :
      (b : VehicleBinding) (c : ErrorCode) (s : Service)
      → Fits b
      → BindingIsText J b
      → IsCalm s
      → ((write b c s).0 ≡ success) × Stored (binding_in_seconds b) (write b c s).1
  write_calm b c s f t calm =
      let (ok, there) =
        read-write_vehicle_binding J st L b s.storage f t calm.unprotected
          (rw (calm.weather, next_event) refl) in
      rw (on_storage-success (Storage.write_vehicle_binding J st b) c s ok) (
        refl,
        record {
          calm = record {
            unprotected = protected-write_vehicle_binding J st b s.storage ∙ calm.unprotected;
            weather = weather-write_vehicle_binding J st b s.storage calm.weather;
          };
          there = there;
        },
      )

  -- Both writes of `establish_binding`.
  store_binding_calm :
      (b : VehicleBinding) (s : Service)
      → Fits b
      → BindingIsText J b
      → IsCalm s
      → ((store_binding J st b s).0 ≡ success)
        × Stored (binding_in_seconds (record b { state = bound })) (store_binding J st b s).1
  unfolding store_binding
  store_binding_calm b s f t calm =
      let (ok₁, stored₁) = write_calm b vin_write_failed s f t calm in
      let b' : VehicleBinding = record b { state = bound } in
      let f' : Fits b' = record { state = tt; retries = f.retries; rewrites = f.rewrites } in
      let (ok₂, stored₂) =
        write_calm b' vin_write_failed (write b vin_write_failed s).1 f' t stored₁.calm in
      rw
        (
          ▸-continue (write b vin_write_failed) _ s ok₁,
          ▸-continue (write b' vin_write_failed) _ (write b vin_write_failed s).1 ok₂,
        )
        (
          refl,
          record {
            calm = record {
              unprotected = stored₂.calm.unprotected;
              weather = stored₂.calm.weather;
            };
            there = stored₂.there;
          },
        )

  verify_write-Stored :
      (b : VehicleBinding) (s : Service) → Stored b s → verify_write J st b.vin s ≡ (success, s)
  unfolding verify_write
  verify_write-Stored b s h = simp (h.there, str_eq_refl)

  -- The state that a completed write leaves.
  pub record Completed (protect : Bool) (b : VehicleBinding) (s : Service) : Type 0 where
    pub there : Storage.read_vehicle_binding J st s.storage ≡ some b
    pub protection : s.storage.write_protected ≡ protect
    pub persisted :
        (protect ≡ false)
        ⊎ (load J st (codes "protection") s.storage.disk ≡ some (protection_text true))
    pub weather : s.storage.disk.weather ≡ []

  protect_calm :
      (protect : Bool) (b : VehicleBinding) (s : Service)
      → Stored b s
      → ((when protect (set_write_protection J st true) s).0 ≡ success)
        × Completed protect b (when protect (set_write_protection J st true) s).1
  unfolding when set_write_protection
  protect_calm true b s h =
      let (ok, kept) =
        set_write_protection_calm J st L true s.storage (rw (h.calm.weather, next_event) refl) in
      (
        ok,
        record {
          there =
              binding-cong J st s.storage _
                (load-set_write_protection J st true s.storage (codes "binding") refl)
              ∙ h.there;
          protection = protected-set_write_protection J st true s.storage ok;
          persisted = inr kept;
          weather = weather-set_write_protection J st true s.storage h.calm.weather;
        },
      )
  protect_calm false b s h = (
    refl,
    record {
      there = h.there;
      protection = h.calm.unprotected;
      persisted = inl refl;
      weather = h.calm.weather;
    },
  )

  logged_calm :
      (p : Bool) (b : VehicleBinding) (e : LogEvent)
      → Total (Completed p b) (λ t. (success, logged e t)) (Completed p b)
  logged_calm p b e = record {
    runs = λ s h. (
      refl,
      record {
        there = h.there;
        protection = h.protection;
        persisted = h.persisted;
        weather = h.weather;
      },
    );
  }

  pub new_binding-Fits :
      (i : Inputs) (vin uid : Str) (o : Option VehicleBinding) → Fits (new_binding i vin uid o)
  unfolding new_binding
  new_binding-Fits i vin uid none = record {
    state = tt;
    retries = omega arith;
    rewrites = omega arith;
  }
  new_binding-Fits i vin uid (some b) = record {
    state = tt;
    retries = omega arith;
    rewrites = ground arith;
  }

  new_binding-BindingIsText :
      (i : Inputs) (vin uid : Str) (o : Option VehicleBinding)
      → J.utf8 vin ≡ true
      → J.utf8 uid ≡ true
      → BindingIsText J (new_binding i vin uid o)
  unfolding new_binding
  new_binding-BindingIsText i vin uid none v u = (v, u, L.utf8-ascii [] refl, L.utf8-ascii [] refl)
  new_binding-BindingIsText i vin uid (some b) v u =
      (v, u, L.utf8-ascii [] refl, L.utf8-ascii [] refl)

  pub vin-new_binding :
      (i : Inputs) (vin uid : Str) (o : Option VehicleBinding) → (new_binding i vin uid o).vin ≡ vin
  unfolding new_binding
  vin-new_binding i vin uid none = refl
  vin-new_binding i vin uid (some b) = refl

  -- The binding that a write leaves: that of `establish_binding` in the state BOUND, with times
  -- in whole seconds.
  abbrev pub final_binding : Inputs → Str → Str → Option VehicleBinding → VehicleBinding
  final_binding i vin uid existing =
      binding_in_seconds (record (new_binding i vin uid existing) { state = bound })

  module _ (i : Inputs) (vin uid : Str) (utf8_vin : J.utf8 vin ≡ true)
      (utf8_uid : J.utf8 uid ≡ true) where
    module _ (existing : Option VehicleBinding) where
      -- A calm state that holds that binding.
      abbrev Before : Service → Type 0
      Before s = IsCalm s × (Storage.read_vehicle_binding J st s.storage ≡ existing)

      establish_calm :
          Total Before
            (establish_binding J st i vin uid)
            (Stored (final_binding i vin uid existing))
      unfolding establish_binding
      establish_calm = record {
        runs = λ s (calm, e). rw e (
            store_binding_calm (new_binding i vin uid existing) s
              (new_binding-Fits i vin uid existing)
              (new_binding-BindingIsText i vin uid existing utf8_vin utf8_uid) calm);
      }

      verify_calm :
          Total
            (Stored (final_binding i vin uid existing))
            (verify_write J st vin)
            (Stored (final_binding i vin uid existing))
      verify_calm = record {
        runs = λ s h.
            rw
              (ap (λ v. verify_write J st v s) (sym (vin-new_binding i vin uid existing))
                ∙ verify_write-Stored (final_binding i vin uid existing) s h)
              (refl, h);
      }

      bind_vin_calm :
          (p : Bool)
          → Total Before
              (bind_vin J st p i vin uid)
              (Completed p (final_binding i vin uid existing))
      unfolding bind_vin
      bind_vin_calm p = Total-▸ _ _ (Total-on_failure _ _ establish_calm) (
          Total-▸ _ _ (Total-on_failure _ _ verify_calm) (
            Total-▸ _ _ (record { runs = protect_calm p (final_binding i vin uid existing) })
              (logged_calm p (final_binding i vin uid existing) _)))

  -- With no fault ahead and an unprotected storage, `write_vin` of a valid VIN on an initialized
  -- service that is not shutting down returns SUCCESS if the UID is read and is UTF-8. What is
  -- stored then is the binding of the VIN and that UID in the state BOUND, and the storage is
  -- protected, on the disk too, exactly if that is enabled.
  pub write_vin_completes :
      (i : Inputs) (vin : Str) (s : Service)
      → s.initialized ≡ true
      → s.shutting_down ≡ false
      → IsCalm s
      → Vin.validate vin ≡ true
      → i.uid.succeeded ≡ true
      → J.utf8 i.uid.uid ≡ true
      → ((write_vin J st i vin s).0 ≡ success)
        × Completed s.config.enable_write_protection
            (final_binding i vin i.uid.uid (Storage.read_vehicle_binding J st s.storage))
            (write_vin J st i vin s).1
  write_vin_completes i vin s ready running calm valid uid text =
      rw (write_vin_open J st i vin s ready running valid, flow_open J st i vin s uid)
        ((bind_vin_calm i vin i.uid.uid (L.utf8-ascii vin (validate-is_ascii vin valid)) text
            (Storage.read_vehicle_binding J st s.storage) s.config.enable_write_protection).runs
          s (calm, refl))
