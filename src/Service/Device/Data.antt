-- ===== src/Service/Device/Data.antt =====
-- `write_vehicle_config` and `write_production_info` of src/prov_service.cpp against the device.
use iov_vehicle_tbox_prov.Base.{
  ◌≡◌, refl, sym, ap, ◌∙◌, Bool, true, false, Bool-cases, inl, inr, some, List, [], ℕ,
}
use iov_vehicle_tbox_prov.Errors.{ErrorCode, success, invalid_state, security_access_not_granted}
use iov_vehicle_tbox_prov.Types.{ProductionInfo}
use iov_vehicle_tbox_prov.Json.{JsonLibrary, IsLawful}
use iov_vehicle_tbox_prov.Store.{Store}
use iov_vehicle_tbox_prov.Storage
use iov_vehicle_tbox_prov.Storage.Serialize.{ProductionIsText}
use iov_vehicle_tbox_prov.Service.{Inputs, write_vehicle_config, write_production_info}
use iov_vehicle_tbox_prov.Service.Actions.{Service, ServiceConfig}
use iov_vehicle_tbox_prov.Service.Frame.{
  SameFrame, SameFrame-refl, write_vehicle_config-SameFrame, write_production_info-SameFrame,
}
use iov_vehicle_tbox_prov.Service.Gates.{writes_after_shutdown, data_writes_protected}
use iov_vehicle_tbox_prov.Service.Completion.{IsCalm}
use iov_vehicle_tbox_prov.Service.DataCompletion.{
  IsOpen, write_vehicle_config_completes, write_production_info_completes,
}
use iov_vehicle_tbox_prov.Service.Isolation.{writes_keep_others}
use iov_vehicle_tbox_prov.Service.Requests.{no_info}
use iov_vehicle_tbox_prov.Service.Device.{Device, take_data}
use iov_vehicle_tbox_prov.Service.Device.View.{
  view, IsSound, Refines, unchanged-Refines, shows, vin_of, bytes_of, texts_of,
}

module _ (changed d : Device) where
  take_data_down : d.down ≡ true → take_data changed d ≡ (invalid_state, d)
  unfolding take_data
  take_data_down down = simp down refl

  take_data_locked :
      d.down ≡ false → d.protected ≡ true → take_data changed d ≡ (security_access_not_granted, d)
  unfolding take_data
  take_data_locked running locked = simp (running, locked) refl

  take_data_taken : d.down ≡ false → d.protected ≡ false → take_data changed d ≡ (success, changed)
  unfolding take_data
  take_data_taken running open' = simp (running, open') refl

module _ (J : JsonLibrary) (st : Store) (L : IsLawful J) (enabled : Bool) (s : Service)
    (sound : IsSound J st enabled s) where
  -- A call that is refused while the service goes down, or by the protection, and else refines.
  gated-Refines :
      (changed : Device) (m : ErrorCode × Service)
      → (s.shutting_down ≡ true → m ≡ (invalid_state, s))
      → (s.shutting_down ≡ false
          → s.storage.write_protected ≡ true
          → m ≡ (security_access_not_granted, s))
      → (s.shutting_down ≡ false
          → s.storage.write_protected ≡ false
          → Refines J st enabled (success, changed) m)
      → Refines J st enabled (take_data changed (view J st s)) m
  gated-Refines changed m stops refuses takes = elim (Bool-cases s.shutting_down) [
    | inl down ↦ rw (take_data_down changed (view J st s) down, stops down) (same _)
    | inr running ↦ elim (Bool-cases s.storage.write_protected) [
      | inl locked ↦
          rw (take_data_locked changed (view J st s) running locked, refuses running locked)
            (same _)
      | inr open' ↦ rw (take_data_taken changed (view J st s) running open') (takes running open')
    ]
  ]
    where
      same : (c : ErrorCode) → Refines J st enabled (c, view J st s) (c, s)
      same c = unchanged-Refines J st enabled s c (c, s) sound refl refl (SameFrame-refl s)

  -- A write of data that is taken: a device without faults is left, and the frame.
  taken-Refines :
      (m : ErrorCode × Service) (changed : Device)
      → m.0 ≡ success
      → view J st m.1 ≡ changed
      → SameFrame s m.1
      → IsCalm J st L m.1
      → Storage.read_vehicle_binding J st m.1.storage ≡ Storage.read_vehicle_binding J st s.storage
      → Refines J st enabled (success, changed) m
  taken-Refines m changed ok device frame calm binding = record {
    code = ok;
    device = device;
    sound = record {
      ready = frame.initialized ∙ sound.ready;
      enables = ap (λ (k : ServiceConfig). k.enable_write_protection) frame.config ∙ sound.enables;
      weather = calm.weather;
      unlocked = rw binding sound.unlocked;
    };
  }

  running-IsOpen : s.shutting_down ≡ false → s.storage.write_protected ≡ false → IsOpen J st L s
  running-IsOpen running open' = record {
    ready = sound.ready;
    running = running;
    calm = record { unprotected = open'; weather = sound.weather };
  }

  pub write_vehicle_config-Refines :
      (i : Inputs) (bytes : List ℕ)
      → Refines J st enabled
          (take_data (record (view J st s) { config_data = some bytes }) (view J st s))
          (write_vehicle_config J st i bytes s)
  write_vehicle_config-Refines i bytes =
      gated-Refines _ _ (λ down. (writes_after_shutdown J st i [] bytes no_info s down).2)
        (λ running locked.
          (data_writes_protected J st i bytes no_info s sound.ready running locked).0)
        (λ running open'.
          let frame = (write_vehicle_config-SameFrame J st s i bytes).at s (SameFrame-refl s) in
          let (ok, has) =
            write_vehicle_config_completes J st L i bytes s (running-IsOpen running open') in
          let (_, _, _, _, binding, production, _, _) =
            writes_keep_others J st i [] bytes no_info s in
          taken-Refines _ _ ok
            (shows J st (write_vehicle_config J st i bytes s).1 _ (ap vin_of binding)
              (ap bytes_of has.there) (ap texts_of production) (has.calm.unprotected ∙ sym open')
              frame.shutting_down)
            frame has.calm binding)

  pub write_production_info-Refines :
      (i : Inputs) (p : ProductionInfo)
      → ProductionIsText J p
      → Refines J st enabled
          (take_data
            (record (view J st s) {
              production = some (p.production_date, p.batch_num, p.station_id);
            })
            (view J st s))
          (write_production_info J st i p s)
  write_production_info-Refines i p text =
      gated-Refines _ _ (λ down. (writes_after_shutdown J st i [] [] p s down).3)
        (λ running locked. (data_writes_protected J st i [] p s sound.ready running locked).1)
        (λ running open'.
          let frame = (write_production_info-SameFrame J st s i p).at s (SameFrame-refl s) in
          let (ok, has) =
            write_production_info_completes J st L i p s text (running-IsOpen running open') in
          let (_, _, _, _, _, _, binding, config) = writes_keep_others J st i [] [] p s in
          taken-Refines _ _ ok
            (shows J st (write_production_info J st i p s).1 _ (ap vin_of binding)
              (ap bytes_of config) (ap texts_of has.there) (has.calm.unprotected ∙ sym open')
              frame.shutting_down)
            frame has.calm binding)
