-- ===== src/Service/Device/Vins.antt =====
-- `write_vin` and `authorize_rewrite` of src/prov_service.cpp against the device.
use iov_vehicle_tbox_prov.Base.{
  ◌≡◌, refl, ap, ◌∙◌, Bool, true, false, Bool-cases, inl, inr, Option, none, some, [], Str,
}
use iov_vehicle_tbox_prov.Errors.{
  ErrorCode, success, invalid_vin_format, vin_write_failed, invalid_state,
}
use iov_vehicle_tbox_prov.Types.{VehicleBinding}
use iov_vehicle_tbox_prov.Vin
use iov_vehicle_tbox_prov.Json.{JsonLibrary, IsLawful}
use iov_vehicle_tbox_prov.Store.{Store}
use iov_vehicle_tbox_prov.Storage
use iov_vehicle_tbox_prov.Service.{
  Inputs, write_vin, authorize_rewrite, validate_vin_format, execute_vin_binding_flow,
}
use iov_vehicle_tbox_prov.Service.Actions.{Service, ServiceConfig, guard, on_failure, ◌▸◌}
use iov_vehicle_tbox_prov.Service.Frame.{SameFrame, SameFrame-refl, write_vin-SameFrame}
use iov_vehicle_tbox_prov.Service.Gates.{
  writes_after_shutdown, write_vin_protected, write_vin-Frozen, write_vin_open,
}
use iov_vehicle_tbox_prov.Service.Completion.{IsCalm, write_vin_completes, vin-new_binding}
use iov_vehicle_tbox_prov.Service.Isolation.{writes_keep_others}
use iov_vehicle_tbox_prov.Service.Rewrite.{rewrite_is_write, first_is_write, locked-new_binding}
use iov_vehicle_tbox_prov.Service.Requests.{no_info}
use iov_vehicle_tbox_prov.Service.Device.{Device, take_vin}
use iov_vehicle_tbox_prov.Service.Device.View.{
  view, IsSound, Refines, IsUnlocked, unchanged-Refines, shows, vin_of, bytes_of, texts_of,
}

module _ (J : JsonLibrary) (st : Store) where
  -- A VIN that is not valid, and a UID that is not read, are refused without a write.
  storage-write_vin_refused :
      (i : Inputs) (vin : Str) (s : Service)
      → s.initialized ≡ true
      → s.shutting_down ≡ false
      → Vin.validate vin ≡ false
      → ((write_vin J st i vin s).0 ≡ invalid_vin_format)
        × ((write_vin J st i vin s).1.storage ≡ s.storage)
  unfolding write_vin validate_vin_format guard on_failure ◌▸◌
  storage-write_vin_refused i vin s ready running invalid =
      simp (ready, running, invalid) (refl, refl)

  storage-write_vin_no_uid :
      (i : Inputs) (vin : Str) (s : Service)
      → s.initialized ≡ true
      → s.shutting_down ≡ false
      → Vin.validate vin ≡ true
      → i.uid.succeeded ≡ false
      → ((write_vin J st i vin s).0 ≡ i.uid.error_code)
        × ((write_vin J st i vin s).1.storage ≡ s.storage)
  unfolding execute_vin_binding_flow
  storage-write_vin_no_uid i vin s ready running valid no_uid =
      rw (write_vin_open J st i vin s ready running valid) (simp no_uid (refl, refl))

-- The branches of the specification.
module _ (enabled : Bool) (i : Inputs) (vin : Str) (d : Device) where
  take_vin_down : d.down ≡ true → take_vin enabled i vin d ≡ (invalid_state, d)
  unfolding take_vin
  take_vin_down down = simp down refl

  take_vin_invalid :
      d.down ≡ false → Vin.validate vin ≡ false → take_vin enabled i vin d ≡ (invalid_vin_format, d)
  unfolding take_vin
  take_vin_invalid running invalid = simp (running, invalid) refl

  take_vin_no_uid :
      d.down ≡ false
      → Vin.validate vin ≡ true
      → i.uid.succeeded ≡ false
      → take_vin enabled i vin d ≡ (i.uid.error_code, d)
  unfolding take_vin
  take_vin_no_uid running valid no_uid = simp (running, valid, no_uid) refl

  take_vin_locked :
      d.down ≡ false
      → Vin.validate vin ≡ true
      → i.uid.succeeded ≡ true
      → d.protected ≡ true
      → take_vin enabled i vin d ≡ (vin_write_failed, d)
  unfolding take_vin
  take_vin_locked running valid uid locked = simp (running, valid, uid, locked) refl

  take_vin_taken :
      d.down ≡ false
      → Vin.validate vin ≡ true
      → i.uid.succeeded ≡ true
      → d.protected ≡ false
      → take_vin enabled i vin d ≡ (success, record d { vin = some vin; protected = enabled })
  unfolding take_vin
  take_vin_taken running valid uid open' = simp (running, valid, uid, open') refl

module _ (J : JsonLibrary) (st : Store) (L : IsLawful J) (enabled : Bool) where
  module _ (i : Inputs) (vin : Str) (s : Service) (sound : IsSound J st enabled s) where
    write_frame : SameFrame s (write_vin J st i vin s).1
    write_frame = (write_vin-SameFrame J st s i vin).at s (SameFrame-refl s)

    -- A VIN that is taken.
    taken-Refines :
        J.utf8 i.uid.uid ≡ true
        → s.shutting_down ≡ false
        → Vin.validate vin ≡ true
        → i.uid.succeeded ≡ true
        → s.storage.write_protected ≡ false
        → Refines J st enabled
            (success, record (view J st s) { vin = some vin; protected = enabled })
            (write_vin J st i vin s)
    taken-Refines text running valid uid open' =
        let calm : IsCalm J st L s = record { unprotected = open'; weather = sound.weather } in
        let (ok, done) =
          write_vin_completes J st L i vin s sound.ready running calm valid uid text in
        let existing = Storage.read_vehicle_binding J st s.storage in
        let (config, production, _, _, _, _, _, _) = writes_keep_others J st i vin [] no_info s in
        record {
          code = ok;
          device =
              shows J st (write_vin J st i vin s).1 _
                (ap vin_of done.there ∙ ap some (vin-new_binding J st L i vin i.uid.uid existing))
                (ap bytes_of config) (ap texts_of production) (done.protection ∙ sound.enables)
                write_frame.shutting_down;
          sound = record {
            ready = write_frame.initialized ∙ sound.ready;
            enables =
                ap (λ (k : ServiceConfig). k.enable_write_protection) write_frame.config
                ∙ sound.enables;
            weather = done.weather;
            unlocked = rw done.there (locked-new_binding J st L i vin i.uid.uid existing);
          };
        }

    pub write_vin-Refines :
        J.utf8 i.uid.uid ≡ true
        → Refines J st enabled (take_vin enabled i vin (view J st s)) (write_vin J st i vin s)
    write_vin-Refines text = elim (Bool-cases s.shutting_down) [
      | inl down ↦
          let same = (writes_after_shutdown J st i vin [] no_info s down).0 in
          rw (take_vin_down enabled i vin (view J st s) down) (
            unchanged-Refines J st enabled s _ _ sound (ap (λ (r : ErrorCode × Service). r.0) same)
              (ap (λ (r : ErrorCode × Service). r.1.storage) same) write_frame)
      | inr running ↦ elim (Bool-cases (Vin.validate vin)) [
        | inr invalid ↦
            let (code, same) = storage-write_vin_refused J st i vin s sound.ready running invalid in
            rw (take_vin_invalid enabled i vin (view J st s) running invalid)
              (unchanged-Refines J st enabled s _ _ sound code same write_frame)
        | inl valid ↦ elim (Bool-cases i.uid.succeeded) [
          | inr no_uid ↦
              let (code, same) =
                storage-write_vin_no_uid J st i vin s sound.ready running valid no_uid in
              rw (take_vin_no_uid enabled i vin (view J st s) running valid no_uid)
                (unchanged-Refines J st enabled s _ _ sound code same write_frame)
          | inl uid ↦ elim (Bool-cases s.storage.write_protected) [
            | inl locked ↦
                rw (take_vin_locked enabled i vin (view J st s) running valid uid locked) (
                  unchanged-Refines J st enabled s _ _ sound
                    (write_vin_protected J st i vin s sound.ready running locked valid uid)
                    ((write_vin-Frozen J st s.storage locked i vin).at s refl) write_frame)
            | inr open' ↦
                rw (take_vin_taken enabled i vin (view J st s) running valid uid open')
                  (taken-Refines text running valid uid open')
          ]
        ]
      ]
    ]

    unlocked_is_write :
        (o : Option VehicleBinding)
        → Storage.read_vehicle_binding J st s.storage ≡ o
        → IsUnlocked o
        → authorize_rewrite J st i vin s ≡ write_vin J st i vin s
    unlocked_is_write none e u = first_is_write J st i vin s e
    unlocked_is_write (some b) e u = rewrite_is_write J st i vin b s e u

    pub authorize_rewrite-Refines :
        J.utf8 i.uid.uid ≡ true
        → Refines J st enabled
            (take_vin enabled i vin (view J st s))
            (authorize_rewrite J st i vin s)
    authorize_rewrite-Refines text =
        rw (unlocked_is_write (Storage.read_vehicle_binding J st s.storage) refl sound.unlocked)
          (write_vin-Refines text)
