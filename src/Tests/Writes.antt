-- ===== src/Tests/Writes.antt =====
-- Writes of the service on an empty disk.
use iov_vehicle_tbox_prov.Base.{◌≡◌, ◌⊎◌, refl, ap, ◌∙◌, arith, true, false, codes, []}
use iov_vehicle_tbox_prov.Vin
use iov_vehicle_tbox_prov.Errors.{ErrorCode, success, vin_write_failed}
use iov_vehicle_tbox_prov.Types.{VehicleBinding}
use iov_vehicle_tbox_prov.Json.Example.{example, example-IsLawful}
use iov_vehicle_tbox_prov.Store.{load}
use iov_vehicle_tbox_prov.Storage
use iov_vehicle_tbox_prov.Storage.{Storage}
use iov_vehicle_tbox_prov.Service
use iov_vehicle_tbox_prov.Service.{Inputs}
use iov_vehicle_tbox_prov.Service.Actions.{Service}
use iov_vehicle_tbox_prov.Service.Frame.{SameFrame, SameFrame-refl, write_vin-SameFrame}
use iov_vehicle_tbox_prov.Service.Completion.{Completed, final_binding, write_vin_completes}
use iov_vehicle_tbox_prov.Service.Success.{IsHonest, write_vin-success, authorize_rewrite-success}
use iov_vehicle_tbox_prov.Service.Durable.{success_is_durable}
use iov_vehicle_tbox_prov.Service.Rewrite.{rewrite_is_write, rewrite_refused}
use iov_vehicle_tbox_prov.Tests.{
  config, inputs, other_vin, other_vin-validates, ready, ready-IsCalm, store, vin, vin-validates,
}

inputs-IsHonest : IsHonest inputs.uid
inputs-IsHonest h = absurd (ground (arith, h))

write_vin_completes_example :
    ((Service.write_vin example store inputs vin ready).0 ≡ success)
    × Completed example store example-IsLawful true
        (final_binding example store example-IsLawful inputs vin
          (codes "UID-1")
          (Storage.read_vehicle_binding example store ready.storage))
        (Service.write_vin example store inputs vin ready).1
unfolding example
write_vin_completes_example =
    write_vin_completes example store example-IsLawful inputs vin ready refl refl ready-IsCalm
      vin-validates refl refl

write_vin-success_example :
    (Vin.validate vin ≡ true)
    × (Service.read_vin example store (Service.write_vin example store inputs vin ready).1 ≡ vin)
    × ((true ≡ false)
        ⊎ ((Service.write_vin example store inputs vin ready).1.storage.write_protected ≡ true))
unfolding example
write_vin-success_example =
    write_vin-success example store inputs vin ready inputs-IsHonest
      (write_vin_completes example store example-IsLawful inputs vin ready refl refl ready-IsCalm
        vin-validates refl refl).0

-- The service after a write without protection.
abbrev open_ready : Service
open_ready = record ready {
  config = record { enable_write_protection = false; max_retry_count = 3 };
}

abbrev written : Service
written = (Service.write_vin example store inputs vin open_ready).1

abbrev written_binding : VehicleBinding
written_binding =
    final_binding example store example-IsLawful inputs vin (codes "UID-1")
      (Storage.read_vehicle_binding example store open_ready.storage)

open_ready-completes :
    ((Service.write_vin example store inputs vin open_ready).0 ≡ success)
    × Completed example store example-IsLawful false written_binding written
unfolding example
open_ready-completes =
    write_vin_completes example store example-IsLawful inputs vin open_ready refl refl
      (record { unprotected = refl; weather = refl }) vin-validates refl refl

written-SameFrame : SameFrame open_ready written
written-SameFrame =
    (write_vin-SameFrame example store open_ready inputs vin).at open_ready
      (SameFrame-refl open_ready)

written_binding-unlocked : written_binding.locked ≡ false
unfolding Service.new_binding Storage.read_vehicle_binding load
written_binding-unlocked = refl

rewrite_is_write_example :
    Service.authorize_rewrite example store inputs other_vin written
    ≡ Service.write_vin example store inputs other_vin written
rewrite_is_write_example =
    rewrite_is_write example store inputs other_vin written_binding written
      open_ready-completes.1.there written_binding-unlocked

written-completes : ((Service.write_vin example store inputs other_vin written).0 ≡ success)
unfolding example
written-completes =
    (write_vin_completes example store example-IsLawful inputs other_vin written
      written-SameFrame.initialized written-SameFrame.shutting_down
      (record {
        unprotected = open_ready-completes.1.protection;
        weather = open_ready-completes.1.weather;
      })
      other_vin-validates refl refl).0

written-rewritten : (Service.authorize_rewrite example store inputs other_vin written).0 ≡ success
written-rewritten =
    ap (λ (r : ErrorCode × Service). r.0)
      (rewrite_is_write example store inputs other_vin written_binding written
        open_ready-completes.1.there written_binding-unlocked)
    ∙ written-completes

authorize_rewrite-success_example :
    (Vin.validate other_vin ≡ true)
    × (Service.read_vin example store
          (Service.authorize_rewrite example store inputs other_vin written).1
        ≡ other_vin)
    × ((written.config.enable_write_protection ≡ false)
        ⊎ ((Service.authorize_rewrite example store inputs other_vin
              written).1.storage.write_protected
            ≡ true))
authorize_rewrite-success_example =
    authorize_rewrite-success example store inputs other_vin written inputs-IsHonest
      written-rewritten

ready-completes :
    ((Service.write_vin example store inputs vin ready).0 ≡ success)
    × ((Service.write_vin example store inputs vin ready).1.storage.disk.weather ≡ [])
unfolding example
ready-completes =
    let (ok, done) =
      write_vin_completes example store example-IsLawful inputs vin ready refl refl ready-IsCalm
        vin-validates refl refl in
    (ok, done.weather)

success_is_durable_example :
    let r = Service.initialize example store (
      Service.new_service config
        (Service.write_vin example store inputs vin ready).1.storage.disk) in
    (r.0 ≡ success)
    × (r.1.storage.write_protected ≡ true)
    × (Service.read_vin example store r.1 ≡ vin)
success_is_durable_example =
    success_is_durable example store example-IsLawful vin inputs ready config inputs-IsHonest refl
      tt ready-completes.0 ready-completes.1

rewrite_refused_example :
    (Service.authorize_rewrite example store inputs other_vin
      (Service.write_vin example store inputs vin ready).1).0
    ≡ vin_write_failed
unfolding example
rewrite_refused_example =
    rewrite_refused example store example-IsLawful inputs inputs vin other_vin ready refl refl refl
      ready-IsCalm vin-validates refl refl other_vin-validates refl
