-- ===== src/Tests/Sessions.antt =====
-- A client that writes a VIN, reads it, and tries to write a configuration.
use iov_vehicle_tbox_prov.Base.{◌≡◌, refl, ap, true, List, [], ◌∷◌, codes}
use iov_vehicle_tbox_prov.Errors.{success}
use iov_vehicle_tbox_prov.Errors.Names.{is_named}
use iov_vehicle_tbox_prov.Json.Example.{example, example-IsLawful}
use iov_vehicle_tbox_prov.Store.{load}
use iov_vehicle_tbox_prov.Storage
use iov_vehicle_tbox_prov.Service
use iov_vehicle_tbox_prov.Service.{Inputs}
use iov_vehicle_tbox_prov.Service.Actions.{Service}
use iov_vehicle_tbox_prov.Service.Completion.{Completed, final_binding, write_vin_completes}
use iov_vehicle_tbox_prov.Service.Frame.{SameFrame-refl, write_vin-SameFrame}
use iov_vehicle_tbox_prov.Dispatcher.Exact.{asked}
use iov_vehicle_tbox_prov.Client.Session.{
  ClientCall, write_vin_call, read_vin_call, write_vehicle_config_call, remote_all, exposed,
  exposed_all,
}
use iov_vehicle_tbox_prov.Client.Session.Refinement.{session-exposed}
use iov_vehicle_tbox_prov.Tests.{inputs, ready, store, vin, vin-validates}

abbrev calls : List (Inputs × ClientCall)
calls =
    (inputs, write_vin_call vin)
    ∷ (inputs, read_vin_call)
    ∷ (inputs, write_vehicle_config_call (1 ∷ 2 ∷ []))
    ∷ []

abbrev written : Service
written = (Service.write_vin example store inputs vin (asked ready)).1

writing :
    ((Service.write_vin example store inputs vin (asked ready)).0 ≡ success)
    × Completed example store example-IsLawful true
        (final_binding example store example-IsLawful inputs vin
          (codes "UID-1")
          (Storage.read_vehicle_binding example store ready.storage))
        written
unfolding example
writing =
    write_vin_completes example store example-IsLawful inputs vin (asked ready) refl refl
      (record { unprotected = refl; weather = refl }) vin-validates refl refl

read_vin-written : Service.read_vin example store (asked written) ≡ vin
unfolding Service.read_vin Service.new_binding Storage.read_vehicle_binding load
read_vin-written =
    let frame =
      (write_vin-SameFrame example store (asked ready) inputs vin).at (asked ready)
        (SameFrame-refl (asked ready)) in
    simp (frame.initialized, writing.1.there) refl

vin-carried : example.utf8 (Service.read_vin example store (asked written)) ≡ true
vin-carried = rw read_vin-written (example-IsLawful.utf8-ascii vin refl)

session-exposed_example :
    remote_all example store (codes "what") calls ready ≡ exposed_all example store calls ready
unfolding example exposed
session-exposed_example =
    session-exposed example store example-IsLawful (codes "what") calls ready
      ((refl, ap is_named writing.0), (vin-carried, (tt, tt)))
