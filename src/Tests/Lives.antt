-- ===== src/Tests/Lives.antt =====
-- Two runs of the program over the same disk: one that is killed after the request WriteVin, and one
-- that cannot make a directory.
use iov_vehicle_tbox_prov.Base.{◌≡◌, refl, true, Option, some, [], ◌∷◌, Str}
use iov_vehicle_tbox_prov.Json.Example.{example, example-IsLawful}
use iov_vehicle_tbox_prov.Store
use iov_vehicle_tbox_prov.Storage
use iov_vehicle_tbox_prov.Store.{Disk, Event, open_failed, load, file_exists, find_file}
use iov_vehicle_tbox_prov.Storage.{read_vehicle_binding}
use iov_vehicle_tbox_prov.Storage.Parts.{IsFrom}
use iov_vehicle_tbox_prov.Service
use iov_vehicle_tbox_prov.Service.{new_service}
use iov_vehicle_tbox_prov.Service.Actions.{Service}
use iov_vehicle_tbox_prov.Dispatcher.{MethodId, method_value}
use iov_vehicle_tbox_prov.Application.{
  Application, config_of, new_application, initialize, open_ipc,
}
use iov_vehicle_tbox_prov.Application.System.{disk_of, answered, handle_request, here, serve}
use iov_vehicle_tbox_prov.Application.Started.{opened_over}
use iov_vehicle_tbox_prov.Application.Lives.{Lived, begun, run, stored_first, lives_keep}
use iov_vehicle_tbox_prov.Tests.{empty_disk, inputs, store}
use iov_vehicle_tbox_prov.Tests.Ipc.{vin_params}
use iov_vehicle_tbox_prov.Tests.Restarts.{defaults, what}

abbrev first_run : Application
first_run = (initialize example true (some defaults) (new_application empty_disk)).1

abbrev first_service : Service
first_service = (Service.initialize example store (new_service (config_of defaults) empty_disk)).1

abbrev stored : Option Str × Application
stored =
    answered example inputs what (method_value MethodId.write_vin) vin_params store first_service
      first_run

stored-handled :
    handle_request example inputs what (method_value MethodId.write_vin) vin_params first_run
    ≡ some stored
unfolding handle_request initialize open_ipc Store.initialize Store.new_store Service.initialize
    Storage.initialize
stored-handled = refl

first_run-server : first_run.server ≡ true
unfolding initialize open_ipc Store.initialize Store.new_store Service.initialize Storage.initialize
first_run-server = refl

abbrev again : Disk
again = record (disk_of stored.1) { weather = record { fault = open_failed; rolls = λ _. 0 } ∷ [] }

abbrev second_run : Application
second_run = (initialize example true (some defaults) (new_application again)).1

lived : Lived example store empty_disk (disk_of second_run)
lived =
    run (some defaults) true again.weather
      (run (some defaults) true [] begun refl tt (
        serve inputs what vin_params (method_value MethodId.write_vin) stored.0 here
          first_run-server stored-handled))
      refl (refl, tt) here

lives_keep_example :
    IsFrom example store example-IsLawful
      (stored_first example store empty_disk)
      (opened_over (disk_of second_run))
unfolding example read_vehicle_binding load file_exists find_file
lives_keep_example =
    lives_keep example store example-IsLawful empty_disk (disk_of second_run) tt tt lived
