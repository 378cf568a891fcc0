-- ===== src/Tests/Restarts.antt =====
-- An application that serves, ends and begins again.
use iov_vehicle_tbox_prov.Base.{◌≡◌, refl, true, Option, some, [], ◌∷◌, Str, codes}
use iov_vehicle_tbox_prov.Json.{text}
use iov_vehicle_tbox_prov.Json.Example.{example, example-IsLawful}
use iov_vehicle_tbox_prov.Store.{Store}
use iov_vehicle_tbox_prov.Service.Actions.{Service}
use iov_vehicle_tbox_prov.Dispatcher.{
  MethodId, method_value, success_members, extract_string_field, dispatch,
}
use iov_vehicle_tbox_prov.Dispatcher.Responses.{Answers}
use iov_vehicle_tbox_prov.Application.{
  Application, Settings, ipc_started, new_application, initialize, perform, cleanup_steps, quiesce,
  stop_server, drop_dispatcher, drop_service, drop_providers, drop_store,
}
use iov_vehicle_tbox_prov.Application.Lifecycle.{IsReleased, IsServing}
use iov_vehicle_tbox_prov.Application.System.{
  disk_of, answered, handle_request, Quiesced, overtaken, Reach, here, clean, serve,
}
use iov_vehicle_tbox_prov.Application.Lifetimes.{never_dangles, cleanup_ends}
use iov_vehicle_tbox_prov.Application.Quiescence.{quiesce_keeps_disk}
use iov_vehicle_tbox_prov.Application.Restart.{vin_survives_restart}
use iov_vehicle_tbox_prov.Tests.{empty_disk, inputs, ready, ready-IsCalm, store, vin, vin-validates}
use iov_vehicle_tbox_prov.Tests.Ipc.{vin_params}

-- A configuration that leaves every setting at its default.
abbrev pub defaults : Settings
defaults = record {
  get_string = λ k fallback. fallback;
  get_int = λ k fallback. fallback;
  get_bool = λ k fallback. fallback;
}

abbrev serving : Application
serving = record (new_application empty_disk) {
  stage = ipc_started;
  store = some store;
  providers = true;
  service = some ready;
  dispatcher = true;
  server = true;
}

serving-IsServing : IsServing serving
serving-IsServing = record {
  stage = refl;
  root = store;
  store = refl;
  providers = refl;
  dispatcher = refl;
  server = refl;
  service = ready;
  held = refl;
  ready = refl;
  running = refl;
}

abbrev pub what : Str
what = codes "what"

-- After the request WriteVin.
abbrev written : Option Str × Application
written =
    answered example inputs what (method_value MethodId.write_vin) vin_params store ready serving

written-handled :
    handle_request example inputs what (method_value MethodId.write_vin) vin_params serving
    ≡ some written
unfolding handle_request
written-handled = refl

-- Another request, with a number that no method has, and the first step of the end.
abbrev asked : Option Str × Application
asked =
    answered example inputs what 99 [] store
      (dispatch example store inputs what (method_value MethodId.write_vin) vin_params ready).1
      written.1

asked-handled : handle_request example inputs what 99 [] written.1 ≡ some asked
unfolding handle_request
asked-handled = refl

quieting :
    Reach example written.1 cleanup_steps
      (perform quiesce asked.1)
      (stop_server ∷ drop_dispatcher ∷ drop_service ∷ drop_providers ∷ drop_store ∷ [])
quieting = clean (serve inputs what [] 99 asked.0 here refl asked-handled)

abbrev ended : Application
ended = perform drop_store (
    perform drop_providers (
      perform drop_service
        (perform drop_dispatcher (perform stop_server (perform quiesce asked.1)))))

ending : Reach example written.1 cleanup_steps ended []
ending = clean (clean (clean (clean (clean quieting))))

vin_survives_restart_example :
    let reopened = initialize example true (some defaults) (new_application ended.disk) in
    Answers example example-IsLawful 0 (success_members true) written.0
    × (reopened.0 ≡ true)
    × ((told : Option Str) × (d : Application) × (handle_request example inputs what
            (method_value MethodId.read_vin)
            []
            reopened.1
          ≡ some (told, d))
        × Answers example example-IsLawful 0 ((codes "vin", text vin) ∷ []) told)
unfolding example extract_string_field serving-IsServing
vin_survives_restart_example =
    vin_survives_restart example store example-IsLawful inputs inputs what vin vin_params []
      written.0 serving written.1 ended defaults serving-IsServing refl refl ready-IsCalm
      vin-validates refl refl refl written-handled ending refl

-- The end of an application to which nothing was written.
quieted :
    Reach example serving cleanup_steps
      (perform quiesce serving)
      (stop_server ∷ drop_dispatcher ∷ drop_service ∷ drop_providers ∷ drop_store ∷ [])
quieted = clean here

quieted-server : (perform quiesce serving).server ≡ true
unfolding perform
quieted-server = refl

never_dangles_example :
    (st : Store) × (s : Service) × ((perform quiesce serving).store ≡ some st)
    × ((perform quiesce serving).service ≡ some s)
    × (handle_request example inputs what 2 vin_params (perform quiesce serving)
        ≡ some (
          (dispatch example st inputs what 2 vin_params s).0,
          record (perform quiesce serving) {
            service = some (dispatch example st inputs what 2 vin_params s).1;
          },
        ))
never_dangles_example =
    never_dangles example serving (perform quiesce serving)
      (stop_server ∷ drop_dispatcher ∷ drop_service ∷ drop_providers ∷ drop_store ∷ [])
      serving-IsServing quieted quieted-server inputs what vin_params 2

-- The request WriteVin is in flight over the first step, and the server stops then.
overtaking : Quiesced example serving (perform quiesce written.1)
overtaking =
    overtaken inputs what vin_params (method_value MethodId.write_vin) written.0 written-handled

late :
    Reach example
      (perform quiesce written.1)
      (stop_server ∷ [])
      (perform stop_server (perform quiesce written.1))
      []
late = clean here

quiesce_keeps_disk_example :
    disk_of (perform stop_server (perform quiesce written.1)) ≡ disk_of (perform quiesce written.1)
quiesce_keeps_disk_example =
    quiesce_keeps_disk example serving (perform quiesce written.1)
      (perform stop_server (perform quiesce written.1)) ready (stop_server ∷ []) [] refl refl
      overtaking late

cleanup_ends_example : IsReleased (
    perform drop_store (
      perform drop_providers (
        perform drop_service
          (perform drop_dispatcher (perform stop_server (perform quiesce serving))))))
cleanup_ends_example =
    cleanup_ends example serving _ serving-IsServing (clean (clean (clean (clean (clean quieted)))))
