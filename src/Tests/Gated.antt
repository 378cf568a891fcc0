-- ===== src/Tests/Gated.antt =====
-- Calls of a protected service and of one that shuts down.
use iov_vehicle_tbox_prov.Base.{◌≡◌, refl, true, List, [], ◌∷◌}
use iov_vehicle_tbox_prov.Errors.{vin_write_failed}
use iov_vehicle_tbox_prov.Json.Example.{example}
use iov_vehicle_tbox_prov.Service
use iov_vehicle_tbox_prov.Service.{Inputs}
use iov_vehicle_tbox_prov.Service.Requests.{
  Request, write_vin_request, write_vehicle_config_request, authorize_rewrite_request, serve_all,
  protected_forever, shutdown_forever,
}
use iov_vehicle_tbox_prov.Service.Overtaken.{
  stopping, rest_of_write_vin, rest_of_authorize_rewrite, overtaken_writes,
}
use iov_vehicle_tbox_prov.Service.Gates.{write_vin_protected}
use iov_vehicle_tbox_prov.Tests.{inputs, locked, ready, store, vin, vin-validates}

overtaken_writes_example :
    (rest_of_write_vin example store inputs vin (stopping ready) ≡ (
      (Service.write_vin example store inputs vin ready).0,
      stopping (Service.write_vin example store inputs vin ready).1,
    ))
    × (rest_of_authorize_rewrite example store inputs vin (stopping ready) ≡ (
      (Service.authorize_rewrite example store inputs vin ready).0,
      stopping (Service.authorize_rewrite example store inputs vin ready).1,
    ))
overtaken_writes_example = overtaken_writes example store inputs vin ready refl refl

abbrev requests : List Request
requests =
    write_vin_request inputs vin
    ∷ write_vehicle_config_request inputs (1 ∷ 2 ∷ [])
    ∷ authorize_rewrite_request inputs vin
    ∷ []

protected_forever_example : (serve_all example store requests locked).storage ≡ locked.storage
protected_forever_example = protected_forever example store requests locked refl refl

shutdown_forever_example :
    ((serve_all example store requests (Service.begin_shutdown ready)).storage ≡ ready.storage)
    × ((serve_all example store requests (Service.begin_shutdown ready)).shutting_down ≡ true)
shutdown_forever_example = shutdown_forever example store requests ready refl

write_vin_protected_example :
    (Service.write_vin example store inputs vin locked).0 ≡ vin_write_failed
write_vin_protected_example =
    write_vin_protected example store inputs vin locked refl refl refl vin-validates refl
