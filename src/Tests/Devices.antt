-- ===== src/Tests/Devices.antt =====
-- Sequences of requests to a service on an empty disk, and the device that it is.
use iov_vehicle_tbox_prov.Base.{
  ◌≡◌, refl, ap, true, false, none, List, [], ◌∷◌, codes, map, ◌+◌, ◌%◌, ◌^◌, arith,
}
use iov_vehicle_tbox_prov.Errors.{success}
use iov_vehicle_tbox_prov.Json.Example.{example, example-IsLawful}
use iov_vehicle_tbox_prov.Store.{calm, rename_failed}
use iov_vehicle_tbox_prov.Storage
use iov_vehicle_tbox_prov.Storage.Serialize.{production_in_seconds}
use iov_vehicle_tbox_prov.Service
use iov_vehicle_tbox_prov.Service.{Inputs}
use iov_vehicle_tbox_prov.Service.Actions.{Service}
use iov_vehicle_tbox_prov.Service.Frame.{SameFrame-refl, write_vin-SameFrame}
use iov_vehicle_tbox_prov.Service.Completion.{final_binding, write_vin_completes, vin-new_binding}
use iov_vehicle_tbox_prov.Service.DataCompletion.{
  IsOpen, HasConfig, HasProduction, verified_config, write_vehicle_config_completes,
  write_production_info_completes,
}
use iov_vehicle_tbox_prov.Service.Counter.{Counts, write_vin-rewrite_count}
use iov_vehicle_tbox_prov.Service.Atomicity.{IsEither, write_vin-IsEither}
use iov_vehicle_tbox_prov.Service.Isolation.{writes_keep_others}
use iov_vehicle_tbox_prov.Service.Requests.{
  Request, write_vin_request, write_vehicle_config_request, authorize_rewrite_request,
  begin_shutdown_request, serve_all,
}
use iov_vehicle_tbox_prov.Service.Device.{run_device}
use iov_vehicle_tbox_prov.Service.Device.View.{IsSound, view}
use iov_vehicle_tbox_prov.Service.Device.Refinement.{answers, serve_all-Refines}
use iov_vehicle_tbox_prov.Tests.{
  new-read_vehicle_binding, info, inputs, other_vin, ready, ready-IsCalm, store, vin, vin-validates,
}

ready-IsOpen : IsOpen example store example-IsLawful ready
ready-IsOpen = record { ready = refl; running = refl; calm = ready-IsCalm }

write_vehicle_config_completes_example :
    ((Service.write_vehicle_config example store inputs (1 ∷ 255 ∷ []) ready).0 ≡ success)
    × HasConfig example store example-IsLawful
        (verified_config example store example-IsLawful inputs (1 ∷ 255 ∷ []))
        (Service.write_vehicle_config example store inputs (1 ∷ 255 ∷ []) ready).1
write_vehicle_config_completes_example =
    write_vehicle_config_completes example store example-IsLawful inputs (1 ∷ 255 ∷ []) ready
      ready-IsOpen

write_production_info_completes_example :
    ((Service.write_production_info example store inputs info ready).0 ≡ success)
    × HasProduction example store example-IsLawful
        (production_in_seconds (record info { written_at = 1700000000000000000 }))
        (Service.write_production_info example store inputs info ready).1
unfolding example
write_production_info_completes_example =
    write_production_info_completes example store example-IsLawful inputs info ready
      (refl, refl, refl) ready-IsOpen

writes_keep_others_example :
    (Storage.read_vehicle_config example store
        (Service.write_vin example store inputs vin ready).1.storage
      ≡ Storage.read_vehicle_config example store ready.storage)
    × (Storage.read_production_info example store
          (Service.write_vin example store inputs vin ready).1.storage
        ≡ Storage.read_production_info example store ready.storage)
    × (Storage.read_vehicle_config example store
          (Service.authorize_rewrite example store inputs vin ready).1.storage
        ≡ Storage.read_vehicle_config example store ready.storage)
    × (Storage.read_production_info example store
          (Service.authorize_rewrite example store inputs vin ready).1.storage
        ≡ Storage.read_production_info example store ready.storage)
    × (Storage.read_vehicle_binding example store
          (Service.write_vehicle_config example store inputs (1 ∷ []) ready).1.storage
        ≡ Storage.read_vehicle_binding example store ready.storage)
    × (Storage.read_production_info example store
          (Service.write_vehicle_config example store inputs (1 ∷ []) ready).1.storage
        ≡ Storage.read_production_info example store ready.storage)
    × (Storage.read_vehicle_binding example store
          (Service.write_production_info example store inputs info ready).1.storage
        ≡ Storage.read_vehicle_binding example store ready.storage)
    × (Storage.read_vehicle_config example store
          (Service.write_production_info example store inputs info ready).1.storage
        ≡ Storage.read_vehicle_config example store ready.storage)
writes_keep_others_example = writes_keep_others example store inputs vin (1 ∷ []) info ready

ready-IsSound : IsSound example store true ready
ready-IsSound = record {
  ready = refl;
  enables = refl;
  weather = refl;
  unlocked = rw new-read_vehicle_binding tt;
}

abbrev requests : List Request
requests =
    write_vehicle_config_request inputs (1 ∷ 255 ∷ [])
    ∷ write_vin_request inputs vin
    ∷ authorize_rewrite_request inputs other_vin
    ∷ begin_shutdown_request
    ∷ write_vin_request inputs other_vin
    ∷ []

serve_all-Refines_example :
    (answers example store requests ready ≡ (run_device true requests (view example store ready)).0)
    × (view example store (serve_all example store requests ready)
        ≡ (run_device true requests (view example store ready)).1)
unfolding example
serve_all-Refines_example =
    serve_all-Refines example store example-IsLawful true requests ready ready-IsSound
      (tt, (refl, (refl, (tt, (refl, tt)))))

-- A service without write protection, after one write.
abbrev open_ready : Service
open_ready = record ready {
  config = record { enable_write_protection = false; max_retry_count = 3 };
}

abbrev written : Service
written = (Service.write_vin example store inputs vin open_ready).1

first_count : (Service.new_binding inputs vin (codes "UID-1") none).rewrite_count ≡ 0
unfolding Service.new_binding
first_count = refl

written-Counts : Counts example store example-IsLawful vin 0 written
unfolding example
written-Counts =
    let (_, done) =
      write_vin_completes example store example-IsLawful inputs vin open_ready refl refl
        (record { unprotected = refl; weather = refl }) vin-validates refl refl in
    let frame =
      (write_vin-SameFrame example store open_ready inputs vin).at open_ready
        (SameFrame-refl open_ready) in
    let existing = Storage.read_vehicle_binding example store open_ready.storage in
    record {
      is_open = record {
        ready = frame.initialized;
        running = frame.shutting_down;
        calm = record { unprotected = done.protection; weather = done.weather };
      };
      disabled = ap (λ (c : Service.Actions.ServiceConfig). c.enable_write_protection) frame.config;
      binding = final_binding example store example-IsLawful inputs vin (codes "UID-1") existing;
      there = done.there;
      same = vin-new_binding example store example-IsLawful inputs vin (codes "UID-1") existing;
      count = rw new-read_vehicle_binding first_count;
    }

write_vin-rewrite_count_example :
    Counts example store example-IsLawful vin
      ((0 + 2) % 2 ^ 32)
      (serve_all example store (map (λ i. write_vin_request i vin) (inputs ∷ inputs ∷ [])) written)
unfolding example
write_vin-rewrite_count_example =
    write_vin-rewrite_count example store example-IsLawful vin (inputs ∷ inputs ∷ []) 0 written
      vin-validates ((refl, refl), ((refl, refl), tt)) (omega arith) written-Counts

-- A device whose second rename fails.
abbrev failing : Service
failing = record ready {
  storage = record {
    write_protected = false;
    disk = record {
      files = [];
      directories = [];
      weather = calm ∷ record { fault = rename_failed; rolls = λ _. 7 } ∷ [];
    };
  };
}

write_vin-IsEither_example :
    IsEither example store example-IsLawful vin failing
      (Service.write_vin example store inputs vin failing).1.storage
    × IsEither example store example-IsLawful vin failing
        (Service.authorize_rewrite example store inputs vin failing).1.storage
write_vin-IsEither_example =
    write_vin-IsEither example store example-IsLawful vin failing inputs (refl, (refl, tt))
