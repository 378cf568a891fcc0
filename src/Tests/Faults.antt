-- ===== src/Tests/Faults.antt =====
-- A service on a device that refuses to open a file and to rename one.
use iov_vehicle_tbox_prov.Base.{◌≡◌, refl, true, false, List, [], ◌∷◌}
use iov_vehicle_tbox_prov.Vin
use iov_vehicle_tbox_prov.Json.Example.{example, example-IsLawful}
use iov_vehicle_tbox_prov.Store.{open_failed, rename_failed, load, file_exists, find_file}
use iov_vehicle_tbox_prov.Storage
use iov_vehicle_tbox_prov.Storage.Parts.{Origins, IsFrom}
use iov_vehicle_tbox_prov.Service.Actions.{Service}
use iov_vehicle_tbox_prov.Service.Requests.{
  Request, write_vin_request, write_vehicle_config_request, write_production_info_request,
  serve_all,
}
use iov_vehicle_tbox_prov.Service.Origins.{serve_all-IsFrom}
use iov_vehicle_tbox_prov.Tests.{empty_disk, info, inputs, other_vin, ready, store, vin}

abbrev faulty : Service
faulty = record ready {
  storage = record {
    write_protected = false;
    disk = record empty_disk {
      weather =
          record { fault = open_failed; rolls = λ _. 0 }
          ∷ record { fault = rename_failed; rolls = λ _. 0 }
          ∷ [];
    };
  };
}

-- Valid VINs, one configuration, one date.
abbrev origins : Origins
origins = record {
  Vin = λ v. Vin.validate v ≡ true;
  Data = λ bytes. bytes ≡ 1 ∷ 2 ∷ [];
  Texts = λ date batch station. date ≡ info.production_date;
}

abbrev requests : List Request
requests =
    write_vin_request inputs vin
    ∷ write_vehicle_config_request inputs (1 ∷ 2 ∷ [])
    ∷ write_production_info_request inputs info
    ∷ write_vin_request inputs other_vin
    ∷ []

faulty-IsFrom : IsFrom example store example-IsLawful origins faulty.storage
unfolding example Storage.read_vehicle_binding Storage.read_vehicle_config
    Storage.read_production_info load file_exists find_file
faulty-IsFrom = record { whole = (refl, (refl, tt)); binding = tt; config = tt; production = tt }

serve_all-IsFrom_example :
    IsFrom example store example-IsLawful origins (serve_all example store requests faulty).storage
serve_all-IsFrom_example =
    serve_all-IsFrom example store example-IsLawful origins requests faulty faulty-IsFrom
      (λ valid. valid, (refl, (refl, (λ valid. valid, tt))))
