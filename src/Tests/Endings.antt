-- ===== src/Tests/Endings.antt =====
-- The older entry point with a signal in the third sleep, and texts for log events.
use iov_vehicle_tbox_prov.Base.{
  ◌≡◌, refl, ◌==◌, if◌then◌else◌, true, some, [], ◌∷◌, codes, length, arith,
}
use iov_vehicle_tbox_prov.Json.Example.{example}
use iov_vehicle_tbox_prov.Legacy.{Platform, sigterm, main}
use iov_vehicle_tbox_prov.Legacy.Termination.{HasEnded, main-HasEnded}
use iov_vehicle_tbox_prov.Masking.{hash_vin}
use iov_vehicle_tbox_prov.Tests.{empty_disk, vin}

abbrev platform : Platform
platform = record {
  sigaction = λ s. true;
  configuration = some (record {
    get_string = λ k fallback. fallback;
    get_int = λ k fallback. fallback;
    get_bool = λ k fallback. fallback;
  });
  init_log = λ level. true;
  start_server = λ path config. true;
  arrivals = λ n. if n == 2 then sigterm ∷ [] else [];
}

main-HasEnded_example : HasEnded (main example 4 platform empty_disk)
main-HasEnded_example = main-HasEnded 4 2 platform (omega arith) refl example empty_disk

-- A hash that counts the bytes.
vin_masked : hash_vin length vin ≡ codes "vin-0000000000000011"
unfolding hash_vin
vin_masked = refl
