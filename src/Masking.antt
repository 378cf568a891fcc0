-- ===== src/Masking.antt =====
-- What src/prov_service.cpp and src/prov_context.cpp put into log events in place of identifiers:
-- hashes, state names and request ids. `std::hash` and the random numbers are parameters.
pub mod Laws
use iov_vehicle_tbox_prov.Base.{
  ℕ, zero, suc, ◌+◌, ◌-◌, ◌*◌, ◌/◌, ◌%◌, ltb, if◌then◌else◌, Bool, true, false, List, [], ◌∷◌, ◌++◌,
  Str, codes, length, decimal,
}
use iov_vehicle_tbox_prov.Types.{ProvisionState, vin_written, bound, failed}
use iov_vehicle_tbox_prov.Store.{hex_digit}

-- The hexadecimal text of a number, as a stream writes it with `std::hex`.
unfoldable pub hex_within : ℕ → ℕ → Str
hex_within zero n = hex_digit n ∷ []
hex_within (suc fuel) n =
    let higher = hex_within fuel (n / 16) in
    if ltb n 16 then hex_digit n ∷ [] else higher ++ (hex_digit n ∷ [])

unfoldable pub hex : ℕ → Str
unfolding hex_within
hex n = hex_within n n

-- `std::setfill('0')` and `std::setw`
abbrev pub zeros : ℕ → Str
zeros zero = []
zeros (suc n) = b'0' ∷ zeros n

unfoldable pub padded : ℕ → Str → Str
padded width s = zeros (width - length s) ++ s

module _ (hash : Str → ℕ) where
  unfoldable pub hash_identifier : Str → Str → Str
  unfolding padded hex
  hash_identifier type' value = type' ++ (codes "-" ++ padded 16 (hex (hash value)))

  unfoldable pub hash_vin : Str → Str
  unfolding hash_identifier
  hash_vin = hash_identifier (codes "vin")

  unfoldable pub hash_ecu_uid : Str → Str
  unfolding hash_identifier
  hash_ecu_uid = hash_identifier (codes "uid")

  unfoldable pub hash_sn : Str → Str
  unfolding hash_identifier
  hash_sn = hash_identifier (codes "sn")

  unfoldable pub hash_config : List ℕ → Str
  unfolding hash_identifier
  hash_config = hash_identifier (codes "cfg")

  unfoldable pub hash_batch : Str → Str
  unfolding hash_identifier
  hash_batch = hash_identifier (codes "batch")

  unfoldable pub hash_station : Str → Str
  unfolding hash_identifier
  hash_station = hash_identifier (codes "station")

unfoldable pub provision_state_to_string : ProvisionState → Str
provision_state_to_string ProvisionState.none = codes "NONE"
provision_state_to_string vin_written = codes "VIN_WRITTEN"
provision_state_to_string bound = codes "BOUND"
provision_state_to_string failed = codes "FAILED"
provision_state_to_string (ProvisionState.unnamed n) = codes "UNKNOWN"

-- `generate_request_id` at a time in nanoseconds, with the number that `dis(gen)` draws.
unfoldable pub generate_request_id : ℕ → ℕ → Str
generate_request_id now drawn =
    codes "prov-" ++ (decimal (now / 1000000) ++ (codes "-" ++ decimal drawn))
