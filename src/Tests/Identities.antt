-- ===== src/Tests/Identities.antt =====
-- Providers, codes and states at concrete values.
use iov_vehicle_tbox_prov.Base.{true, codes, str_eq, if◌then◌else◌}
use iov_vehicle_tbox_prov.Providers.{Snapshot}

-- A configuration with a UID, and one with the same UID and another SN.
abbrev snapshot : Snapshot
snapshot = record { has = λ k. true; get_string = λ k. codes "UID-1" }

abbrev other_snapshot : Snapshot
other_snapshot = record {
  has = λ k. true;
  get_string = λ k. if str_eq k (codes "ecu.uid") then codes "UID-1" else codes "SN-9";
}

abbrev third_snapshot : Snapshot
third_snapshot = record {
  has = λ k. true;
  get_string = λ k. if str_eq k (codes "prov.sn") then codes "UID-1" else codes "SN-9";
}
