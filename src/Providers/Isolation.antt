-- ===== src/Providers/Isolation.antt =====
-- The sources of the two identities in either build: src/se_uid_provider.cpp, src/tbox_sn_provider.cpp.
use iov_vehicle_tbox_prov.Base.{◌≡◌, Bool, false, Option, none, some, Str, codes, arith}
use iov_vehicle_tbox_prov.Errors.{se_missing_production_fail_closed}
use iov_vehicle_tbox_prov.Providers.{Snapshot, read_uid_detailed, read_sn}

-- A production build gives no UID and no SN, whatever the configuration holds, and the UID's
-- failure is PROV-1010.
pub production_fails_closed :
    (snapshot : Option Snapshot)
    → ((read_uid_detailed false snapshot).succeeded ≡ false)
      × ((read_uid_detailed false snapshot).error_code ≡ se_missing_production_fail_closed)
      × ((read_sn false snapshot).succeeded ≡ false)
unfolding read_uid_detailed read_sn
production_fails_closed none = ground arith
production_fails_closed (some cfg) = ground arith

-- What one source reads of a configuration: the key's own entry.
abbrev pub SameEntry : Str → Snapshot → Snapshot → Type 0
SameEntry key a b = (a.has key ≡ b.has key) × (a.get_string key ≡ b.get_string key)

-- Two configurations that agree on ecu.uid give the same UID result, in either build, whatever they
-- hold for prov.sn.
pub uid_isolated :
    (test : Bool) (a b : Snapshot)
    → SameEntry (codes "ecu.uid") a b
    → read_uid_detailed test (some a) ≡ read_uid_detailed test (some b)
unfolding read_uid_detailed
uid_isolated test a b (h, g) = rw (h, g)

-- Two configurations that agree on prov.sn give the same SN result, in either build, whatever they
-- hold for ecu.uid.
pub sn_isolated :
    (test : Bool) (a b : Snapshot)
    → SameEntry (codes "prov.sn") a b
    → read_sn test (some a) ≡ read_sn test (some b)
unfolding read_sn
sn_isolated test a b (h, g) = rw (h, g)
