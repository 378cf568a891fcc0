-- ===== src/Tests/Storing.antt =====
-- The store and the protected storage at concrete values.
use iov_vehicle_tbox_prov.Base.{◌≡◌, inr, refl, arith, true, false, none, some, [], ◌∷◌, Str, codes}
use iov_vehicle_tbox_prov.Errors.{success}
use iov_vehicle_tbox_prov.Types.{bound, VehicleBinding, default_binding, VehicleConfig}
use iov_vehicle_tbox_prov.Json.Example.{example, example-IsLawful}
use iov_vehicle_tbox_prov.Store.{Disk, short_write, load, save}
use iov_vehicle_tbox_prov.Store.Laws.{load-save, load-save_unchanged, load-save_short}
use iov_vehicle_tbox_prov.Storage
use iov_vehicle_tbox_prov.Storage.{Storage}
use iov_vehicle_tbox_prov.Storage.Serialize.{
  Fits, binding_in_seconds, deserialize-serialize_binding,
}
use iov_vehicle_tbox_prov.Storage.Laws.{read-write_vehicle_binding}
use iov_vehicle_tbox_prov.Storage.Reset.{clear_all_resets}
use iov_vehicle_tbox_prov.Tests.{empty_disk, ready, store, text_of, vin}

abbrev key : Str
key = codes "binding"

load-save_example :
    ((save example store key (codes "x") empty_disk).0 ≡ some true)
    × (load example store key (save example store key (codes "x") empty_disk).1 ≡ some (codes "x"))
unfolding example
load-save_example = load-save example store example-IsLawful key (codes "x") empty_disk refl refl

load-save_unchanged_example :
    load example store (codes "config") (save example store key (codes "x") empty_disk).1
    ≡ load example store (codes "config") empty_disk
load-save_unchanged_example =
    load-save_unchanged example store key (codes "x") empty_disk (codes "config") (inr refl)

-- A device that takes nothing of what is written.
abbrev full_disk : Disk
full_disk = record {
  files = [];
  directories = [];
  weather = record { fault = short_write 0; rolls = λ _. 0 } ∷ [];
}

load-save_short_example :
    ((save example store key (codes "x") full_disk).0 ≡ some true)
    × (load example store key (save example store key (codes "x") full_disk).1 ≡ none)
unfolding example
load-save_short_example =
    load-save_short example store example-IsLawful key (codes "x") full_disk refl refl

abbrev binding : VehicleBinding
binding = record default_binding {
  vin = vin;
  ecu_uid = codes "UID-1";
  state = bound;
  bound_at = 1700000000123456789;
  rewrite_count = 2;
}

binding-Fits : Fits binding
binding-Fits = record { state = tt; retries = omega arith; rewrites = omega arith }

abbrev vehicle_config : VehicleConfig
vehicle_config = record {
  variant_coding = 1 ∷ 255 ∷ [];
  written_at = 1700000000123456789;
  verified = true;
}

read-write_vehicle_binding_example :
    ((Storage.write_vehicle_binding example store binding ready.storage).0 ≡ success)
    × (Storage.read_vehicle_binding example store
          (Storage.write_vehicle_binding example store binding ready.storage).1
        ≡ some (binding_in_seconds binding))
unfolding example
read-write_vehicle_binding_example =
    read-write_vehicle_binding example store example-IsLawful binding ready.storage binding-Fits
      (refl, refl, refl, refl) refl refl

deserialize-serialize_binding_example :
    Storage.deserialize_binding example (text_of (Storage.serialize_binding example binding))
    ≡ some (binding_in_seconds binding)
unfolding example Storage.serialize_binding
deserialize-serialize_binding_example =
    deserialize-serialize_binding example example-IsLawful binding
      (text_of (Storage.serialize_binding example binding)) binding-Fits refl

-- A disk on which the protection is recorded.
abbrev recorded : Storage
recorded = record {
  write_protected = true;
  disk = record {
    files = (codes "/var/tbox/prov/protection.json", codes "1") ∷ [];
    directories = codes "/var/tbox/prov" ∷ codes "/var/tbox" ∷ [];
    weather = [];
  };
}

clear_all_resets_example :
    ((Storage.clear_all example store recorded).0 ≡ success)
    × (Storage.read_vehicle_binding example store (Storage.clear_all example store recorded).1
        ≡ none)
    × (Storage.read_vehicle_config example store (Storage.clear_all example store recorded).1
        ≡ none)
    × (Storage.read_production_info example store (Storage.clear_all example store recorded).1
        ≡ none)
    × ((Storage.clear_all example store recorded).1.write_protected ≡ false)
    × ((Storage.initialize example store (record {
      write_protected = false;
      disk = (Storage.clear_all example store recorded).1.disk;
    })).1.write_protected
        ≡ false)
clear_all_resets_example = clear_all_resets example store example-IsLawful recorded refl
