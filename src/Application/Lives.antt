-- ===== src/Application/Lives.antt =====
-- The disk under src/prov_application.cpp when the program runs, ends or is killed, and runs again.
use iov_vehicle_tbox_prov.Base.{◌≡◌, refl, Bool, true, Option, none, some, List, Str}
use iov_vehicle_tbox_prov.Json.{JsonLibrary, IsLawful}
use iov_vehicle_tbox_prov.Types.{VehicleConfig, ProductionInfo}
use iov_vehicle_tbox_prov.Vin
use iov_vehicle_tbox_prov.Store.{Store, Disk, Event}
use iov_vehicle_tbox_prov.Store.Whole.{IsWhole}
use iov_vehicle_tbox_prov.Storage.{read_vehicle_binding, read_vehicle_config, read_production_info}
use iov_vehicle_tbox_prov.Storage.Parts.{
  Origins, IsFrom, BindingFrom, ConfigFrom, ProductionFrom, same_files-IsFrom,
}
use iov_vehicle_tbox_prov.Application.{
  Application, Settings, Step, new_application, initialize, cleanup_steps,
}
use iov_vehicle_tbox_prov.Application.System.{disk_of, Reach}
use iov_vehicle_tbox_prov.Application.Held.{Reach-IsHeld}
use iov_vehicle_tbox_prov.Application.Started.{
  opened_over, OverStore, DiskFrom, ServiceFrom, over, down, kept, initialize-Held,
}

-- The VINs that the validator takes, and the configuration data and production texts of a disk.
abbrev pub stored_first : JsonLibrary → Store → Disk → Origins
stored_first J st d = record {
  Vin = λ v. Vin.validate v ≡ true;
  Data = λ bytes.
      (c : VehicleConfig) × (read_vehicle_config J st (opened_over d) ≡ some c)
      × (c.variant_coding ≡ bytes);
  Texts = λ date batch station.
      (p : ProductionInfo) × (read_production_info J st (opened_over d) ≡ some p)
      × (p.production_date ≡ date)
      × (p.batch_num ≡ batch)
      × (p.station_id ≡ station);
}

module _ (J : JsonLibrary) (st : Store) where
  -- The disks that a first one becomes. A run begins with its initialization, whatever the device
  -- does in it, and goes on with requests and the steps of the end; it may be killed at any moment.
  pub data Lived (d₀ : Disk) : Disk → Type 0 where
    begun : Lived d₀ d₀
    run :
        {d : Disk} {a : Application} {rest : List Step} (cfg : Option Settings) (started : Bool)
        (weather : List Event)
        → Lived d₀ d
        → OverStore st cfg
        → IsWhole weather
        → Reach J
            (initialize J started cfg (new_application (record d { weather = weather }))).1
            cleanup_steps
            a
            rest
        → Lived d₀ (disk_of a)

module _ (J : JsonLibrary) (st : Store) (L : IsLawful J) (O : Origins)
    (vins : (v : Str) → Vin.validate v ≡ true → O.Vin v) where
  Lived-DiskFrom : (d₀ d : Disk) → DiskFrom J st L O d₀ → Lived J st d₀ d → DiskFrom J st L O d
  Lived-DiskFrom d₀ d from begun = from
  Lived-DiskFrom d₀ left from (run {d} {a} {rest} cfg started weather before same whole reached) =
      (Reach-IsHeld J (λ u. u ≡ st) (DiskFrom J st L O) (ServiceFrom J st L O) (kept J st L O vins)
        (over J st L O) (down J st L O) _ cleanup_steps a rest
        (initialize-Held J st L O vins cfg started _ same
          (same_files-IsFrom J st L O _ _ refl whole (Lived-DiskFrom d₀ d from before)))
        reached).disk

module _ (J : JsonLibrary) (st : Store) (L : IsLawful J) (d₀ : Disk) where
  first-ConfigFrom :
      (o : Option VehicleConfig)
      → read_vehicle_config J st (opened_over d₀) ≡ o
      → ConfigFrom J st L (stored_first J st d₀) o
  first-ConfigFrom none e = tt
  first-ConfigFrom (some c) e = (c, e, refl)

  first-ProductionFrom :
      (o : Option ProductionInfo)
      → read_production_info J st (opened_over d₀) ≡ o
      → ProductionFrom J st L (stored_first J st d₀) o
  first-ProductionFrom none e = tt
  first-ProductionFrom (some p) e = (p, e, refl, refl, refl)

  -- Let the VIN that is stored on a disk, if any, be valid, and let the device always take a text
  -- whole or not at all. Let the program run any number of times over the disk, with a
  -- configuration of the same store or none, its server starting or not, any other faults of the
  -- device, any requests and any moment at which it ends or is killed. Then after that a VIN that is
  -- stored is valid, stored configuration data are those that were stored at first, and stored
  -- production data have the date, the batch and the station of those that were stored at first.
  pub lives_keep :
      (d : Disk)
      → IsWhole d₀.weather
      → BindingFrom J st L (stored_first J st d₀) (read_vehicle_binding J st (opened_over d₀))
      → Lived J st d₀ d
      → IsFrom J st L (stored_first J st d₀) (opened_over d)
  lives_keep d whole valid lived =
      Lived-DiskFrom J st L (stored_first J st d₀) (λ v ok. ok) d₀ d
        (record {
          whole = whole;
          binding = valid;
          config = first-ConfigFrom _ refl;
          production = first-ProductionFrom _ refl;
        })
        lived
