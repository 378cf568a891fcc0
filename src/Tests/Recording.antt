-- ===== src/Tests/Recording.antt =====
-- Writes of configuration and production data on an empty disk.
use iov_vehicle_tbox_prov.Base.{◌≡◌, refl, some}
use iov_vehicle_tbox_prov.Errors.{success}
use iov_vehicle_tbox_prov.Types.{ProductionInfo}
use iov_vehicle_tbox_prov.Json.Example.{example}
use iov_vehicle_tbox_prov.Store.{
  key_path, file_exists, find_file, read_from_file, remove_file, write_and_rename, atomic_write,
  save, load, new_store,
}
use iov_vehicle_tbox_prov.Storage
use iov_vehicle_tbox_prov.Service
use iov_vehicle_tbox_prov.Service.{on_storage, readback_production, is_initialized}
use iov_vehicle_tbox_prov.Service.Actions.{guard, on_failure, ◌▸◌}
use iov_vehicle_tbox_prov.Service.Data.{write_production_info-success}
use iov_vehicle_tbox_prov.Tests.{store, inputs, ready, info}

info-written : (Service.write_production_info example store inputs info ready).0 ≡ success
unfolding example Service.write_production_info guard on_failure ◌▸◌ on_storage readback_production
    Storage.write_production_info Storage.guarded_write Storage.read_production_info
    Storage.serialize_production_info Storage.deserialize_production_info Storage.production_of save
    load key_path file_exists find_file read_from_file remove_file write_and_rename atomic_write
    new_store
info-written = refl

write_production_info-success_example :
    (q : ProductionInfo) × (Storage.read_production_info example store
        (Service.write_production_info example store inputs info ready).1.storage
      ≡ some q)
    × (q.production_date ≡ info.production_date)
    × (q.batch_num ≡ info.batch_num)
    × (q.station_id ≡ info.station_id)
write_production_info-success_example =
    write_production_info-success example store inputs info ready info-written
