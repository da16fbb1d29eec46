-- ===== src/Application/Stations.antt =====
-- application/stations.py: the operator's edits of a station.
use true_nas_controller.Common.{ℕ, Bool, not, Option, Text, is_some, if◌then◌else◌}
use true_nas_controller.Domain.Station.{
  Station, StationRole, StationStatus, offline, disabled, is_disabled, station_error,
}
use true_nas_controller.Store.Database.{Database}
use true_nas_controller.Store.Session.{
  Result, value_error, station_not_found, Tx, ◌>>=◌, ◌>>◌, pure, raise_if, or_raise, commit,
  unit_of_work,
}
use true_nas_controller.Store.Stations.{get_station, update_details, update_storage_mapping}

-- `next_status` of `UpdateStationUseCase`
abbrev next_status : Bool → StationStatus → StationStatus
next_status enabled status =
    if not enabled then disabled else if is_disabled status then offline else status

-- The entity that `replace(station, …)` builds, and checks.
abbrev edited : Text → Text → StationRole → Bool → Station → Station
edited display_name hostname role enabled station = record station {
  display_name = display_name;
  hostname = hostname;
  role = role;
  enabled = enabled;
  status = next_status enabled station.status;
}

unfoldable pub update_station_in : ℕ → Text → Text → StationRole → Bool → Tx Station
update_station_in station_id display_name hostname role enabled = do
  found ← get_station station_id
  station ← or_raise found station_not_found
  raise_if (is_some station.deleted_at) station_not_found
  raise_if (is_some (station_error (edited display_name hostname role enabled station))) value_error
  written ← update_details station_id display_name hostname role enabled
  result ← or_raise written station_not_found
  commit
  pure result

-- `UpdateStationUseCase.execute`
unfoldable pub update_station :
    ℕ → Text → Text → StationRole → Bool → Database → Result Station × Database
unfolding update_station_in
update_station station_id display_name hostname role enabled db =
    unit_of_work (update_station_in station_id display_name hostname role enabled) db

unfoldable pub update_mapping_in : ℕ → Option Text → Option Text → Option Text → Tx Station
update_mapping_in station_id target_name target_iqn initiator_iqn = do
  written ← update_storage_mapping station_id target_name target_iqn initiator_iqn
  result ← or_raise written station_not_found
  commit
  pure result

-- `UpdateStationStorageMappingUseCase.execute`
unfoldable pub update_station_storage_mapping :
    ℕ → Option Text → Option Text → Option Text → Database → Result Station × Database
unfolding update_mapping_in
update_station_storage_mapping station_id target_name target_iqn initiator_iqn db =
    unit_of_work (update_mapping_in station_id target_name target_iqn initiator_iqn) db
