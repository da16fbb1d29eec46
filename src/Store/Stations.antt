-- ===== src/Store/Stations.antt =====
-- repository/stations.py: the station registry.
use true_nas_controller.Common.{
  ℕ, Bool, true, false, not, ◌&&◌, ◌||◌, Option, none, some, List, [], ◌∷◌, ◌++◌, Text, codes, any,
  keep_if, order_by, leb, text_eq, text_leb, find_first, update_if, is_some, is_none, ◌==◌,
  if◌then◌else◌,
}
use true_nas_controller.Domain.Station.{
  Station, StationRole, StationStatus, offline, disabled, is_disabled, station_error,
}
use true_nas_controller.Store.Database.{Database, StationRow, AgentRow, CommandRow, EnrollmentRow}
use true_nas_controller.Store.Session.{
  value_error, Result, ok, err, Tx, ◌>>=◌, ◌>>◌, pure, raise, lift, gets, modify,
}

abbrev pub has_station_id : ℕ → StationRow → Bool
has_station_id station_id row = row.station.station_id == station_id

-- `StationRecord.deleted_at.is_(None)` beside the stable id
abbrev pub is_live : ℕ → StationRow → Bool
is_live station_id row = row.station.station_id == station_id && is_none row.station.deleted_at

abbrev pub find_station : ℕ → Database → Option StationRow
find_station station_id db = find_first (has_station_id station_id) db.stations

abbrev pub find_live : ℕ → Database → Option StationRow
find_live station_id db = find_first (is_live station_id) db.stations

-- `_to_domain`: the entity's constructor checks what it is given.
unfoldable pub to_station : StationRow → Result Station
to_station row = if is_some (station_error row.station) then err value_error else ok row.station

abbrev pub optional_station : Option StationRow → Tx (Option Station)
optional_station none = pure none
optional_station (some row) = do station ← lift (to_station row); pure (some station)

-- A write to the row that a query has found, by its primary key.
abbrev pub write_station : StationRow → (StationRow → StationRow) → Database → Database
write_station found f db = record db {
  stations = update_if (λ (row : StationRow). row.station.id == found.station.id) f db.stations;
}

-- `get`
unfoldable pub get_station : ℕ → Tx (Option Station)
unfolding to_station
get_station station_id = do found ← gets (find_station station_id); optional_station found

-- `ORDER BY display_name, station_id`, with names compared by code points
abbrev by_name : StationRow → StationRow → Bool
by_name a b =
    text_leb a.station.display_name b.station.display_name
    && (not (text_eq a.station.display_name b.station.display_name)
        || leb a.station.station_id b.station.station_id)

abbrev to_stations : List StationRow → Tx (List Station)
to_stations [] = pure []
to_stations (row ∷ rows) = do
  station ← lift (to_station row)
  rest ← to_stations rows
  pure (station ∷ rest)

-- `list`
unfoldable pub list_stations : Bool → Tx (List Station)
list_stations include_disabled = do
  rows ← gets (λ db. order_by by_name (
      keep_if
        (λ (r : StationRow).
          is_none r.station.deleted_at && (include_disabled || r.station.enabled))
        db.stations))
  to_stations rows

-- `add`
unfoldable pub add_station : Station → Tx (Unit {0})
add_station station = modify (λ db. record db {
  stations = db.stations ++ record { station = station; state_reason = none } ∷ [];
})

-- What `restore` writes: all but the identifiers and `last_update_at`.
abbrev pub restored : Station → StationRow → StationRow
restored station row = record {
  station = record station {
    id = row.station.id;
    station_id = row.station.station_id;
    last_update_at = row.station.last_update_at;
  };
  state_reason = none;
}

abbrev restore_found : Station → Option StationRow → Tx (Unit {0})
restore_found station none = raise value_error
restore_found station (some row) =
    if is_none row.station.deleted_at
    then raise value_error
    else modify (write_station row (restored station))

-- `restore`
unfoldable pub restore_station : Station → Tx (Unit {0})
restore_station station = do
  found ← gets (find_station station.station_id)
  restore_found station found

abbrev pub with_hostname : Text → StationRow → StationRow
with_hostname hostname row = record row { station = record row.station { hostname = hostname } }

abbrev write_hostname : Text → Option StationRow → Tx (Unit {0})
write_hostname hostname none = raise value_error
write_hostname hostname (some row) = modify (write_station row (with_hostname hostname))

-- `update_hostname`
unfoldable pub update_hostname : ℕ → Text → Tx (Unit {0})
update_hostname station_id hostname = do
  found ← gets (find_station station_id)
  write_hostname hostname found

abbrev pub with_mapping : Option Text → Option Text → Option Text → StationRow → StationRow
with_mapping target_name target_iqn initiator_iqn row = record row {
  station = record row.station {
    target_name = target_name;
    target_iqn = target_iqn;
    initiator_iqn = initiator_iqn;
  };
}

-- Writes the row by `f` and returns it as an entity, `none` when it was not found.
abbrev write_and_read : (StationRow → StationRow) → Option StationRow → Tx (Option Station)
write_and_read f none = pure none
write_and_read f (some row) = do
  modify (write_station row f)
  station ← lift (to_station (f row))
  pure (some station)

-- `update_storage_mapping`
unfoldable pub update_storage_mapping :
    ℕ → Option Text → Option Text → Option Text → Tx (Option Station)
unfolding to_station
update_storage_mapping station_id target_name target_iqn initiator_iqn = do
  found ← gets (find_live station_id)
  write_and_read (with_mapping target_name target_iqn initiator_iqn) found

abbrev pub next_state : Bool → StationStatus → StationStatus
next_state enabled state =
    if enabled && is_disabled state then offline else if not enabled then disabled else state

abbrev pub with_details : Text → Text → StationRole → Bool → StationRow → StationRow
with_details display_name hostname role enabled row = record row {
  station = record row.station {
    display_name = display_name;
    hostname = hostname;
    role = role;
    enabled = enabled;
    status = next_state enabled row.station.status;
  };
}

-- `update_details`
unfoldable pub update_details : ℕ → Text → Text → StationRole → Bool → Tx (Option Station)
unfolding to_station
update_details station_id display_name hostname role enabled = do
  found ← gets (find_live station_id)
  write_and_read (with_details display_name hostname role enabled) found

abbrev pub with_last_update : ℕ → StationRow → StationRow
with_last_update updated_at row = record row {
  station = record row.station { last_update_at = some updated_at };
}

abbrev pub write_last_update : ℕ → Option StationRow → Tx (Unit {0})
write_last_update updated_at none = raise value_error
write_last_update updated_at (some row) = modify (write_station row (with_last_update updated_at))

-- `update_last_update`
unfoldable pub update_last_update : ℕ → ℕ → Tx (Unit {0})
update_last_update station_id updated_at = do
  found ← gets (find_live station_id)
  write_last_update updated_at found

abbrev pub removed : ℕ → StationRow → StationRow
removed deleted_at row = record {
  station = record row.station { enabled = false; status = disabled; deleted_at = some deleted_at };
  state_reason = some (codes "removed by operator");
}

-- Deletes the station's agent and the agent's commands, revokes its open enrollment tokens.
abbrev pub purge : StationRow → ℕ → Database → Database
purge found deleted_at db =
    let of_station = λ (a : AgentRow). a.station_pk == found.station.id in
    record db {
      commands =
          keep_if
            (λ (c : CommandRow).
              not (any db.agents (λ (a : AgentRow). of_station a && a.id == c.command.agent_id)))
            db.commands;
      agents = keep_if (λ (a : AgentRow). not (of_station a)) db.agents;
      enrollment_tokens =
          update_if
            (λ (t : EnrollmentRow). t.station_pk == found.station.id && is_none t.revoked_at)
            (λ (t : EnrollmentRow). record t { revoked_at = some deleted_at }) db.enrollment_tokens;
    }

abbrev delete_found : ℕ → Option StationRow → Tx Bool
delete_found deleted_at none = pure false
delete_found deleted_at (some row) = do
  modify (purge row deleted_at)
  modify (write_station row (removed deleted_at))
  pure true

-- `delete`
unfoldable pub delete_station : ℕ → ℕ → Tx Bool
delete_station station_id deleted_at = do
  found ← gets (find_live station_id)
  delete_found deleted_at found
