-- ===== src/Store/Agents.antt =====
-- repository/agents.py and repository/snapshots.py: agent credentials, heartbeats and the latest
-- snapshot of a station.
use true_nas_controller.Common.{
  ℕ, Bool, false, ◌&&◌, ◌||◌, Option, none, some, List, [], ◌∷◌, ◌++◌, Text, codes, text_eq,
  find_first, keep_if, update_if, order_by, ltb, leb, is_none, ◌==◌, if◌then◌else◌,
}
use true_nas_controller.Domain.Station.{online}
use true_nas_controller.Domain.Snapshot.{ProcessSnapshot}
use true_nas_controller.Domain.Token.{AgentBinding}
use true_nas_controller.Store.Database.{Database, StationRow, AgentRow, SnapshotRow}
use true_nas_controller.Store.Stations.{find_station, write_station}
use true_nas_controller.Store.Session.{
  value_error, Tx, ◌>>=◌, ◌>>◌, pure, raise, gets, modify, one_or_none,
}

abbrev insert_agent : AgentBinding → Option StationRow → Tx (Unit {0})
insert_agent agent none = raise value_error
insert_agent agent (some station) = modify (λ db. record db {
  agents =
      db.agents
      ++ record {
        id = agent.id;
        station_pk = station.station.id;
        agent_uuid = agent.agent_uuid;
        agent_version = agent.agent_version;
        credential_hash = some agent.credential_hash;
        credential_created_at = agent.credential_created_at;
        revoked_at = agent.revoked_at;
        last_ip_addresses = agent.last_ip_addresses;
        last_mac_addresses = agent.last_mac_addresses;
        status = codes "enrolled";
        last_seen_at = none;
        last_heartbeat_at = none;
        last_process_snapshot_at = none;
        last_drive_snapshot_at = none;
      }
        ∷ [];
})

-- `add`
unfoldable pub add_agent : AgentBinding → Tx (Unit {0})
add_agent agent = do found ← gets (find_station agent.station_id); insert_agent agent found

abbrev join_agent :
    AgentRow → Option StationRow → List (AgentRow × StationRow) → List (AgentRow × StationRow)
join_agent row none rest = rest
join_agent row (some station) rest = (row, station) ∷ rest

-- `select(AgentRecord, StationRecord).join(...)`
abbrev pub agents_with_station : List StationRow → List AgentRow → List (AgentRow × StationRow)
agents_with_station stations [] = []
agents_with_station stations (row ∷ rows) =
    join_agent row (find_first (λ (s : StationRow). s.station.id == row.station_pk) stations)
      (agents_with_station stations rows)

-- `record.credential_hash or ""`
abbrev or_empty : Option Text → Text
or_empty none = []
or_empty (some t) = t

abbrev pub binding_of : AgentRow → StationRow → AgentBinding
binding_of row station = record {
  id = row.id;
  station_id = station.station.station_id;
  agent_uuid = row.agent_uuid;
  agent_version = row.agent_version;
  credential_hash = or_empty row.credential_hash;
  credential_created_at = row.credential_created_at;
  revoked_at = row.revoked_at;
  station_enabled = station.station.enabled;
  station_deleted_at = station.station.deleted_at;
  last_ip_addresses = row.last_ip_addresses;
  last_mac_addresses = row.last_mac_addresses;
}

abbrev pub optional_binding : Option (AgentRow × StationRow) → Tx (Option AgentBinding)
optional_binding none = pure none
optional_binding (some (row, station)) = pure (some (binding_of row station))

-- The joined rows that a query's `WHERE` keeps.
abbrev pub joined_agents : (AgentRow × StationRow → Bool) → Database → List (AgentRow × StationRow)
joined_agents p db = keep_if p (agents_with_station db.stations db.agents)

abbrev pub has_credential : Text → Option Text → Bool
has_credential hash none = false
has_credential hash (some t) = text_eq t hash

-- `get_by_credential_hash`
unfoldable pub get_by_credential_hash : Text → Tx (Option AgentBinding)
get_by_credential_hash hash = do
  rows ← gets (joined_agents (λ r. has_credential hash r.0.credential_hash))
  row ← one_or_none rows
  optional_binding row

-- `get_by_agent_uuid`
unfoldable pub get_by_agent_uuid : ℕ → Tx (Option AgentBinding)
get_by_agent_uuid agent_uuid = do
  rows ← gets (joined_agents (λ r. r.0.agent_uuid == agent_uuid))
  row ← one_or_none rows
  optional_binding row

-- `get_by_station_id`
unfoldable pub get_by_station_id : ℕ → Tx (Option AgentBinding)
get_by_station_id station_id = do
  rows ← gets (joined_agents (λ r. r.1.station.station_id == station_id))
  row ← one_or_none rows
  optional_binding row

abbrev given_or {ℓ} : {A : Type ℓ} → Option A → A → A
given_or none old = old
given_or (some new) _ = new

-- What a heartbeat writes into the agent row.
abbrev pub seen_agent :
    ProcessSnapshot → ℕ → Option (List Text) → Option (List Text) → AgentRow → AgentRow
seen_agent snapshot received_at ips macs row = record row {
  agent_version = snapshot.agent_version;
  last_seen_at = some received_at;
  last_heartbeat_at = some received_at;
  last_process_snapshot_at = some snapshot.captured_at;
  last_drive_snapshot_at = some snapshot.captured_at;
  last_ip_addresses = given_or ips row.last_ip_addresses;
  last_mac_addresses = given_or macs row.last_mac_addresses;
  status = codes "online";
}

-- What a heartbeat writes into the station row.
abbrev pub seen_station : Option Text → StationRow → StationRow
seen_station hostname row = record row {
  station = record row.station {
    hostname = given_or hostname row.station.hostname;
    status =
        if row.station.enabled && is_none row.station.deleted_at
        then online
        else row.station.status;
  };
}

abbrev record_for :
    ProcessSnapshot
    → ℕ
    → Option Text
    → Option (List Text)
    → Option (List Text)
    → Option (AgentRow × StationRow)
    → Tx (Unit {0})
record_for snapshot received_at hostname ips macs none = raise value_error
record_for snapshot received_at hostname ips macs (some (agent, station)) = do
  modify (λ db. record db {
    agents =
        update_if (λ (r : AgentRow). r.id == agent.id) (seen_agent snapshot received_at ips macs)
          db.agents;
  })
  modify (write_station station (seen_station hostname))
  modify (λ db. record db {
    snapshots =
        db.snapshots
        ++ record {
          station_pk = station.station.id;
          snapshot = snapshot;
          received_at = received_at;
        }
          ∷ [];
  })

-- `record_heartbeat`
unfoldable pub record_heartbeat :
    ℕ → ProcessSnapshot → ℕ → Option Text → Option (List Text) → Option (List Text) → Tx (Unit {0})
record_heartbeat agent_id snapshot received_at hostname ips macs = do
  rows ←
      gets
        (joined_agents (λ r. r.0.id == agent_id && r.1.station.station_id == snapshot.station_id))
  row ← one_or_none rows
  record_for snapshot received_at hostname ips macs row

abbrev newest_first : SnapshotRow → SnapshotRow → Bool
newest_first a b =
    ltb b.received_at a.received_at
    || (a.received_at == b.received_at && leb b.snapshot.captured_at a.snapshot.captured_at)

abbrev head_snapshot : ℕ → List SnapshotRow → Option ProcessSnapshot
head_snapshot station_id [] = none
head_snapshot station_id (row ∷ _) =
    some (record row.snapshot { station_id = station_id; received_at = some row.received_at })

abbrev snapshots_of : Option StationRow → Database → Option ProcessSnapshot
snapshots_of none db = none
snapshots_of (some station) db = head_snapshot station.station.station_id (
    order_by newest_first
      (keep_if (λ (r : SnapshotRow). r.station_pk == station.station.id) db.snapshots))

-- `SqlAlchemyProcessSnapshotRepository.latest`
unfoldable pub latest_snapshot : ℕ → Tx (Option ProcessSnapshot)
latest_snapshot station_id = gets (λ db. snapshots_of (find_station station_id db) db)
