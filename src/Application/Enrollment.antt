-- ===== src/Application/Enrollment.antt =====
-- application/lifecycle.py: enrolling and bootstrapping the agent of a station with a one-time token.
use true_nas_controller.Common.{
  ℕ, true, not, Option, none, some, List, Text, is_some, ◌==◌, if◌then◌else◌,
}
use true_nas_controller.Domain.Station.{
  Station, StationRole, client, offline, role_eq, station_error,
}
use true_nas_controller.Domain.Token.{AgentBinding}
use true_nas_controller.Store.Database.{Database}
use true_nas_controller.Store.Session.{
  Result, err, value_error, enrollment_rejected, provisioning_rejected, provisioning_conflict, Tx,
  ◌>>=◌, ◌>>◌, pure, raise_if, or_raise, commit, unit_of_work,
}
use true_nas_controller.Store.Stations.{get_station, add_station, restore_station, update_hostname}
use true_nas_controller.Store.Tokens.{consume_enrollment, consume_provisioning}
use true_nas_controller.Store.Agents.{add_agent, get_by_agent_uuid, get_by_station_id}

-- What an agent sends to enroll, with the credential and the identifier that are drawn for it.
pub record AgentRequest : Type 0 where
  pub token : Text
  pub agent_uuid : ℕ
  pub hostname : Text
  pub agent_version : Text
  pub ip_addresses : List Text
  pub mac_addresses : List Text
  pub agent_id : ℕ
  pub raw_credential : Text

pub record EnrollmentResult : Type 0 where
  pub station_id : ℕ
  pub credential : Text
  pub server_time : ℕ

-- What a client sends to bootstrap itself, beside its `AgentRequest`.
pub record BootstrapRequest : Type 0 where
  pub agent : AgentRequest
  pub station_id : ℕ
  pub display_name : Text
  pub role : StationRole
  pub station_pk : ℕ

abbrev bootstrap_station : BootstrapRequest → Station
bootstrap_station b = record {
  id = b.station_pk;
  station_id = b.station_id;
  display_name = b.display_name;
  hostname = b.agent.hostname;
  role = b.role;
  status = offline;
  enabled = true;
  deleted_at = none;
  target_name = none;
  target_iqn = none;
  initiator_iqn = none;
  last_update_at = none;
}

-- A deleted station comes back under the new description, with its storage mapping.
abbrev revived : BootstrapRequest → Station → Station
revived b station = record station {
  display_name = b.display_name;
  hostname = b.agent.hostname;
  role = b.role;
  status = offline;
  enabled = true;
  deleted_at = none;
}

-- `Station(…)` raises `ValueError` where a check of the constructor fails.
abbrev checked : Station → Tx Station
checked station = do raise_if (is_some (station_error station)) value_error; pure station

abbrev keep_registered : BootstrapRequest → Station → Tx (Unit {0})
keep_registered b station = do
  raise_if (not (role_eq station.role b.role)) provisioning_conflict
  owner ← get_by_station_id b.station_id
  raise_if (is_some owner) provisioning_conflict
  update_hostname b.station_id b.agent.hostname

abbrev bootstrap_place : BootstrapRequest → Option Station → Tx (Unit {0})
bootstrap_place b none = do station ← checked (bootstrap_station b); add_station station
bootstrap_place b (some station) =
    if is_some station.deleted_at
    then (do back ← checked (revived b station); restore_station back)
    else keep_registered b station

module _ (hash_secret : Text → Text) where
  abbrev new_binding : AgentRequest → ℕ → ℕ → AgentBinding
  new_binding r station_id now = record {
    id = r.agent_id;
    station_id = station_id;
    agent_uuid = r.agent_uuid;
    agent_version = r.agent_version;
    credential_hash = hash_secret r.raw_credential;
    credential_created_at = now;
    revoked_at = none;
    station_enabled = true;
    station_deleted_at = none;
    last_ip_addresses = r.ip_addresses;
    last_mac_addresses = r.mac_addresses;
  }

  abbrev enrolled : AgentRequest → ℕ → ℕ → EnrollmentResult
  enrolled r station_id now = record {
    station_id = station_id;
    credential = r.raw_credential;
    server_time = now;
  }

  -- `EnrollAgentUseCase.execute`
  unfoldable pub enroll_in : AgentRequest → ℕ → Tx EnrollmentResult
  enroll_in r now = do
    found ← consume_enrollment (hash_secret r.token) now
    token ← or_raise found enrollment_rejected
    update_hostname token.station_id r.hostname
    add_agent (new_binding r token.station_id now)
    commit
    pure (enrolled r token.station_id now)

  unfoldable pub enroll_agent : AgentRequest → ℕ → Database → Result EnrollmentResult × Database
  unfolding enroll_in
  enroll_agent r now db = unit_of_work (enroll_in r now) db

  -- `BootstrapAgentUseCase.execute`
  unfoldable pub bootstrap_in : BootstrapRequest → ℕ → Tx EnrollmentResult
  bootstrap_in b now = do
    found ← consume_provisioning (hash_secret b.agent.token) now
    _ ← or_raise found provisioning_rejected
    existing ← get_by_agent_uuid b.agent.agent_uuid
    raise_if (is_some existing) provisioning_conflict
    station ← get_station b.station_id
    bootstrap_place b station
    add_agent (new_binding b.agent b.station_id now)
    commit
    pure (enrolled b.agent b.station_id now)

  unfoldable pub bootstrap_agent :
      BootstrapRequest → ℕ → Database → Result EnrollmentResult × Database
  unfolding bootstrap_in
  bootstrap_agent b now db =
      if not (role_eq b.role client)
      then (err provisioning_rejected, db)
      else if not (b.station_id == b.agent.agent_uuid)
      then (err provisioning_rejected, db)
      else unit_of_work (bootstrap_in b now) db
