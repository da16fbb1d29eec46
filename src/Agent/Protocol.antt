-- ===== src/Agent/Protocol.antt =====
-- agent/protocol.py: what the agent sends, and which commands of the server it accepts. The verifier of the
-- signatures is a parameter.
use true_nas_controller.Common.{
  ℕ, Bool, false, not, Option, none, some, List, Text, codes, text_eq, uuid_text, is_empty, leb,
  ◌==◌, if◌then◌else◌,
}
use true_nas_controller.Domain.Snapshot.{ProcessInfo, DriveInfo, ProcessSnapshot}

pub record AgentIdentity : Type 0 where
  pub station_id : ℕ
  pub hostname : Text
  pub agent_version : Text
  pub ip_addresses : List Text
  pub mac_addresses : List Text

-- The dict that `build` returns; instants stay numbers.
pub record HeartbeatPayload : Type 0 where
  pub protocol_version : Text
  pub station_id : Text
  pub hostname : Text
  pub ip_addresses : List Text
  pub mac_addresses : List Text
  pub agent_version : Text
  pub captured_at : ℕ
  pub processes : List ProcessInfo
  pub drives : List DriveInfo

-- `HeartbeatPayloadBuilder.build`: `none` for a snapshot of another station.
unfoldable pub build : AgentIdentity → ProcessSnapshot → Option HeartbeatPayload
build identity snapshot =
    if not (snapshot.station_id == identity.station_id)
    then none
    else some (record {
      protocol_version = codes "1";
      station_id = uuid_text snapshot.station_id;
      hostname = identity.hostname;
      ip_addresses = identity.ip_addresses;
      mac_addresses = identity.mac_addresses;
      agent_version = snapshot.agent_version;
      captured_at = snapshot.captured_at;
      processes = snapshot.processes;
      drives = snapshot.drives;
    })

pub record ServerCommand : Type 0 where
  pub command_id : ℕ
  pub name : Text
  pub expires_at : ℕ
  pub signature : Text

-- `AgentCommandValidator.validate`: whether the command is accepted.
unfoldable pub is_accepted : (ServerCommand → Bool) → ServerCommand → ℕ → Bool
is_accepted verify command now =
    if not (text_eq command.name (codes "refresh_process_snapshot"))
    then false
    else if is_empty command.signature
    then false
    else if leb command.expires_at now
    then false
    else verify command
