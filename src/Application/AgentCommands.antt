-- ===== src/Application/AgentCommands.antt =====
-- application/agent_commands.py and the heartbeat of application/lifecycle.py: commands are issued to
-- an agent, leased to it by its heartbeat, and acknowledged by it. `hash_secret` (SHA-256) and `sign`
-- (an asymmetric signature) are parameters. Instants and durations are microseconds.
pub mod Atomic
use true_nas_controller.Common.{
  ℕ, ◌+◌, ◌-◌, ◌*◌, not, ◌||◌, Option, none, some, List, Text, codes, text_eq, ltb, ◌==◌,
  if◌then◌else◌,
}
use true_nas_controller.Domain.Token.{AgentBinding, can_accept_heartbeat}
use true_nas_controller.Domain.Snapshot.{ProcessSnapshot}
use true_nas_controller.Domain.Command.{AgentCommand, refresh_process_snapshot, pending}
use true_nas_controller.Store.Database.{Database}
use true_nas_controller.Store.Session.{
  Error, Result, err, agent_command_issue, agent_command_agent_not_found,
  agent_command_unauthorized, agent_command_acknowledgement_rejected, agent_unauthorized,
  heartbeat_rejected, Tx, ◌>>=◌, ◌>>◌, pure, raise, raise_if, commit, unit_of_work,
}
use true_nas_controller.Store.Agents.{get_by_agent_uuid, get_by_credential_hash, record_heartbeat}
use true_nas_controller.Store.Commands.{add_command, claim_for_agent, acknowledge}
use true_nas_controller.Application.Lifecycle.{minute}

abbrev pub command_name : Text
command_name = codes "refresh_process_snapshot"

abbrev pub max_command_ttl : ℕ
max_command_ttl = 15 * minute

-- `HEARTBEAT_CLOCK_SKEW`, `AGENT_COMMAND_LEASE` and `AGENT_COMMAND_BATCH_SIZE`
abbrev pub heartbeat_clock_skew : ℕ
heartbeat_clock_skew = 5 * minute

abbrev pub agent_command_lease : ℕ
agent_command_lease = 30000000

abbrev pub agent_command_batch_size : ℕ
agent_command_batch_size = 16

-- `agent is None or not agent.can_accept_heartbeat()`
abbrev pub require_active : Error → Option AgentBinding → Tx AgentBinding
require_active e none = raise e
require_active e (some agent) = if not (can_accept_heartbeat agent) then raise e else pure agent

module _ (sign : ℕ → Text → ℕ → Text) where
  abbrev pub new_command : ℕ → ℕ → ℕ → AgentCommand
  new_command command_id agent_id expires_at = record {
    id = command_id;
    agent_id = agent_id;
    name = refresh_process_snapshot;
    expires_at = expires_at;
    signature = sign command_id command_name expires_at;
    status = pending;
    lease_until = none;
    attempts = 0;
  }

  unfoldable pub issue_in : ℕ → ℕ → ℕ → ℕ → Tx AgentCommand
  issue_in command_id agent_uuid expires_at now = do
    found ← get_by_agent_uuid agent_uuid
    agent ← require_active agent_command_agent_not_found found
    add_command now (new_command command_id agent.id expires_at)
    commit
    pure (new_command command_id agent.id expires_at)

  -- `IssueAgentCommandUseCase.execute`; a lifetime below zero is refused like zero.
  unfoldable pub issue_agent_command :
      ℕ → ℕ → Text → ℕ → ℕ → Database → Result AgentCommand × Database
  unfolding issue_in
  issue_agent_command command_id agent_uuid name ttl now db =
      if not (text_eq name command_name)
      then (err agent_command_issue, db)
      else if ltb ttl 1 || ltb max_command_ttl ttl
      then (err agent_command_issue, db)
      else unit_of_work (issue_in command_id agent_uuid (now + ttl) now) db

-- `abs(accepted_at - captured_at)`
abbrev pub distance : ℕ → ℕ → ℕ
distance a b = if ltb a b then b - a else a - b

pub record HeartbeatResult : Type 0 where
  pub station_id : ℕ
  pub received_at : ℕ
  pub commands : List AgentCommand

module _ (hash_secret : Text → Text) where
  unfoldable pub acknowledge_in : Text → ℕ → ℕ → Tx (Unit {0})
  acknowledge_in credential command_id now = do
    found ← get_by_credential_hash (hash_secret credential)
    agent ← require_active agent_command_unauthorized found
    acknowledged ← acknowledge agent.id command_id now
    raise_if (not acknowledged) agent_command_acknowledgement_rejected
    commit

  -- `AcknowledgeAgentCommandUseCase.execute`
  unfoldable pub acknowledge_agent_command : Text → ℕ → ℕ → Database → Result (Unit {0}) × Database
  unfolding acknowledge_in
  acknowledge_agent_command credential command_id now db =
      unit_of_work (acknowledge_in credential command_id now) db

  unfoldable pub heartbeat_in :
      Text
      → ProcessSnapshot
      → Option Text
      → Option (List Text)
      → Option (List Text)
      → ℕ
      → Tx HeartbeatResult
  heartbeat_in credential snapshot hostname ips macs now = do
    found ← get_by_credential_hash (hash_secret credential)
    agent ← require_active agent_unauthorized found
    raise_if (not (agent.station_id == snapshot.station_id)) agent_unauthorized
    record_heartbeat agent.id snapshot now hostname ips macs
    commands ← claim_for_agent agent.id now agent_command_lease agent_command_batch_size
    commit
    pure (record { station_id = snapshot.station_id; received_at = now; commands = commands })

  -- `ReceiveHeartbeatUseCase.execute` on normalised host data
  unfoldable pub receive_normalized :
      Text
      → ProcessSnapshot
      → Option Text
      → Option (List Text)
      → Option (List Text)
      → ℕ
      → Database
      → Result HeartbeatResult × Database
  unfolding heartbeat_in
  receive_normalized credential snapshot hostname ips macs now db =
      if ltb heartbeat_clock_skew (distance now snapshot.captured_at)
      then (err heartbeat_rejected, db)
      else unit_of_work (heartbeat_in credential snapshot hostname ips macs now) db
