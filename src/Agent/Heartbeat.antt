-- ===== src/Agent/Heartbeat.antt =====
-- agent/heartbeat.py and agent/commands.py: the delivery of a snapshot with bounded retries, and the commands
-- that an answer brings. The transport, the refresh of the snapshot and the sleeps between the attempts are
-- parameters; a sleep is given the number of the attempt, from which agent/backoff.py takes its seconds.
pub mod Commands
pub mod Retries
use true_nas_controller.Common.{
  ℕ, zero, suc, ◌-◌, Bool, not, ◌||◌, Option, none, some, List, [], ◌∷◌, Text, elem, is_empty, ◌==◌,
  if◌then◌else◌,
}
use true_nas_controller.Domain.Snapshot.{ProcessSnapshot}
use true_nas_controller.Agent.Protocol.{
  AgentIdentity, HeartbeatPayload, build, ServerCommand, is_accepted,
}

-- The exceptions of the agent; `other` is any that it does not name.
pub data AgentError : Type 0 where
  transport invalid_command value_error other : AgentError

pub data Reply (A : Type 0) : Type 0 where
  done : A → Reply A
  raised : AgentError → Reply A

-- What the agent works with.
pub record Surroundings (World : Type 0) : Type 0 where
  pub send : HeartbeatPayload → Text → World → Reply (List ServerCommand) × World
  pub acknowledge : ℕ → Text → World → Reply (Unit {0}) × World
  pub refresh : World → Reply (Unit {0}) × World
  pub sleep : ℕ → World → World
  pub clock : World → ℕ
  pub verify : ServerCommand → Bool

pub record AgentConfig : Type 0 where
  pub identity : AgentIdentity
  pub credential : Text
  pub max_attempts : ℕ
  pub has_receiver : Bool

-- The world and `_handled_commands`.
pub record AgentState (World : Type 0) : Type 0 where
  pub world : World
  pub handled : List ℕ

module _ {World : Type 0} (around : Surroundings World) where
  abbrev pub Step : Type 0
  Step = AgentState World → Reply (Unit {0}) × AgentState World

  abbrev pub refreshed :
      ℕ → AgentState World → Reply (Unit {0}) × World → Reply (Unit {0}) × AgentState World
  refreshed id s (done _, w) = (done tt, record { world = w; handled = id ∷ s.handled })
  refreshed id s (raised e, w) = (raised e, record s { world = w })

  -- `AgentCommandHandler.handle`
  unfoldable pub handle : ServerCommand → ℕ → Step
  handle command now s =
      if not (is_accepted around.verify command now)
      then (raised invalid_command, s)
      else if elem command.command_id s.handled
      then (done tt, s)
      else refreshed command.command_id s (around.refresh s.world)

  abbrev pub and_then : Step → Step → Step
  and_then first rest s =
      let (r, s') = first s in elim r [ done _ ↦ rest s' | raised e ↦ (raised e, s') ]

  abbrev pub in_world : (World → Reply (Unit {0}) × World) → Step
  in_world f s = let (r, w) = f s.world in (r, record s { world = w })

  -- The loop over the commands of an answer.
  unfoldable pub handle_commands : Text → List ServerCommand → Step
  handle_commands credential [] = λ s. (done tt, s)
  handle_commands credential (command ∷ commands) =
      and_then (λ s. handle command (around.clock s.world) s)
        (and_then (in_world (around.acknowledge command.command_id credential))
          (handle_commands credential commands))

  abbrev pub answered : AgentConfig → Bool → Reply (List ServerCommand) → Step
  answered config process_commands (raised e) s = (raised e, s)
  answered config process_commands (done commands) s =
      if not process_commands || is_empty commands
      then (done tt, s)
      else if not config.has_receiver
      then (raised transport, s)
      else handle_commands config.credential commands s

  abbrev pub send_payload : AgentConfig → Bool → Option HeartbeatPayload → Step
  send_payload config process_commands none s = (raised value_error, s)
  send_payload config process_commands (some payload) s =
      let (r, w) = around.send payload config.credential s.world in
      answered config process_commands r (record s { world = w })

  -- `HeartbeatAgent.send_once`
  unfoldable pub send_once : AgentConfig → ProcessSnapshot → Bool → Step
  send_once config snapshot process_commands =
      send_payload config process_commands (build config.identity snapshot)

  -- After an attempt: another one only for a failure of the transport that is not the last.
  abbrev pub after_attempt : AgentConfig → ℕ → Step → Reply (Unit {0}) → Step
  after_attempt config attempt again (raised transport) s =
      if attempt == config.max_attempts - 1
      then (raised transport, s)
      else again (record s { world = around.sleep attempt s.world })
  after_attempt config attempt again r s = (r, s)

  -- The attempts that are left.
  unfoldable pub retry : AgentConfig → ProcessSnapshot → Bool → ℕ → ℕ → Step
  retry config snapshot process_commands zero attempt s = (done tt, s)
  retry config snapshot process_commands (suc left) attempt s =
      let (r, s') = send_once config snapshot process_commands s in
      after_attempt config attempt (retry config snapshot process_commands left (suc attempt)) r s'

  -- `HeartbeatAgent.send_with_retry`
  unfoldable pub send_with_retry : AgentConfig → ProcessSnapshot → Bool → Step
  send_with_retry config snapshot process_commands =
      retry config snapshot process_commands config.max_attempts 0
