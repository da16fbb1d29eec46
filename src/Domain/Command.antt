-- ===== src/Domain/Command.antt =====
-- domain/agent_command.py: the signed command for a station agent. There is one command name.
use true_nas_controller.Common.{ℕ, Bool, true, false, Option, Text}

pub data AgentCommandName : Type 0 where
  refresh_process_snapshot : AgentCommandName

pub data AgentCommandStatus : Type 0 where
  pending leased acknowledged expired : AgentCommandStatus

abbrev pub command_status_eq : AgentCommandStatus → AgentCommandStatus → Bool
command_status_eq pending pending = true
command_status_eq leased leased = true
command_status_eq acknowledged acknowledged = true
command_status_eq expired expired = true
command_status_eq _ _ = false

pub record AgentCommand : Type 0 where
  pub id : ℕ
  pub agent_id : ℕ
  pub name : AgentCommandName
  pub expires_at : ℕ
  pub signature : Text
  pub status : AgentCommandStatus
  pub lease_until : Option ℕ
  pub attempts : ℕ
