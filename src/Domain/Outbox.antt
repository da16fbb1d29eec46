-- ===== src/Domain/Outbox.antt =====
-- domain/outbox.py: an event that waits for delivery. The payload is a JSON object whose values the
-- program writes as strings; a value that is no string is `other`.
use true_nas_controller.Common.{ℕ, Bool, true, false, Option, List, Text}

pub data OutboxEventStatus : Type 0 where
  pending dispatched failed : OutboxEventStatus

abbrev pub is_pending : OutboxEventStatus → Bool
is_pending pending = true
is_pending _ = false

pub data PayloadValue : Type 0 where
  text : Text → PayloadValue
  other : PayloadValue

pub record OutboxEvent : Type 0 where
  pub id : ℕ
  pub aggregate_id : ℕ
  pub event_type : Text
  pub payload : List (Text × PayloadValue)
  pub correlation_id : ℕ
  pub status : OutboxEventStatus
  pub attempts : ℕ
  pub available_at : Option ℕ
  pub created_at : Option ℕ
