-- ===== src/Worker/Relay.antt =====
-- worker/outbox_relay.py: events are leased in one transaction, sent outside of it, and their outcome
-- is recorded in a transaction of its own. The queue is an external broker: `accepts n` says whether
-- it takes the message of the n-th event of a poll. The payload is a JSON object without repeated keys.
pub mod Counts
pub mod Delivery
pub mod Polls
pub mod Retries
use true_nas_controller.Common.{
  ℕ, suc, ◌+◌, ◌*◌, ◌^◌, min, Bool, true, false, not, ◌&&◌, ◌||◌, Option, none, some, List, [], ◌∷◌,
  Text, codes, text_eq, all, length, parse_uuid, is_blank, ltb, ◌==◌, if◌then◌else◌,
}
use true_nas_controller.Domain.Outbox.{OutboxEvent, PayloadValue, text, other}
use true_nas_controller.Store.Database.{Database}
use true_nas_controller.Store.Session.{Result, ok, err, Tx, ◌>>=◌, ◌>>◌, pure, commit, unit_of_work}
use true_nas_controller.Store.Outbox.{claim_pending, mark_dispatched, mark_failed}
use true_nas_controller.Application.Draft.{PublishTaskPayload}

pub record RelayConfig : Type 0 where
  pub worker_id : Text
  pub batch_size : ℕ
  pub max_attempts : ℕ
  pub lease_seconds : ℕ

-- `PublishOutboxRelay.__init__` accepts the settings.
unfoldable pub config_ok : RelayConfig → Bool
config_ok c =
    not (is_blank c.worker_id)
    && not (ltb c.batch_size 1)
    && not (ltb c.max_attempts 1)
    && not (ltb c.lease_seconds 1)

-- A second in microseconds.
abbrev pub second : ℕ
second = 1000000

-- `_retry_delay`
unfoldable pub retry_delay : ℕ → ℕ
retry_delay attempts = 2 ^ min (attempts + 1) 8 * second

abbrev pub key_job_id : Text
key_job_id = codes "job_id"

abbrev pub key_correlation_id : Text
key_correlation_id = codes "correlation_id"

abbrev pub key_idempotency_key : Text
key_idempotency_key = codes "idempotency_key"

-- The string under a key of the payload; `none` if it is absent or no string.
abbrev as_text : PayloadValue → Option Text
as_text (text t) = some t
as_text other = none

abbrev pub string_at : Text → List (Text × PayloadValue) → Option Text
string_at key [] = none
string_at key ((k, v) ∷ rest) =
    let later = string_at key rest in if text_eq k key then as_text v else later

-- `set(payload) == required`, with each value a string.
abbrev only_required : List (Text × PayloadValue) → Bool
only_required payload = all payload (λ kv.
    text_eq kv.0 key_job_id || text_eq kv.0 key_correlation_id || text_eq kv.0 key_idempotency_key)

abbrev check_identity : OutboxEvent → Text → Option ℕ → Option ℕ → Option PublishTaskPayload
check_identity event key (some job_id) (some correlation_id) =
    if not (job_id == event.aggregate_id) || not (correlation_id == event.correlation_id)
    then none
    else some (record { job_id = job_id; correlation_id = correlation_id; idempotency_key = key })
check_identity event key _ _ = none

abbrev parse_strings :
    OutboxEvent → Option Text → Option Text → Option Text → Option PublishTaskPayload
parse_strings event (some job_id) (some correlation_id) (some key) =
    check_identity event key (parse_uuid job_id) (parse_uuid correlation_id)
parse_strings event _ _ _ = none

-- `_send` up to the queue: the message, or `none` where it raises `ValueError`.
unfoldable pub message_of : OutboxEvent → Option PublishTaskPayload
message_of event =
    if not (text_eq event.event_type (codes "publish.dispatch"))
    then none
    else if not (only_required event.payload)
    then none
    else parse_strings event (string_at key_job_id event.payload)
        (string_at key_correlation_id event.payload) (string_at key_idempotency_key event.payload)

-- The event is handed over: the message is valid and the broker takes it.
abbrev pub sends : Option PublishTaskPayload → Bool → Bool
sends none accepted = false
sends (some _) accepted = accepted

-- The transaction that records the outcome of one event.
unfoldable pub record_outcome : RelayConfig → ℕ → OutboxEvent → Bool → Tx (Unit {0})
record_outcome config now event true = do mark_dispatched event.id now; commit
record_outcome config now event false = do
  mark_failed event.id (codes "outbox delivery failed") (now + retry_delay event.attempts)
      config.max_attempts
  commit

pub record OutboxRelayResult : Type 0 where
  pub claimed : ℕ
  pub dispatched : ℕ
  pub failed : ℕ

abbrev counted : Bool → OutboxRelayResult → OutboxRelayResult
counted true r = record r { dispatched = r.dispatched + 1 }
counted false r = record r { failed = r.failed + 1 }

-- The first transaction of a poll.
unfoldable pub claim_in : RelayConfig → ℕ → Tx (List OutboxEvent)
claim_in config now = do
  events ← claim_pending config.batch_size config.worker_id now (config.lease_seconds * second)
  commit
  pure events

module _ (config : RelayConfig) (now : ℕ) (accepts : ℕ → Bool) where
  -- The loop over the leased events; an exception of the recording transaction ends the poll.
  unfoldable pub relay_events :
      ℕ → List OutboxEvent → OutboxRelayResult → Database → Result OutboxRelayResult × Database
  relay_events n [] acc db = (ok acc, db)
  relay_events n (event ∷ events) acc db =
      let sent = sends (message_of event) (accepts n) in
      let (r, db') = unit_of_work (record_outcome config now event sent) db in
      elim r [ ok _ ↦ relay_events (suc n) events (counted sent acc) db' | err e ↦ (err e, db') ]

  abbrev relay_claimed : Result (List OutboxEvent) × Database → Result OutboxRelayResult × Database
  relay_claimed (err e, db) = (err e, db)
  relay_claimed (ok events, db) =
      relay_events 0 events (record { claimed = length events; dispatched = 0; failed = 0 }) db

  -- `run_once`
  unfoldable pub run_once : Database → Result OutboxRelayResult × Database
  unfolding relay_events claim_in
  run_once db = relay_claimed (unit_of_work (claim_in config now) db)
