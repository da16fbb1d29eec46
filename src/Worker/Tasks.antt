-- ===== src/Worker/Tasks.antt =====
-- worker/tasks.py: the messages of the task queue and what an actor reads of them. The broker is not modelled:
-- a message is what `send` is given.
pub mod Messages
use true_nas_controller.Common.{
  ℕ, ◌||◌, Option, none, some, List, [], ◌∷◌, Text, is_empty, length, ltb, uuid_text, parse_uuid,
  map, if◌then◌else◌,
}
use true_nas_controller.Application.Draft.{PublishTaskPayload}

-- The arguments of the actor `publish_job`.
pub record PublishMessage : Type 0 where
  pub job_id : Text
  pub correlation_id : Text
  pub idempotency_key : Text

-- `DramatiqPublishTaskQueue.enqueue`
unfoldable pub publish_message : PublishTaskPayload → PublishMessage
publish_message payload = record {
  job_id = uuid_text payload.job_id;
  correlation_id = uuid_text payload.correlation_id;
  idempotency_key = payload.idempotency_key;
}

-- `PublishTaskPayload.from_raw`: `none` for `ValueError`.
unfoldable pub from_raw : PublishMessage → Option PublishTaskPayload
from_raw message =
    if is_empty message.idempotency_key || ltb 200 (length message.idempotency_key)
    then none
    else elim (parse_uuid message.job_id) [
      | none ↦ none
      | some job_id ↦ elim (parse_uuid message.correlation_id) [
        | none ↦ none
        | some correlation_id ↦ some (record {
          job_id = job_id;
          correlation_id = correlation_id;
          idempotency_key = message.idempotency_key;
        })
      ]
    ]

-- `DramatiqDatasetCleanupTaskQueue.enqueue`
unfoldable pub cleanup_message : List ℕ → List Text
cleanup_message artifact_ids = map uuid_text artifact_ids

-- `tuple(UUID(value) for value in artifact_ids)` of the actor
unfoldable pub parse_ids : List Text → Option (List ℕ)
parse_ids [] = some []
parse_ids (value ∷ values) = elim (parse_uuid value) [
  | none ↦ none
  | some id ↦ elim (parse_ids values) [ none ↦ none | some ids ↦ some (id ∷ ids) ]
]
