-- ===== src/Worker/Relay/Delivery.antt =====
-- What a dispatch writes is what the relay sends: application/publish_dispatch.py and
-- worker/outbox_relay.py agree on the payload.
use true_nas_controller.Common.{ℕ, ◌^◌, ◌<◌, ◌≡◌, refl, some, arith, parse_uuid-uuid_text}
use true_nas_controller.Domain.Publish.{PublishJob}
use true_nas_controller.Domain.Outbox.{OutboxEvent}
use true_nas_controller.Store.Outbox.{event_row, to_event}
use true_nas_controller.Application.Draft.{PublishTaskPayload}
use true_nas_controller.Application.Dispatch.{dispatch_event}
use true_nas_controller.Worker.Relay.{message_of, check_identity}

abbrev pub payload_of : PublishJob → PublishTaskPayload
payload_of job = record {
  job_id = job.id;
  correlation_id = job.correlation_id;
  idempotency_key = job.idempotency_key;
}

identity_passes :
    (event : OutboxEvent) (job : PublishJob)
    → event.aggregate_id ≡ job.id
    → event.correlation_id ≡ job.correlation_id
    → check_identity event job.idempotency_key (some job.id) (some job.correlation_id)
      ≡ some (payload_of job)
identity_passes event job a c = ground arith

-- The event of a dispatched job, stored in the outbox and read back, is accepted by the relay, and its
-- message names the job, its correlation id and its key.
pub message_of-dispatch_event :
    (now event_id : ℕ) (job : PublishJob)
    → job.id < 2 ^ 128
    → job.correlation_id < 2 ^ 128
    → message_of (to_event (event_row now (dispatch_event event_id job))) ≡ some (payload_of job)
unfolding message_of dispatch_event
message_of-dispatch_event now event_id job small small' =
    rw (parse_uuid-uuid_text job.id small, parse_uuid-uuid_text job.correlation_id small')
      (identity_passes (to_event (event_row now (dispatch_event event_id job))) job refl refl)
