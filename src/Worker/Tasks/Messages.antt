-- ===== src/Worker/Tasks/Messages.antt =====
-- What is queued and what the worker reads (worker/tasks.py).
use true_nas_controller.Common.{
  ℕ, ◌<◌, ◌^◌, ◌≡◌, refl, false, some, List, [], ◌∷◌, All, arith, is_empty, length, ltb,
  parse_uuid-uuid_text, ◌≤◌,
}
use true_nas_controller.Application.Draft.{PublishTaskPayload}
use true_nas_controller.Worker.Tasks.{publish_message, from_raw, cleanup_message, parse_ids}

-- A payload that is queued with a key of 1 to 200 characters is read back as it was.
pub from_raw-publish_message :
    (payload : PublishTaskPayload)
    → payload.job_id < 2 ^ 128
    → payload.correlation_id < 2 ^ 128
    → is_empty payload.idempotency_key ≡ false
    → length payload.idempotency_key ≤ 200
    → from_raw (publish_message payload) ≡ some payload
unfolding from_raw publish_message
from_raw-publish_message payload j c e l =
    let short : ltb 200 (length payload.idempotency_key) ≡ false = ground arith in
    rw (e) (
      rw short (
        rw (parse_uuid-uuid_text payload.job_id j)
          (rw (parse_uuid-uuid_text payload.correlation_id c) refl)))

-- The selected artifacts arrive at the worker in their order.
pub parse_ids-cleanup_message :
    (ids : List ℕ) → All (λ id. id < 2 ^ 128) ids → parse_ids (cleanup_message ids) ≡ some ids
unfolding parse_ids cleanup_message
parse_ids-cleanup_message [] h = refl
parse_ids-cleanup_message (id ∷ ids) h =
    let rest = parse_ids-cleanup_message ids h.1 in
    rw (parse_ids, parse_uuid-uuid_text id h.0) (rw (parse_ids, rest) refl)
