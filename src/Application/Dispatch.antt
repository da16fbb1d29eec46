-- ===== src/Application/Dispatch.antt =====
-- application/publish_dispatch.py: a confirmed job enters `publishing`, with its task event in the
-- outbox, in one transaction.
pub mod Guarantees
use true_nas_controller.Common.{
  ℕ, Bool, false, not, ◌||◌, Option, none, some, List, [], ◌∷◌, Text, codes, text_eq, any, keep_if,
  is_empty, uuid_text,
}
use true_nas_controller.Domain.Preflight.{pass, warning}
use true_nas_controller.Domain.Publish.{
  PublishJob, PublishTarget, awaiting_confirmation, publishing, status_eq,
}
use true_nas_controller.Domain.Wizard.{is_true}
use true_nas_controller.Domain.Outbox.{OutboxEvent, pending, text}
use true_nas_controller.Store.Database.{Database}
use true_nas_controller.Store.Session.{
  Result, publish_job_not_found, publish_dispatch_state, Tx, ◌>>=◌, ◌>>◌, pure, raise_if, or_raise,
  commit, unit_of_work,
}
use true_nas_controller.Store.Jobs.{get_job, update_job}
use true_nas_controller.Store.Targets.{list_for_job}
use true_nas_controller.Store.Outbox.{add_event}
use true_nas_controller.Application.Confirmation.{status_value, move_job}

abbrev pub allowed_status : Option Text → Bool
allowed_status none = false
allowed_status (some s) = text_eq s (status_value pass) || text_eq s (status_value warning)

abbrev pub selected_targets : List PublishTarget → List PublishTarget
selected_targets targets = keep_if (λ (t : PublishTarget). t.selected) targets

-- `_validate`: the job may not be dispatched.
unfoldable pub not_dispatchable : PublishJob → List PublishTarget → Bool
not_dispatchable job targets =
    not (status_eq job.status awaiting_confirmation)
    || not (is_true job.client_confirmation)
    || is_empty (selected_targets targets)
    || any (selected_targets targets)
        (λ (t : PublishTarget). not (allowed_status t.preflight_status))

-- The task event, with the identifiers as strings.
unfoldable pub dispatch_event : ℕ → PublishJob → OutboxEvent
dispatch_event id job = record {
  id = id;
  aggregate_id = job.id;
  event_type = codes "publish.dispatch";
  payload =
      (codes "job_id", text (uuid_text job.id))
      ∷ (codes "correlation_id", text (uuid_text job.correlation_id))
      ∷ (codes "idempotency_key", text job.idempotency_key)
      ∷ [];
  correlation_id = job.correlation_id;
  status = pending;
  attempts = 0;
  available_at = none;
  created_at = none;
}

-- The body of the unit of work; `event_id` is `uuid4()`.
unfoldable pub dispatch_in : ℕ → ℕ → ℕ → Tx PublishJob
unfolding not_dispatchable
dispatch_in now event_id job_id = do
  found ← get_job job_id
  job ← or_raise found publish_job_not_found
  targets ← list_for_job job_id
  raise_if (not_dispatchable job targets) publish_dispatch_state
  moved ← move_job job publishing
  let updated = record moved { status_reason = none }
  update_job now updated
  add_event now (dispatch_event event_id updated)
  commit
  pure updated

-- `DispatchPublishJobUseCase.execute`
unfoldable pub dispatch_publish_job : ℕ → ℕ → ℕ → Database → Result PublishJob × Database
unfolding dispatch_in
dispatch_publish_job now event_id job_id db = unit_of_work (dispatch_in now event_id job_id) db
