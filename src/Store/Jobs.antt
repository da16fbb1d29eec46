-- ===== src/Store/Jobs.antt =====
-- repository/publish_jobs.py: the durable publish jobs. The row is the entity; `step` repeats the
-- status. `list_recent` is a read model and is not modelled.
use true_nas_controller.Common.{
  ℕ, Bool, true, false, not, ◌&&◌, Option, none, some, [], ◌∷◌, ◌++◌, Text, text_eq, find_first,
  update_if, is_none, ◌==◌, if◌then◌else◌,
}
use true_nas_controller.Domain.Publish.{
  PublishJob, PublishJobStatus, publishing, completed, partial_failure, failed, status_eq,
}
use true_nas_controller.Store.Database.{Database}
use true_nas_controller.Store.Session.{value_error, Tx, ◌>>=◌, raise, gets, modify}

abbrev pub find_job : ℕ → Database → Option PublishJob
find_job job_id db = find_first (λ (row : PublishJob). row.id == job_id) db.jobs

-- `get`
unfoldable pub get_job : ℕ → Tx (Option PublishJob)
get_job job_id = gets (find_job job_id)

abbrev pub find_key : Text → Database → Option PublishJob
find_key key db = find_first (λ (row : PublishJob). text_eq row.idempotency_key key) db.jobs

-- `get_by_idempotency_key`
unfoldable pub get_by_idempotency_key : Text → Tx (Option PublishJob)
get_by_idempotency_key key = gets (find_key key)

-- `job.created_at or utc_now()`
abbrev pub or_now : Option ℕ → ℕ → ℕ
or_now none now = now
or_now (some t) _ = t

-- The row that `add` inserts: it has no `started_at` and no `completed_at`.
abbrev pub job_row : ℕ → PublishJob → PublishJob
job_row now job = record job {
  created_at = some (or_now job.created_at now);
  started_at = none;
  completed_at = none;
}

-- `add`
unfoldable pub add_job : ℕ → PublishJob → Tx (Unit {0})
add_job now job = modify (λ db. record db { jobs = db.jobs ++ job_row now job ∷ [] })

abbrev pub is_finished : PublishJobStatus → Bool
is_finished completed = true
is_finished partial_failure = true
is_finished failed = true
is_finished _ = false

-- The columns that `update` writes; `now` is `utc_now()`. The idempotency key, the correlation id
-- and `created_at` stay.
abbrev pub written_job : ℕ → PublishJob → PublishJob → PublishJob
written_job now job row = record row {
  label = job.label;
  description = job.description;
  source_dataset = job.source_dataset;
  dry_run = job.dry_run;
  allow_hot_switch = job.allow_hot_switch;
  status = job.status;
  status_reason = job.status_reason;
  operator_id = job.operator_id;
  client_confirmation = job.client_confirmation;
  client_confirmation_at = job.client_confirmation_at;
  started_at =
      if not (status_eq row.status job.status)
        && (status_eq job.status publishing && is_none row.started_at)
      then some now
      else row.started_at;
  completed_at =
      if not (status_eq row.status job.status) && is_finished job.status
      then some now
      else row.completed_at;
}

abbrev pub write_job : ℕ → PublishJob → Option PublishJob → Tx (Unit {0})
write_job now job none = raise value_error
write_job now job (some row) = modify (λ db. record db {
  jobs = update_if (λ (r : PublishJob). r.id == row.id) (written_job now job) db.jobs;
})

-- `update`
unfoldable pub update_job : ℕ → PublishJob → Tx (Unit {0})
update_job now job = do found ← gets (find_job job.id); write_job now job found
