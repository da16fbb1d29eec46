-- ===== src/Application/Draft.antt =====
-- application/publish_commands.py: creating a publish job under an idempotency key, and queueing it.
pub mod Atomic
use true_nas_controller.Common.{
  ℕ, suc, Bool, true, false, not, ◌&&◌, ◌||◌, Option, none, some, List, [], ◌∷◌, Text, text_eq,
  is_blank, length, ltb, map, same_set, all_distinct, is_empty, is_some, ◌==◌, if◌then◌else◌,
}
use true_nas_controller.Domain.Station.{Station}
use true_nas_controller.Domain.Publish.{PublishJob, PublishTarget, draft}
use true_nas_controller.Store.Database.{Database}
use true_nas_controller.Store.Session.{
  Result, ok, err, publish_draft_validation, publish_idempotency_conflict, publish_job_not_found,
  publish_task_payload_mismatch, Tx, ◌>>=◌, ◌>>◌, pure, raise, raise_if, or_raise, commit,
  unit_of_work,
}
use true_nas_controller.Store.Stations.{get_station}
use true_nas_controller.Store.Jobs.{get_job, get_by_idempotency_key, add_job}
use true_nas_controller.Store.Targets.{list_for_job, add_targets}

-- The arguments of `CreatePublishJobUseCase.execute`.
pub record PublishRequest : Type 0 where
  pub label : Text
  pub source_dataset : Text
  pub station_ids : List ℕ
  pub idempotency_key : Text
  pub correlation_id : ℕ
  pub description : Option Text
  pub dry_run : Bool
  pub allow_hot_switch : Bool
  pub operator_id : Option ℕ

-- What `uuid4()` and `datetime.now(UTC)` return during one call.
pub record Fresh : Type 0 where
  pub job_id : ℕ
  pub target_id : ℕ → ℕ
  pub now : ℕ
  pub clock : ℕ → ℕ

pub record PublishJobDraft : Type 0 where
  pub job : PublishJob
  pub targets : List PublishTarget

-- `_validate_request`: the request is refused.
unfoldable pub invalid_request : PublishRequest → Bool
invalid_request r =
    is_blank r.label
    || is_blank r.source_dataset
    || is_empty r.station_ids
    || not (all_distinct r.station_ids)
    || (is_empty r.idempotency_key || ltb 200 (length r.idempotency_key))

abbrev text_option_eq : Option Text → Option Text → Bool
text_option_eq none none = true
text_option_eq (some a) (some b) = text_eq a b
text_option_eq _ _ = false

abbrev id_option_eq : Option ℕ → Option ℕ → Bool
id_option_eq none none = true
id_option_eq (some a) (some b) = a == b
id_option_eq _ _ = false

abbrev bool_eq : Bool → Bool → Bool
bool_eq true b = b
bool_eq false b = not b

-- `_same_request`
unfoldable pub same_request : PublishJob → List PublishTarget → PublishRequest → Bool
same_request job targets r =
    text_eq job.label r.label
    && text_eq job.source_dataset r.source_dataset
    && text_option_eq job.description r.description
    && bool_eq job.dry_run r.dry_run
    && bool_eq job.allow_hot_switch r.allow_hot_switch
    && id_option_eq job.operator_id r.operator_id
    && job.correlation_id == r.correlation_id
    && same_set (map (λ (t : PublishTarget). t.station_id) targets) r.station_ids

abbrev require_enabled : Option Station → Tx (Unit {0})
require_enabled none = raise publish_draft_validation
require_enabled (some station) =
    raise_if (not station.enabled || is_some station.deleted_at) publish_draft_validation

-- The loop over `station_ids`.
unfoldable pub check_stations : List ℕ → Tx (Unit {0})
check_stations [] = pure tt
check_stations (station_id ∷ ids) = do
  station ← get_station station_id
  require_enabled station
  check_stations ids

abbrev pub new_job : PublishRequest → Fresh → PublishJob
new_job r fresh = record {
  id = fresh.job_id;
  idempotency_key = r.idempotency_key;
  correlation_id = r.correlation_id;
  label = r.label;
  source_dataset = r.source_dataset;
  dry_run = r.dry_run;
  allow_hot_switch = r.allow_hot_switch;
  status = draft;
  description = r.description;
  status_reason = none;
  operator_id = r.operator_id;
  client_confirmation = none;
  client_confirmation_at = none;
  created_at = some fresh.now;
  started_at = none;
  completed_at = none;
}

-- `PublishTarget(id=uuid4(), job_id=job.id, station_id=station_id)`
abbrev pub new_target : ℕ → ℕ → ℕ → PublishTarget
new_target id job_id station_id = record {
  id = id;
  job_id = job_id;
  station_id = station_id;
  selected = true;
  preflight_status = none;
  preflight_result = none;
  old_version_id = none;
  new_version_id = none;
  old_mapping = none;
  new_mapping = none;
  switch_status = none;
  verify_status = none;
  error_code = none;
  error_message = none;
  progress_percent = 0;
}

abbrev pub new_targets : Fresh → ℕ → List ℕ → List PublishTarget
new_targets fresh n [] = []
new_targets fresh n (station_id ∷ ids) =
    new_target (fresh.target_id n) fresh.job_id station_id ∷ new_targets fresh (suc n) ids

abbrev answer_existing : PublishRequest → PublishJob → List PublishTarget → Tx PublishJobDraft
answer_existing r existing targets =
    if same_request existing targets r
    then pure (record { job = existing; targets = targets })
    else raise publish_idempotency_conflict

-- The job is new: check the stations, insert the rows, commit.
unfoldable pub insert_draft : PublishRequest → Fresh → Tx PublishJobDraft
insert_draft r fresh = do
  check_stations r.station_ids
  add_job fresh.now (new_job r fresh)
  add_targets fresh.clock 0 (new_targets fresh 0 r.station_ids)
  commit
  pure (record { job = new_job r fresh; targets = new_targets fresh 0 r.station_ids })

abbrev create_or_answer : PublishRequest → Fresh → Option PublishJob → Tx PublishJobDraft
create_or_answer r fresh none = insert_draft r fresh
create_or_answer r fresh (some existing) = do
  targets ← list_for_job existing.id
  answer_existing r existing targets

unfoldable pub create_in : PublishRequest → Fresh → Tx PublishJobDraft
create_in r fresh = do
  existing ← get_by_idempotency_key r.idempotency_key
  create_or_answer r fresh existing

-- `CreatePublishJobUseCase.execute`
unfoldable pub create_publish_job :
    PublishRequest → Fresh → Database → Result PublishJobDraft × Database
create_publish_job r fresh db =
    if invalid_request r
    then (err publish_draft_validation, db)
    else unit_of_work (create_in r fresh) db

-- The message that the worker receives (worker/tasks.py).
pub record PublishTaskPayload : Type 0 where
  pub job_id : ℕ
  pub correlation_id : ℕ
  pub idempotency_key : Text

unfoldable pub check_enqueue : PublishTaskPayload → Tx (Unit {0})
check_enqueue p = do
  found ← get_job p.job_id
  job ← or_raise found publish_job_not_found
  raise_if (not (job.correlation_id == p.correlation_id)) publish_task_payload_mismatch
  raise_if (not (text_eq job.idempotency_key p.idempotency_key)) publish_task_payload_mismatch

abbrev sent {ℓ} : {A : Type ℓ} → A → Result (Unit {0}) × Database → Result A × Database
sent a (ok _, db) = (ok a, db)
sent a (err e, db) = (err e, db)

-- `EnqueuePublishJobUseCase.execute`: the result is the message that is handed to the queue.
unfoldable pub enqueue_publish_job :
    PublishTaskPayload → Database → Result PublishTaskPayload × Database
enqueue_publish_job p db = sent p (unit_of_work (check_enqueue p) db)
