-- ===== src/Domain/Publish.antt =====
-- domain/publish.py: the publish job, its states and its targets.
pub mod Machine
use true_nas_controller.Common.{
  ℕ, Bool, true, false, Option, none, some, List, [], ◌∷◌, Text, any, leb, if◌then◌else◌,
}
use true_nas_controller.Domain.Preflight.{PreflightReport}

pub data PublishJobStatus : Type 0 where
  draft preflight awaiting_confirmation publishing switching verifying : PublishJobStatus
  completed partial_failure failed : PublishJobStatus

abbrev pub status_eq : PublishJobStatus → PublishJobStatus → Bool
status_eq draft draft = true
status_eq preflight preflight = true
status_eq awaiting_confirmation awaiting_confirmation = true
status_eq publishing publishing = true
status_eq switching switching = true
status_eq verifying verifying = true
status_eq completed completed = true
status_eq partial_failure partial_failure = true
status_eq failed failed = true
status_eq _ _ = false

pub data TargetStatus : Type 0 where
  simulated verified error recovery_required : TargetStatus

pub data StorageArtifactStatus : Type 0 where
  current retired deleted cleanup_failed : StorageArtifactStatus

-- `ALLOWED_TRANSITIONS`
abbrev pub allowed_transitions : PublishJobStatus → List PublishJobStatus
allowed_transitions draft = preflight ∷ []
allowed_transitions preflight = awaiting_confirmation ∷ []
allowed_transitions awaiting_confirmation = publishing ∷ []
allowed_transitions publishing = switching ∷ completed ∷ failed ∷ []
allowed_transitions switching = verifying ∷ partial_failure ∷ failed ∷ []
allowed_transitions verifying = completed ∷ partial_failure ∷ failed ∷ []
allowed_transitions completed = []
allowed_transitions partial_failure = []
allowed_transitions failed = []

pub record PublishJob : Type 0 where
  pub id : ℕ
  pub idempotency_key : Text
  pub correlation_id : ℕ
  pub label : Text
  pub source_dataset : Text
  pub dry_run : Bool
  pub allow_hot_switch : Bool
  pub status : PublishJobStatus
  pub description : Option Text
  pub status_reason : Option Text
  pub operator_id : Option ℕ
  pub client_confirmation : Option Bool
  pub client_confirmation_at : Option ℕ
  pub created_at : Option ℕ
  pub started_at : Option ℕ
  pub completed_at : Option ℕ

-- `PublishJob.transition`; `none` stands for the `ValueError`.
unfoldable pub transition : PublishJob → PublishJobStatus → Option PublishJob
transition job target =
    if any (allowed_transitions job.status) (λ s. status_eq s target)
    then some (record job { status = target })
    else none

-- The JSON document `{"ref": mapping}`.
pub record MappingDocument : Type 0 where
  pub ref : Text

-- `preflight_result` is the report that the code serialises into the JSON column.
pub record PublishTarget : Type 0 where
  pub id : ℕ
  pub job_id : ℕ
  pub station_id : ℕ
  pub selected : Bool
  pub preflight_status : Option Text
  pub preflight_result : Option PreflightReport
  pub old_version_id : Option ℕ
  pub new_version_id : Option ℕ
  pub old_mapping : Option MappingDocument
  pub new_mapping : Option MappingDocument
  pub switch_status : Option Text
  pub verify_status : Option Text
  pub error_code : Option Text
  pub error_message : Option Text
  pub progress_percent : ℕ

-- `PublishTarget.__post_init__`
abbrev pub progress_ok : ℕ → Bool
progress_ok p = leb p 100

pub record PublishTargetResult : Type 0 where
  pub station_id : ℕ
  pub status : TargetStatus
  pub old_mapping : Option Text
  pub new_mapping : Option Text
  pub error_code : Option Text
  pub error_message : Option Text
  pub storage_created : Bool

pub record PublishArtifact : Type 0 where
  pub id : ℕ
  pub job_id : ℕ
  pub station_id : ℕ
  pub source_dataset : Text
  pub dataset_name : Text
  pub snapshot_ref : Text
  pub mapping_ref : Text
  pub created_at : ℕ
  pub status : StorageArtifactStatus
  pub is_current : Bool
  pub deleted_at : Option ℕ
  pub last_error : Option Text
