-- ===== src/Application/Executor.antt =====
-- application/publish_executor.py: the unit of work that writes the outcome of a task.
pub mod Persist
pub mod JobWritten
pub mod Execute
pub mod Inventory
use true_nas_controller.Common.{
  ℕ, suc, Bool, true, not, ◌&&◌, Option, none, some, List, [], ◌∷◌, Text, codes, map, find_last,
  same_set, is_empty, removeprefix, ◌==◌, if◌then◌else◌,
}
use true_nas_controller.Domain.Publish.{
  PublishJob, PublishTarget, PublishTargetResult, PublishArtifact, MappingDocument, TargetStatus,
  simulated, verified, error, recovery_required, current, retired,
}
use true_nas_controller.Store.Database.{Database}
use true_nas_controller.Store.Session.{
  Result, key_error, publish_executor_state, Tx, ◌>>=◌, ◌>>◌, pure, raise_if, or_raise, commit,
  unit_of_work,
}
use true_nas_controller.Store.Stations.{update_last_update}
use true_nas_controller.Store.Jobs.{get_job, update_job}
use true_nas_controller.Store.Targets.{list_for_job, update_target}
use true_nas_controller.Store.Artifacts.{retire_station_artifacts, save_artifact}
use true_nas_controller.Workflow.Outcome.{is_verified}
use true_nas_controller.Workflow.Fake.{PublishWorkflowResult}
use true_nas_controller.Workflow.Fake
use true_nas_controller.Workflow.TrueNas

-- `_mapping_payload`
abbrev pub mapping_payload : Option Text → Option MappingDocument
mapping_payload none = none
mapping_payload (some ref) = some (record { ref = ref })

-- `TargetStatus.value`
abbrev status_text : TargetStatus → Text
status_text simulated = codes "simulated"
status_text verified = codes "verified"
status_text error = codes "error"
status_text recovery_required = codes "recovery_required"

-- `_switch_status`
abbrev pub switch_status : TargetStatus → Text
switch_status verified = codes "switched"
switch_status status = status_text status

-- `_verify_status`
abbrev pub verify_status : TargetStatus → Text
verify_status status = status_text status

-- `not mapping`
abbrev pub no_mapping : Option Text → Bool
no_mapping none = true
no_mapping (some ref) = is_empty ref

abbrev or_unknown : Option Text → Text
or_unknown none = codes "unknown"
or_unknown (some []) = codes "unknown"
or_unknown (some (c ∷ s)) = c ∷ s

abbrev or_blank : Option Text → Text
or_blank none = []
or_blank (some ref) = ref

-- What `uuid4()` and `datetime.now(UTC)` return while the n-th result is written.
pub record PersistFresh : Type 0 where
  pub artifact_id : ℕ → ℕ
  pub station_clock : ℕ → ℕ
  pub artifact_clock : ℕ → ℕ
  pub job_clock : ℕ

-- `_build_artifact`, which is called with a mapping only
unfoldable pub build_artifact :
    ℕ → ℕ → PublishJob → PublishTargetResult → Option Text → PublishArtifact
build_artifact id now job r snapshot_ref = record {
  id = id;
  job_id = job.id;
  station_id = r.station_id;
  source_dataset = job.source_dataset;
  dataset_name =
      removeprefix (removeprefix (or_blank r.new_mapping) (codes "/dev/")) (codes "zvol/");
  snapshot_ref = or_unknown snapshot_ref;
  mapping_ref = or_blank r.new_mapping;
  created_at = now;
  status = if is_verified r.status then current else retired;
  is_current = is_verified r.status;
  deleted_at = none;
  last_error = none;
}

-- The target with the result of its station.
abbrev pub with_result : PublishTargetResult → PublishTarget → PublishTarget
with_result r target = record target {
  old_mapping = mapping_payload r.old_mapping;
  new_mapping = mapping_payload r.new_mapping;
  switch_status = some (switch_status r.status);
  verify_status = some (verify_status r.status);
  error_code = r.error_code;
  error_message = r.error_message;
  progress_percent = 100;
}

-- `{target.station_id: target for target in targets}[id]`: the last target of the station.
abbrev pub target_of : ℕ → List PublishTarget → Option PublishTarget
target_of id targets = find_last (λ (t : PublishTarget). t.station_id == id) targets

abbrev pub station_ids : List PublishTarget → List ℕ
station_ids targets = map (λ (t : PublishTarget). t.station_id) targets

abbrev pub when : Bool → Tx (Unit {0}) → Tx (Unit {0})
when c m = if c then m else pure tt

-- The artifact of a clone that was made, and the retirement of the station's earlier ones.
unfoldable pub record_artifact : PublishArtifact → Tx (Unit {0})
record_artifact artifact = do
  retire_station_artifacts artifact.station_id artifact.id
  save_artifact artifact

module _ (fresh : PersistFresh) (job : PublishJob) (snapshot_ref : Option Text) where
  -- The target's columns, then the station's, then the artifact.
  unfoldable pub write_result : ℕ → PublishTargetResult → PublishTarget → Tx (Unit {0})
  write_result n r target = do
    update_target (with_result r target)
    when (not job.dry_run && is_verified r.status)
        (update_last_update r.station_id (fresh.station_clock n))
    when (not job.dry_run && r.storage_created && not (no_mapping r.new_mapping)) (
        record_artifact
          (build_artifact (fresh.artifact_id n) (fresh.artifact_clock n) job r snapshot_ref))

  -- The loop over `result.targets`.
  unfoldable pub write_results : ℕ → List PublishTarget → List PublishTargetResult → Tx (Unit {0})
  unfolding write_result
  write_results n targets [] = pure tt
  write_results n targets (r ∷ rs) = do
    target ← or_raise (target_of r.station_id targets) key_error
    write_result n r target
    write_results (suc n) targets rs

-- `_persist_result`
unfoldable pub persist_in :
    PersistFresh → PublishJob → List PublishTarget → PublishWorkflowResult → Tx (Unit {0})
persist_in fresh job targets result = do
  found ← get_job job.id
  _ ← or_raise found publish_executor_state
  now ← list_for_job job.id
  raise_if (not (same_set (station_ids now) (station_ids targets))) publish_executor_state
  write_results fresh job result.master_mapping 0 now result.targets
  update_job fresh.job_clock result.job
  commit

unfoldable pub persist_result :
    PersistFresh
    → PublishJob
    → List PublishTarget
    → PublishWorkflowResult
    → Database
    → Result (Unit {0}) × Database
unfolding persist_in
persist_result fresh job targets result db = unit_of_work (persist_in fresh job targets result) db
