-- ===== src/Tests/Storing.antt =====
-- Results, artifacts and the clean-up at concrete inputs.
use true_nas_controller.Application.Mappings.{
  read_live_state, map_station_mappings, reconcile_artifacts, current_id, artifact_matches_mapping,
  canonical_mapping,
}
use true_nas_controller.Domain.Station.{station_error}
use true_nas_controller.Store.Stations.{list_stations, to_station, update_last_update}
use true_nas_controller.Store.Targets.{list_for_job, update_target}
use true_nas_controller.Store.Jobs.{get_job}
use true_nas_controller.Common.{
  strip, ℕ, ◌+◌, ◌≡◌, refl, true, false, none, some, List, [], ◌∷◌, codes, Text, All, order_by,
}
use true_nas_controller.Domain.Publish.{
  StorageArtifactStatus, PublishArtifact, PublishTargetResult, PublishJob, verified, completed,
  current, retired,
}
use true_nas_controller.Store.Database.{Database, empty_database, constraints_hold}
use true_nas_controller.Store.Session.{ok, key_error, commit, unit_of_work}
use true_nas_controller.Store.Artifacts.{
  list_all, set_current_artifact, list_cleanup_candidates, mark_deleted, retire_station_artifacts,
  save_artifact,
}
use true_nas_controller.Workflow.Outcome.{Outcome, done}
use true_nas_controller.Workflow.Fake.{PublishWorkflowResult}
use true_nas_controller.Workflow.TrueNas.Plan.{TrueNasTarget, TrueNasExtent, TrueNasTargetExtent}
use true_nas_controller.Application.Executor.{
  PersistFresh, persist_result, record_artifact, build_artifact, write_results,
}
use true_nas_controller.Application.Executor.Persist.{persist_result_atomic}
use true_nas_controller.Application.Executor.Inventory.{IsInventory, after}
use true_nas_controller.Application.Executor.Inventory.Write.{recorded}
use true_nas_controller.Application.Executor.Inventory.Writes.{stop, next}
use true_nas_controller.Application.Executor.Inventory.Kept.{artifacts-IsInventory}
use true_nas_controller.Application.Datasets.{
  persist_current_state, set_current_artifacts, Client, list_datasets,
}
use true_nas_controller.Application.Datasets.Listed.{list_datasets-is_stored}
use true_nas_controller.Application.Retention.{
  CleanupConfig, clean_datasets, candidates, candidates_in, delete_all, remember_deleted,
}
use true_nas_controller.Application.Retention.Safety.{
  noted, is_out_of_use, clean_datasets_out_of_use,
}
use true_nas_controller.Application.Retention.Counts.{Accounted, clean_datasets-Accounted}
use true_nas_controller.Store.Jobs.{find_job, update_job}
use true_nas_controller.Application.Executor.JobWritten.{HasState, persist_result-HasState}
use true_nas_controller.Tests.Data.{waiting_job, job_in, target_a, waiting_db}

abbrev fresh_a : PersistFresh
fresh_a = record {
  artifact_id = λ n. 60 + n;
  station_clock = λ n. 2000;
  artifact_clock = λ n. 2000;
  job_clock = 2001;
}

abbrev result_for : ℕ → PublishTargetResult
result_for id = record {
  station_id = id;
  status = verified;
  old_mapping = some (codes "zvol/old");
  new_mapping = some (codes "zvol/tank/master-a");
  error_code = none;
  error_message = none;
  storage_created = true;
}

abbrev finished_job : PublishJob
finished_job = job_in completed false (some true)

-- The second result is of a station without a target.
abbrev stray_result : PublishWorkflowResult
stray_result = record {
  job = finished_job;
  master_mapping = some (codes "tank/master@v1");
  targets = result_for 21 ∷ result_for 99 ∷ [];
}

persist_result_atomic_example :
    (persist_result fresh_a finished_job (target_a ∷ []) stray_result waiting_db).1 ≡ waiting_db
unfolding persist_result unit_of_work get_job list_for_job order_by write_results update_target
    update_last_update record_artifact retire_station_artifacts save_artifact
persist_result_atomic_example =
    persist_result_atomic fresh_a finished_job (target_a ∷ []) stray_result waiting_db key_error
      refl

abbrev good_result : PublishWorkflowResult
good_result = record {
  job = finished_job;
  master_mapping = some (codes "tank/master@v1");
  targets = result_for 21 ∷ [];
}

persist_result-HasState_example :
    (row' : PublishJob) × (find_job 31
        (persist_result fresh_a finished_job (target_a ∷ []) good_result waiting_db).1
      ≡ some row')
    × HasState 2001 finished_job waiting_job row'
unfolding persist_result unit_of_work get_job list_for_job order_by write_results update_target
    update_last_update record_artifact retire_station_artifacts save_artifact build_artifact
    update_job commit constraints_hold
persist_result-HasState_example =
    persist_result-HasState fresh_a finished_job (target_a ∷ []) good_result waiting_job refl
      waiting_db (persist_result fresh_a finished_job (target_a ∷ []) good_result waiting_db).1 refl
      refl

abbrev artifact_a : PublishArtifact
artifact_a = record {
  id = 71;
  job_id = 30;
  station_id = 21;
  source_dataset = codes "tank/master";
  dataset_name = codes "tank/master-a";
  snapshot_ref = codes "tank/master@v0";
  mapping_ref = codes "zvol/tank/master-a";
  created_at = 5;
  status = retired;
  is_current = false;
  deleted_at = none;
  last_error = none;
}

abbrev stored_db : Database
stored_db = record waiting_db { artifacts = artifact_a ∷ [] }

artifacts-IsInventory_example :
    IsInventory
      (after
        (record_artifact (build_artifact 61 9 finished_job (result_for 21) none))
        empty_database).artifacts
artifacts-IsInventory_example =
    artifacts-IsInventory
      (after (record_artifact (build_artifact 61 9 finished_job (result_for 21) none))
        empty_database)
      (next stop (recorded 61 9 finished_job (result_for 21) none refl))

-- Station 21 is served the data set of the artifact.
abbrev targets_a : List TrueNasTarget
targets_a = record { id = 3; name = codes "hall-a" } ∷ []

abbrev associations_a : List TrueNasTargetExtent
associations_a = record { target_id = 3; extent_id = 4; lun_id = 0 } ∷ []

abbrev extents_a : List TrueNasExtent
extents_a = record { id = 4; path = some (codes "/dev/zvol/tank/master-a") } ∷ []

abbrev synced_db : Database
synced_db = record stored_db {
  artifacts = record artifact_a { status = current; is_current = true } ∷ [];
}

-- A storage that answers with these lists.
abbrev client_a : Client ℕ
client_a = record {
  reads = record {
    query_datasets = λ n. (done [], n);
    query_snapshots = λ n. (done [], n);
    query_targets = λ n. (done targets_a, n);
    query_extents = λ n. (done extents_a, n);
    query_target_extents = λ n. (done associations_a, n);
  };
  close = λ n. (done tt, n);
}

list_datasets-is_stored_example :
    list_datasets {World = ℕ} none true 0 synced_db synced_db
    ≡ (ok synced_db.artifacts, 0, synced_db)
unfolding list_datasets unit_of_work list_all list_stations order_by to_station station_error
    read_live_state persist_current_state map_station_mappings set_current_artifacts
    set_current_artifact commit constraints_hold reconcile_artifacts current_id
    artifact_matches_mapping canonical_mapping strip
list_datasets-is_stored_example =
    list_datasets-is_stored client_a stored_db synced_db synced_db.artifacts 0 0
      (record { agree = refl; unused = λ _. refl }, tt) refl

abbrev cleaning : CleanupConfig
cleaning = record { retention_days = 1; batch_size = 10; apply_enabled = true }

-- A storage that counts the deletions.
abbrev delete_a : Text → ℕ → Outcome (Unit {0}) × ℕ
delete_a name n = (done tt, 1 + n)

clean_datasets_out_of_use_example :
    All
      (λ name. is_out_of_use stored_db.artifacts name ≡ true)
      (clean_datasets (noted delete_a) cleaning true none 90000000000 (0, []) stored_db).1.1
clean_datasets_out_of_use_example =
    clean_datasets_out_of_use delete_a cleaning true none 90000000000 0 stored_db

abbrev cleaned_db : Database
cleaned_db = record stored_db {
  artifacts =
      record artifact_a { status = StorageArtifactStatus.deleted; deleted_at = some 90000000000 }
      ∷ [];
}

clean_datasets-Accounted_example :
    Accounted delete_a 90000000000 true
      (artifact_a ∷ [])
      0
      stored_db
      (record { inspected = 1; deleted = 1; failed = 0; dry_run = false })
      1
      cleaned_db
unfolding clean_datasets candidates unit_of_work candidates_in list_cleanup_candidates delete_all
    order_by remember_deleted mark_deleted commit constraints_hold
clean_datasets-Accounted_example =
    clean_datasets-Accounted delete_a 90000000000 cleaning true none 0 1 stored_db cleaned_db
      (artifact_a ∷ []) (record { inspected = 1; deleted = 1; failed = 0; dry_run = false }) refl
      refl
