-- ===== src/Store/Artifacts.antt =====
-- repository/publish_artifacts.py: the dataset clones that the publish jobs have created.
pub mod Cleanup
pub mod Settled
use true_nas_controller.Common.{
  ℕ, Bool, true, false, not, ◌&&◌, ◌||◌, Option, none, some, List, [], ◌∷◌, Text, text_eq,
  join_words, leb, ltb, find_first, update_if, keep_if, order_by, take, elem, ◌==◌, if◌then◌else◌,
}
use true_nas_controller.Domain.Publish.{
  PublishArtifact, StorageArtifactStatus, current, retired, deleted, cleanup_failed,
}
use true_nas_controller.Store.Database.{Database}
use true_nas_controller.Store.Session.{value_error, Tx, ◌>>=◌, ◌>>◌, raise, gets, modify}

abbrev pub is_deleted : StorageArtifactStatus → Bool
is_deleted deleted = true
is_deleted _ = false

-- `status in {RETIRED, CLEANUP_FAILED}`
abbrev pub is_removable : StorageArtifactStatus → Bool
is_removable retired = true
is_removable cleanup_failed = true
is_removable _ = false

abbrev pub newest_artifact_first : PublishArtifact → PublishArtifact → Bool
newest_artifact_first a b =
    ltb b.created_at a.created_at || (a.created_at == b.created_at && leb a.station_id b.station_id)

-- What `list_all` selects, in its order.
abbrev pub all_artifacts : Bool → List PublishArtifact → List PublishArtifact
all_artifacts include_deleted rows =
    order_by newest_artifact_first
      (keep_if (λ (a : PublishArtifact). include_deleted || not (is_deleted a.status)) rows)

-- `list_all`
unfoldable pub list_all : Bool → Tx (List PublishArtifact)
list_all include_deleted = gets (λ db. all_artifacts include_deleted db.artifacts)

-- `list_by_ids`
unfoldable pub list_by_ids : List ℕ → Tx (List PublishArtifact)
list_by_ids ids = gets (λ db. keep_if (λ (a : PublishArtifact). elem a.id ids) db.artifacts)

abbrev pub same_slot : PublishArtifact → PublishArtifact → Bool
same_slot a row = row.job_id == a.job_id && row.station_id == a.station_id

abbrev pub saved_over : PublishArtifact → PublishArtifact → PublishArtifact
saved_over artifact row = record row {
  source_dataset = artifact.source_dataset;
  dataset_name = artifact.dataset_name;
  snapshot_ref = artifact.snapshot_ref;
  mapping_ref = artifact.mapping_ref;
  status = artifact.status;
  is_current = artifact.is_current;
  deleted_at = artifact.deleted_at;
  last_error = artifact.last_error;
}

-- The table after `save`.
abbrev pub saved : PublishArtifact → List PublishArtifact → List PublishArtifact
saved artifact [] = artifact ∷ []
saved artifact (row ∷ rows) =
    let rest = saved artifact rows in
    if same_slot artifact row then saved_over artifact row ∷ rows else row ∷ rest

-- `save`: overwrites the row of the job and station, or inserts one.
unfoldable pub save_artifact : PublishArtifact → Tx (Unit {0})
save_artifact artifact = modify (λ db. record db { artifacts = saved artifact db.artifacts })

abbrev pub retire : PublishArtifact → PublishArtifact
retire row = record row { is_current = false; status = retired }

-- `retire_station_artifacts`
unfoldable pub retire_station_artifacts : ℕ → ℕ → Tx (Unit {0})
retire_station_artifacts station_id except_id = modify (λ db. record db {
  artifacts =
      update_if
        (λ (row : PublishArtifact).
          row.station_id == station_id && not (row.id == except_id) && row.is_current)
        retire db.artifacts;
})

abbrev pub retired_if_current : StorageArtifactStatus → StorageArtifactStatus
retired_if_current current = retired
retired_if_current status = status

abbrev pub is_same_id : ℕ → Option ℕ → Bool
is_same_id id none = false
is_same_id id (some other) = id == other

-- One pass of the loop in `set_current_artifact`.
abbrev pub marked : Option ℕ → PublishArtifact → PublishArtifact
marked artifact_id row =
    if is_deleted row.status
    then record row { is_current = false }
    else if is_same_id row.id artifact_id
    then record row { is_current = true; status = current; deleted_at = none; last_error = none }
    else record row { is_current = false; status = retired_if_current row.status }

-- `set_current_artifact`
unfoldable pub set_current_artifact : ℕ → Option ℕ → Tx (Unit {0})
set_current_artifact station_id artifact_id = modify (λ db. record db {
  artifacts =
      update_if (λ (row : PublishArtifact). row.station_id == station_id) (marked artifact_id)
        db.artifacts;
})

-- The `WHERE` of `list_cleanup_candidates`.
abbrev pub is_candidate : ℕ → PublishArtifact → Bool
is_candidate before row =
    not row.is_current
    && is_removable row.status
    && not (text_eq row.dataset_name row.source_dataset)
    && leb row.created_at before

-- `list_cleanup_candidates`
unfoldable pub list_cleanup_candidates : ℕ → ℕ → Tx (List PublishArtifact)
list_cleanup_candidates before limit = gets (λ db. take limit (
    order_by (λ (a b : PublishArtifact). leb a.created_at b.created_at)
      (keep_if (is_candidate before) db.artifacts)))

abbrev pub write_artifact :
    (PublishArtifact → PublishArtifact) → Option PublishArtifact → Tx (Unit {0})
write_artifact f none = raise value_error
write_artifact f (some row) = modify (λ db. record db {
  artifacts = update_if (λ (r : PublishArtifact). r.id == row.id) f db.artifacts;
})

abbrev pub find_artifact : ℕ → Database → Option PublishArtifact
find_artifact id db = find_first (λ (r : PublishArtifact). r.id == id) db.artifacts

abbrev pub deletion : ℕ → PublishArtifact → PublishArtifact
deletion deleted_at row = record row {
  status = deleted;
  is_current = false;
  deleted_at = some deleted_at;
  last_error = none;
}

-- `mark_deleted`
unfoldable pub mark_deleted : ℕ → ℕ → Tx (Unit {0})
mark_deleted artifact_id deleted_at = do
  found ← gets (find_artifact artifact_id)
  write_artifact (deletion deleted_at) found

abbrev pub failure : Text → PublishArtifact → PublishArtifact
failure message row = record row {
  status = cleanup_failed;
  last_error = some (take 1000 (join_words message));
}

-- `mark_cleanup_failed`
unfoldable pub mark_cleanup_failed : ℕ → Text → Tx (Unit {0})
mark_cleanup_failed artifact_id message = do
  found ← gets (find_artifact artifact_id)
  write_artifact (failure message) found
