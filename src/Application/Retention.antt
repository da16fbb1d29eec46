-- ===== src/Application/Retention.antt =====
-- application/dataset_cleanup.py: the deletion of data sets that no station uses any more. Each unit of
-- work starts from the database that the one before has left.
pub mod Safety
pub mod Attempts
pub mod Counts
use true_nas_controller.Common.{
  ℕ, suc, ◌-◌, ◌*◌, Bool, true, false, not, ◌&&◌, Option, none, some, List, [], ◌∷◌, Text, codes,
  take, join_words, length, keep_if, is_none, ltb, if◌then◌else◌,
}
use true_nas_controller.Domain.Publish.{PublishArtifact}
use true_nas_controller.Store.Database.{Database}
use true_nas_controller.Store.Session.{
  Result, ok, err, value_error, overflow_error, Tx, ◌>>=◌, ◌>>◌, pure, commit, unit_of_work,
}
use true_nas_controller.Store.Artifacts.{
  is_removable, list_by_ids, list_cleanup_candidates, mark_deleted, mark_cleanup_failed,
}
use true_nas_controller.Workflow.Outcome.{Outcome, done, unknown, failed}

-- `DatasetCleanupResult`
pub record DatasetCleanupResult : Type 0 where
  pub inspected : ℕ
  pub deleted : ℕ
  pub failed : ℕ
  pub dry_run : Bool

pub record CleanupConfig : Type 0 where
  pub retention_days : ℕ
  pub batch_size : ℕ
  pub apply_enabled : Bool

-- `DatasetCleanupUseCase.__init__`
unfoldable pub cleanup_config_ok : CleanupConfig → Bool
cleanup_config_ok config = not (ltb config.retention_days 1) && not (ltb config.batch_size 1)

-- Microseconds of a day.
abbrev pub day : ℕ
day = 86400000000

abbrev class_or : Text → Text → Text
class_or [] class_name = class_name
class_or (c ∷ s) class_name = c ∷ s

-- `_safe_error_detail`
unfoldable pub safe_error_detail : Text → Text → Text
safe_error_detail class_name message = class_or (take 300 (join_words message)) class_name

-- The condition on the artifacts that the caller has named.
abbrev pub may_remove : PublishArtifact → Bool
may_remove artifact =
    not artifact.is_current && is_none artifact.deleted_at && is_removable artifact.status

abbrev named : List PublishArtifact → List PublishArtifact
named artifacts = keep_if may_remove artifacts

-- The artifacts that the caller has named, or those of the retention rule.
unfoldable pub candidates_in : Option (List ℕ) → ℕ → ℕ → Tx (List PublishArtifact)
candidates_in none cutoff batch_size = list_cleanup_candidates cutoff batch_size
candidates_in (some ids) cutoff batch_size = do selected ← list_by_ids ids; pure (named selected)

-- The candidates of a pass. `current_time - timedelta(...)` is refused before the earliest instant.
unfoldable pub candidates :
    CleanupConfig → Option (List ℕ) → ℕ → Database → Result (List PublishArtifact)
candidates config artifact_ids now db =
    let span = config.retention_days * day in
    if ltb now span
    then err overflow_error
    else (unit_of_work (candidates_in artifact_ids (now - span) config.batch_size) db).0

unfoldable pub remember_deleted : PublishArtifact → ℕ → Database → Result (Unit {0}) × Database
remember_deleted artifact now db = unit_of_work (mark_deleted artifact.id now >> commit) db

unfoldable pub remember_failed : PublishArtifact → Text → Database → Result (Unit {0}) × Database
remember_failed artifact detail db =
    unit_of_work (mark_cleanup_failed artifact.id detail >> commit) db

module _ {World : Type 0} (delete_dataset : Text → World → Outcome (Unit {0}) × World) where
  -- What one deletion leaves in the database, and whether it succeeded.
  abbrev remember :
      PublishArtifact → ℕ → Outcome (Unit {0}) → Database → Result (Unit {0}) × Database
  remember artifact now (done _) db = remember_deleted artifact now db
  remember artifact now (unknown message) db =
      remember_failed artifact (safe_error_detail (codes "UnknownStorageOutcome") message) db
  remember artifact now (failed class_name message) db =
      remember_failed artifact (safe_error_detail class_name message) db

  abbrev counted : Outcome (Unit {0}) → ℕ × ℕ → ℕ × ℕ
  counted (done _) (d, f) = (suc d, f)
  counted _ (d, f) = (d, suc f)

  -- The loop over the candidates, with the counts `deleted` and `failed`.
  unfoldable pub delete_all :
      ℕ → List PublishArtifact → ℕ × ℕ → World → Database → Result (ℕ × ℕ) × World × Database
  delete_all now [] counts w db = (ok counts, w, db)
  delete_all now (artifact ∷ artifacts) counts w db =
      let (o, w') = delete_dataset artifact.dataset_name w in
      let (r, db') = remember artifact now o db in
      elim r [
        | err e ↦ (err e, w', db')
        | ok _ ↦ delete_all now artifacts (counted o counts) w' db'
      ]

  abbrev apply_to :
      ℕ → List PublishArtifact → World → Database → Result DatasetCleanupResult × World × Database
  apply_to now artifacts w db =
      let (r, w', db') = delete_all now artifacts (0, 0) w db in
      (
        elim r [
          | err e ↦ err e
          | ok (d, f) ↦
              ok (record { inspected = length artifacts; deleted = d; failed = f; dry_run = false })
        ],
        w',
        db',
      )

  -- After the candidates: nothing happens unless the deletion is enabled and a client is there.
  abbrev clean :
      CleanupConfig
      → Bool
      → ℕ
      → World
      → Database
      → Result (List PublishArtifact)
      → Result DatasetCleanupResult × World × Database
  clean config has_client now w db (err e) = (err e, w, db)
  clean config has_client now w db (ok artifacts) =
      let answer : Result DatasetCleanupResult × World × Database = (
        ok (record { inspected = length artifacts; deleted = 0; failed = 0; dry_run = true }),
        w,
        db,
      ) in
      if not config.apply_enabled
      then answer
      else if not has_client
      then (err value_error, w, db)
      else apply_to now artifacts w db

  -- `DatasetCleanupUseCase.execute`; `has_client` tells whether a client was passed.
  unfoldable pub clean_datasets :
      CleanupConfig
      → Bool
      → Option (List ℕ)
      → ℕ
      → World
      → Database
      → Result DatasetCleanupResult × World × Database
  clean_datasets config has_client artifact_ids now w db =
      clean config has_client now w db (candidates config artifact_ids now db)
