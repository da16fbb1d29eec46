-- ===== src/Application/Retention/Counts.antt =====
-- What a pass of the clean-up returns, and what it leaves of the artifacts that it inspected
-- (application/dataset_cleanup.py).
use true_nas_controller.Common.{
  ℕ, ◌≡◌, refl, sym, ap, ◌∙◌, Bool, true, false, not, Option, List, Text, arith, length,
  if◌then◌else◌,
}
use true_nas_controller.Domain.Publish.{PublishArtifact}
use true_nas_controller.Store.Database.{Database}
use true_nas_controller.Store.Session.{Result, ok, err, value_error}
use true_nas_controller.Workflow.Outcome.{Outcome}
use true_nas_controller.Application.Retention.{
  DatasetCleanupResult, CleanupConfig, candidates, delete_all, apply_to, clean, clean_datasets,
}
use true_nas_controller.Application.Retention.Attempts.{
  outcomes, world_after, rows_after, count_deleted, delete_all-Settles,
}

-- The answer of a pass that was enabled.
abbrev counts_of : ℕ → ℕ → ℕ → DatasetCleanupResult
counts_of n d f = record { inspected = n; deleted = d; failed = f; dry_run = false }

same_counts : (n a b c d : ℕ) → a ≡ c → b ≡ d → counts_of n a b ≡ counts_of n c d
same_counts n a b c d h k = rw (h, k) refl

module _ {World : Type 0} (delete_dataset : Text → World → Outcome (Unit {0}) × World)
    (now : ℕ) where
  -- Of the artifacts that a pass has inspected, and of what it leaves, where the deletion is enabled or not.
  abbrev pub Accounted :
      Bool
      → List PublishArtifact
      → World
      → Database
      → DatasetCleanupResult
      → World
      → Database
      → Type 0
  Accounted true artifacts w db r w' db' =
      (r ≡ record {
        inspected = length artifacts;
        deleted = count_deleted true (outcomes delete_dataset now artifacts w);
        failed = count_deleted false (outcomes delete_dataset now artifacts w);
        dry_run = false;
      })
      × (w' ≡ world_after delete_dataset now artifacts w)
      × (db'.artifacts ≡ rows_after delete_dataset now artifacts w db.artifacts)
  Accounted false artifacts w db r w' db' =
      (r ≡ record { inspected = length artifacts; deleted = 0; failed = 0; dry_run = true })
      × (w' ≡ w)
      × (db' ≡ db)

  applied :
      (artifacts : List PublishArtifact) (w w' : World) (db db' : Database)
      (r : DatasetCleanupResult)
      → (d : Result (ℕ × ℕ) × World × Database)
      → delete_all delete_dataset now artifacts (0, 0) w db ≡ d
      → let (x, w₁, db₁) = d in
        let found : Result DatasetCleanupResult × World × Database = (
          elim x as (λ _. Result DatasetCleanupResult) [
            | err e ↦ err e
            | ok (d, f) ↦
                ok (record {
                  inspected = length artifacts;
                  deleted = d;
                  failed = f;
                  dry_run = false;
                })
          ],
          w₁,
          db₁,
        ) in
        found ≡ (ok r, w', db') → Accounted true artifacts w db r w' db'
  applied artifacts w w' db db' r (err e, w₁, db₁) k h = cc
  applied artifacts w w' db db' r (ok (d, f), w₁, db₁) k h =
      let s = delete_all-Settles delete_dataset now artifacts (0, 0) (d, f) w w₁ db db₁ k in
      let result : r
          ≡ record { inspected = length artifacts; deleted = d; failed = f; dry_run = false } =
        cc in
      let world : w' ≡ w₁ = cc in
      let left : db' ≡ db₁ = cc in
      (
        result
            ∙ same_counts (length artifacts) d f _ _ (omega (arith, s.deletions))
                (omega (arith, s.failures)),
        world ∙ s.world,
        ap (λ (x : Database). x.artifacts) left ∙ s.table,
      )

  accounted :
      (on has_client : Bool) (artifacts : List PublishArtifact) (w w' : World) (db db' : Database)
      → (r : DatasetCleanupResult)
      → let answer : Result DatasetCleanupResult × World × Database = (
        ok (record { inspected = length artifacts; deleted = 0; failed = 0; dry_run = true }),
        w,
        db,
      ) in
        (if not on
            then answer
            else if not has_client
            then (err value_error, w, db)
            else apply_to delete_dataset now artifacts w db)
          ≡ (ok r, w', db')
        → Accounted on artifacts w db r w' db'
  accounted false has_client artifacts w w' db db' r h = (cc, cc, cc)
  accounted true false artifacts w w' db db' r h = cc
  accounted true true artifacts w w' db db' r h =
      applied artifacts w w' db db' r (delete_all delete_dataset now artifacts (0, 0) w db) refl h

  -- A pass that returns says whether it was enabled. An enabled one has tried to delete the data set of each
  -- artifact that it inspected, in order; the row of each is deleted at the time of the pass or has failed
  -- with its error, as the storage answered, and the result counts both. Another one has changed neither
  -- the storage nor the database.
  pub clean_datasets-Accounted :
      (config : CleanupConfig) (has_client : Bool) (ids : Option (List ℕ)) (w w' : World)
      (db db' : Database)
      → (artifacts : List PublishArtifact) (r : DatasetCleanupResult)
      → candidates config ids now db ≡ ok artifacts
      → clean_datasets delete_dataset config has_client ids now w db ≡ (ok r, w', db')
      → Accounted config.apply_enabled artifacts w db r w' db'
  unfolding clean_datasets
  clean_datasets-Accounted config has_client ids w w' db db' artifacts r c h =
      accounted config.apply_enabled has_client artifacts w w' db db' r
        (ap (clean delete_dataset config has_client now w db) (sym c) ∙ h)
