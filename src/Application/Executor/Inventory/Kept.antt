-- ===== src/Application/Executor/Inventory/Kept.antt =====
-- What holds of every table of artifacts (repository/publish_artifacts.py).
use mathlib.Core.Path.{subst}
use true_nas_controller.Common.{ℕ, refl, sym, Option, none, some, Text, arith, All-update_if}
use true_nas_controller.Domain.Publish.{PublishArtifact}
use true_nas_controller.Store.Database.{Database, empty_database}
use true_nas_controller.Store.Artifacts.{
  save_artifact, retire_station_artifacts, set_current_artifact, mark_deleted, mark_cleanup_failed,
  write_artifact, deletion, failure, find_artifact,
}
use true_nas_controller.Application.Executor.{record_artifact, build_artifact}
use true_nas_controller.Application.Executor.Inventory.{
  has_id, IsDated, IsInventory, after, Write, Writes,
}
use true_nas_controller.Application.Executor.Inventory.Write.{
  recorded, reconciled, removed, kept_back, elsewhere,
}
use true_nas_controller.Application.Executor.Inventory.Writes.{stop, next}
use true_nas_controller.Application.Executor.Inventory.Recorded.{
  IsInventory-recorded, build_artifact-IsDated,
}
use true_nas_controller.Application.Executor.Inventory.Written.{
  IsInventory-marked, IsInventory-written,
}

module _ (db : Database) (inv : IsInventory db.artifacts) where
  removed_row :
      (at : ℕ) (o : Option PublishArtifact)
      → IsInventory (after (write_artifact (deletion at) o) db).artifacts
  removed_row at none = inv
  removed_row at (some row) =
      IsInventory-written db.artifacts inv row.id (deletion at) (λ x. refl) (λ s x h. ground arith)
        (All-update_if IsDated (has_id row.id) (deletion at) db.artifacts
          (λ x h. record { dated = λ _. refl; in_use = λ p. cc }) inv.dated)

  kept_row :
      (message : Text) (o : Option PublishArtifact)
      → IsInventory (after (write_artifact (failure message) o) db).artifacts
  kept_row message none = inv
  kept_row message (some row) =
      IsInventory-written db.artifacts inv row.id (failure message) (λ x. refl) (λ s x h. h)
        (All-update_if IsDated (has_id row.id) (failure message) db.artifacts
          (λ x h. record { dated = λ p. cc; in_use = λ p. h.in_use p }) inv.dated)

write-IsInventory :
    {db db' : Database} → Write db db' → IsInventory db.artifacts → IsInventory db'.artifacts
unfolding build_artifact record_artifact retire_station_artifacts save_artifact set_current_artifact
    mark_deleted mark_cleanup_failed
write-IsInventory (recorded {db} id now job r ref fresh) inv =
    let a = build_artifact id now job r ref in
    IsInventory-recorded db.artifacts inv a fresh (build_artifact-IsDated id now job r ref)
write-IsInventory (reconciled {db} station_id e) inv =
    IsInventory-marked db.artifacts inv station_id e
write-IsInventory (removed {db} id at) inv = removed_row db inv at (find_artifact id db)
write-IsInventory (kept_back {db} id message) inv = kept_row db inv message (find_artifact id db)
write-IsInventory (elsewhere {db} {db'} e) inv = subst IsInventory (sym e) inv

kept : {a b : Database} → Writes a b → IsInventory a.artifacts → IsInventory b.artifacts
kept stop inv = inv
kept (next ws w) inv = write-IsInventory w (kept ws inv)

-- Whatever is recorded under a fresh identifier, reconciled, deleted or kept back in a database that has
-- begun empty, in any order, every artifact whose state is deleted has the time of its deletion, none in
-- use has one, no two artifacts have one identifier, and a station has one current artifact at most.
pub artifacts-IsInventory : (db : Database) → Writes empty_database db → IsInventory db.artifacts
artifacts-IsInventory db ws =
    kept ws (record { dated = tt; distinct = λ id. ground arith; one_current = λ s. ground arith })
