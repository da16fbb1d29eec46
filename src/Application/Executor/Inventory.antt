-- ===== src/Application/Executor/Inventory.antt =====
-- The table of the artifacts under the operations that write it (repository/publish_artifacts.py,
-- application/publish_executor.py).
pub mod Recorded
pub mod Written
pub mod Kept
use true_nas_controller.Common.{
  ℕ, ◌≤◌, ◌≡◌, Bool, true, false, ◌&&◌, Option, List, Text, All, count, is_some, ◌==◌,
}
use true_nas_controller.Domain.Publish.{PublishJob, PublishTargetResult, PublishArtifact}
use true_nas_controller.Store.Database.{Database}
use true_nas_controller.Store.Session.{Tx}
use true_nas_controller.Store.Session.Committed.{session}
use true_nas_controller.Store.Artifacts.{
  is_deleted, set_current_artifact, mark_deleted, mark_cleanup_failed,
}
use true_nas_controller.Application.Executor.{record_artifact, build_artifact}

abbrev pub has_id : ℕ → PublishArtifact → Bool
has_id id a = a.id == id

-- The artifact is the current one of the station.
abbrev pub is_current_of : ℕ → PublishArtifact → Bool
is_current_of station_id a = a.station_id == station_id && a.is_current

-- A row that has the time of its deletion where its state is deleted, and none where it is in use.
pub record IsDated (a : PublishArtifact) : Type 0 where
  pub dated : is_deleted a.status ≡ true → is_some a.deleted_at ≡ true
  pub in_use : a.is_current ≡ true → is_some a.deleted_at ≡ false

-- An inventory in which a station has one current artifact at most.
pub record IsInventory (rows : List PublishArtifact) : Type 0 where
  pub dated : All IsDated rows
  pub distinct : (id : ℕ) → count (has_id id) rows ≤ 1
  pub one_current : (station_id : ℕ) → count (is_current_of station_id) rows ≤ 1

-- The tables that a block leaves to its commit.
abbrev pub after : Tx (Unit {0}) → Database → Database
after m db = (m (session db)).1.working

-- One write to the table: a clone that a run has made, with an identifier that is not in use; a
-- reconciliation; a deletion; a failed deletion. Anything else leaves the table alone.
pub data Write : Database → Database → Type 0 where
  recorded :
      {db : Database} (id now : ℕ) (job : PublishJob) (r : PublishTargetResult) (ref : Option Text)
      → count (has_id id) db.artifacts ≡ 0
      → Write db (after (record_artifact (build_artifact id now job r ref)) db)
  reconciled :
      {db : Database} (station_id : ℕ) (e : Option ℕ)
      → Write db (after (set_current_artifact station_id e) db)
  removed : {db : Database} (id at : ℕ) → Write db (after (mark_deleted id at) db)
  kept_back :
      {db : Database} (id : ℕ) (message : Text)
      → Write db (after (mark_cleanup_failed id message) db)
  elsewhere : {db db' : Database} → db'.artifacts ≡ db.artifacts → Write db db'

pub data Writes : Database → Database → Type 0 where
  stop : {db : Database} → Writes db db
  next : {a b c : Database} → Writes a b → Write b c → Writes a c
