-- ===== src/Application/Datasets/Listed.antt =====
-- What a listing leaves for the next one (application/datasets.py).
use true_nas_controller.Common.{◌≡◌, refl, sym, ap, ◌∙◌, true, none, some, List, All}
use true_nas_controller.Domain.Station.{Station}
use true_nas_controller.Domain.Publish.{PublishArtifact}
use true_nas_controller.Store.Database.{Database}
use true_nas_controller.Store.Session.{Result, ok, err, Session, Tx, ◌>>=◌, pure, unit_of_work}
use true_nas_controller.Store.Session.Committed.{session}
use true_nas_controller.Store.Stations.{list_stations}
use true_nas_controller.Store.Artifacts.{all_artifacts, list_all}
use true_nas_controller.Store.Artifacts.Settled.{Settled}
use true_nas_controller.Application.Mappings.{LiveState, read_live_state}
use true_nas_controller.Application.Mappings.Keys.{DistinctKeys, read_live_state-DistinctKeys}
use true_nas_controller.Application.Datasets.{
  Client, listed_in, shown, synced, list_datasets, persist_current_state,
}
use true_nas_controller.Application.Datasets.Persisted.{persist_current_state-reconciles}

-- What the first unit of work has read.
listed_first :
    (db : Database) (first : Result (List Station) × Session) (artifacts : List PublishArtifact)
    (stations : List Station)
    → let then_pair : List Station → Tx (List PublishArtifact × List Station) =
        λ ss. pure (all_artifacts true db.artifacts, ss) in
      let wanted : List PublishArtifact × List Station = (artifacts, stations) in
      (((λ _. first) >>= then_pair) (session db)).0 ≡ ok wanted
      → artifacts ≡ all_artifacts true db.artifacts
listed_first db (ok ss, s) artifacts stations h = cc
listed_first db (err e, s) artifacts stations h = cc

listed_artifacts :
    (db : Database) (artifacts : List PublishArtifact) (stations : List Station)
    → (unit_of_work (listed_in true) db).0 ≡ ok (artifacts, stations)
    → artifacts ≡ all_artifacts true db.artifacts
unfolding unit_of_work list_all
listed_artifacts db artifacts stations h =
    listed_first db (list_stations true (session db)) artifacts stations h

module _ {World : Type 0} (client : Client World) where
  -- After the live state: it is written, and shown.
  shown_is_stored :
      (mappings_of : LiveState) (db db' : Database) (listed : List PublishArtifact) (w w' : World)
      → All Settled db.artifacts
      → DistinctKeys mappings_of.mappings
      → (p : Result (Unit {0}) × Database)
      → persist_current_state (all_artifacts true db.artifacts) mappings_of.mappings db ≡ p
      → let (x, left) = p in
        (elim x as (λ _. Result (List PublishArtifact) × World × Database) [
          | err e ↦ (err e, w, left)
          | ok _ ↦ (ok (shown true (all_artifacts true db.artifacts) mappings_of), w, left)
        ])
          ≡ (ok listed, w', db')
        → all_artifacts true db'.artifacts ≡ listed
  shown_is_stored live db db' listed w w' s d (err e, left) p h = cc
  shown_is_stored live db db' listed w w' s d (ok _, left) p h =
      let same : left ≡ db' = cc in
      let seen : shown true (all_artifacts true db.artifacts) live ≡ listed = cc in
      ap (λ (x : Database). all_artifacts true x.artifacts) (sym same)
      ∙ persist_current_state-reconciles live.mappings db left s d p
      ∙ seen

  synced_is_stored :
      (stations : List Station) (db db' : Database) (listed : List PublishArtifact) (w w' : World)
      → All Settled db.artifacts
      → (read : Result LiveState × World)
      → read_live_state client.reads client.close stations w ≡ read
      → let (r, v) = read in
        (elim r as (λ _. Result (List PublishArtifact) × World × Database) [
          | err e ↦ (err e, v, db)
          | ok live ↦
              let (p, left) =
                persist_current_state (all_artifacts true db.artifacts) live.mappings db in
              elim p [
                | err e ↦ (err e, v, left)
                | ok _ ↦ (ok (shown true (all_artifacts true db.artifacts) live), v, left)
              ]
        ])
          ≡ (ok listed, w', db')
        → all_artifacts true db'.artifacts ≡ listed
  synced_is_stored stations db db' listed w w' s (err e, v) k h = cc
  synced_is_stored stations db db' listed w w' s (ok live, v) k h =
      shown_is_stored live db db' listed v w' s
        (read_live_state-DistinctKeys client.reads client.close stations w live
          (ap (λ (x : Result LiveState × World). x.0) k))
        (persist_current_state (all_artifacts true db.artifacts) live.mappings db) refl h

  listed_is_stored :
      (db db' : Database) (listed : List PublishArtifact) (w w' : World)
      → All Settled db.artifacts
      → (first : Result (List PublishArtifact × List Station))
      → (unit_of_work (listed_in true) db).0 ≡ first
      → (elim first as (λ _. Result (List PublishArtifact) × World × Database) [
        | err e ↦ (err e, w, db)
        | ok (artifacts, stations) ↦
            synced client artifacts stations w db
              (λ live v left. (ok (shown true artifacts live), v, left))
      ])
        ≡ (ok listed, w', db')
      → all_artifacts true db'.artifacts ≡ listed
  listed_is_stored db db' listed w w' s (err e) k h = cc
  listed_is_stored db db' listed w w' s (ok (artifacts, stations)) k h =
      let read = λ (xs : List PublishArtifact).
        synced client xs stations w db (λ live v left. (ok (shown true xs live), v, left)) in
      synced_is_stored stations db db' listed w w' s
        (read_live_state client.reads client.close stations w) refl
        (ap read (sym (listed_artifacts db artifacts stations k)) ∙ h)

  -- If every row agrees with itself about its deletion, and nothing else writes to the database, a listing
  -- that includes the deleted artifacts has left in the database what it shows: listed again without the
  -- storage, the artifacts are the same, in the same order.
  pub list_datasets-is_stored :
      (db db' : Database) (listed : List PublishArtifact) (w w' : World)
      → All Settled db.artifacts
      → list_datasets (some client) true w db db ≡ (ok listed, w', db')
      → list_datasets none true w' db' db' ≡ (ok listed, w', db')
  unfolding list_datasets unit_of_work list_all
  list_datasets-is_stored db db' listed w w' s h =
      ap (λ xs. (ok xs, w', db'))
        (listed_is_stored db db' listed w w' s (unit_of_work (listed_in true) db).0 refl h)
