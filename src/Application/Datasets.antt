-- ===== src/Application/Datasets.antt =====
-- application/datasets.py: the operator's inventory of data sets, and the queueing of deletions. `db` is
-- the database when the first unit of work runs, `later` when the state found is written.
pub mod Reconciled
pub mod Persisted
pub mod Listed
use true_nas_controller.Common.{
  ℕ, Bool, true, false, not, ◌||◌, Option, none, some, List, [], ◌∷◌, map, Text, any, keep_if,
  find_last, is_empty, is_some, is_none, put, first_occurrences, ◌==◌, if◌then◌else◌,
}
use true_nas_controller.Domain.Station.{Station}
use true_nas_controller.Domain.Publish.{PublishArtifact}
use true_nas_controller.Store.Database.{Database}
use true_nas_controller.Store.Session.{
  Result, ok, err, dataset_selection, task_queue, Tx, ◌>>=◌, ◌>>◌, pure, commit, unit_of_work,
}
use true_nas_controller.Store.Stations.{get_station, list_stations}
use true_nas_controller.Store.Artifacts.{list_all, list_by_ids, set_current_artifact}
use true_nas_controller.Workflow.Outcome.{Outcome, done}
use true_nas_controller.Workflow.TrueNas.Plan.{ReadClient}
use true_nas_controller.Application.Mappings.{
  LiveState, read_live_state, current_id, reconcile_artifacts, artifact_exists_in_live,
}

-- The loop of `_persist_current_state`.
unfoldable pub set_current_artifacts : List PublishArtifact → List (ℕ × Text) → Tx (Unit {0})
set_current_artifacts artifacts [] = pure tt
set_current_artifacts artifacts ((station_id, live_mapping) ∷ mappings) = do
  set_current_artifact station_id (current_id artifacts station_id live_mapping)
  set_current_artifacts artifacts mappings

-- `_persist_current_state`
unfoldable pub persist_current_state :
    List PublishArtifact → List (ℕ × Text) → Database → Result (Unit {0}) × Database
persist_current_state artifacts [] db = (ok tt, db)
persist_current_state artifacts (m ∷ mappings) db =
    unit_of_work (set_current_artifacts artifacts (m ∷ mappings) >> commit) db

-- The client of the factory, with its `close`.
pub record Client (World : Type 0) : Type 0 where
  pub reads : ReadClient World
  pub close : World → Outcome (Unit {0}) × World

abbrev listed_in : Bool → Tx (List PublishArtifact × List Station)
listed_in include_deleted = do
  artifacts ← list_all include_deleted
  stations ← list_stations true
  pure (artifacts, stations)

abbrev shown : Bool → List PublishArtifact → LiveState → List PublishArtifact
shown true artifacts live = reconcile_artifacts artifacts live.mappings
shown false artifacts live =
    keep_if (λ (a : PublishArtifact). artifact_exists_in_live a live.dataset_names)
      (reconcile_artifacts artifacts live.mappings)

module _ {World : Type 0} where
  -- The mapping is read and written before `k` goes on with the live state.
  abbrev synced :
      {A : Type 0}
      → Client World
      → List PublishArtifact
      → List Station
      → World
      → Database
      → (LiveState → World → Database → Result A × World × Database)
      → Result A × World × Database
  synced client artifacts stations w later k =
      let (r, w') = read_live_state client.reads client.close stations w in
      elim r [
        | err e ↦ (err e, w', later)
        | ok live ↦
            let (p, later') = persist_current_state artifacts live.mappings later in
            elim p [ err e ↦ (err e, w', later') | ok _ ↦ k live w' later' ]
      ]

  -- `ListDatasetsUseCase.execute`
  unfoldable pub list_datasets :
      Option (Client World)
      → Bool
      → World
      → Database
      → Database
      → Result (List PublishArtifact) × World × Database
  list_datasets none include_deleted w db later =
      ((unit_of_work (list_all include_deleted) db).0, w, later)
  list_datasets (some client) include_deleted w db later =
      elim (unit_of_work (listed_in include_deleted) db).0 [
        | err e ↦ (err e, w, later)
        | ok (artifacts, stations) ↦
            synced client artifacts stations w later
              (λ live w' later'. (ok (shown include_deleted artifacts live), w', later'))
      ]

-- The stations of the artifacts, each once.
unfoldable pub stations_of_artifacts :
    List PublishArtifact → List (ℕ × Station) → Tx (List (ℕ × Station))
stations_of_artifacts [] found = pure found
stations_of_artifacts (artifact ∷ artifacts) found = do
  station ← get_station artifact.station_id
  elim station [
    | none ↦ stations_of_artifacts artifacts found
    | some station ↦ stations_of_artifacts artifacts (put station.station_id station found)
  ]

-- `{artifact.id: artifact for artifact in artifacts}.get(id)`
abbrev pub with_id : List PublishArtifact → ℕ → Option PublishArtifact
with_id artifacts id = find_last (λ (a : PublishArtifact). a.id == id) artifacts

abbrev pub is_current_at : List PublishArtifact → ℕ → Bool
is_current_at artifacts id = elim (with_id artifacts id) [ none ↦ false | some a ↦ a.is_current ]

abbrev pub is_deleted_at : List PublishArtifact → ℕ → Bool
is_deleted_at artifacts id = elim (with_id artifacts id) [
  | none ↦ false
  | some a ↦ is_some a.deleted_at
]

abbrev pub has_missing : List PublishArtifact → List ℕ → Bool
has_missing artifacts ids = any ids (λ id. is_none (with_id artifacts id))

-- What the queueing of a deletion reads: the selected artifacts, all of them, and the stations.
abbrev pub Selection : Type 0
Selection = List PublishArtifact × List PublishArtifact × List Station

abbrev with_stations : List PublishArtifact → Tx Selection
with_stations selected = do
  artifacts ← list_all true
  found ← stations_of_artifacts selected []
  pure (selected, artifacts, map (λ (item : ℕ × Station). item.1) found)

unfoldable pub select_in : Bool → List ℕ → Tx Selection
select_in has_client ids = do
  selected ← list_by_ids ids
  if not has_client then pure (selected, selected, []) else with_stations selected

module _ {World : Type 0} (enqueue : List ℕ → World → Outcome (Unit {0}) × World) where
  -- The checks of the selected artifacts, then the queue.
  unfoldable pub enqueue_unused :
      List PublishArtifact → List ℕ → World → Database → Result (List ℕ) × World × Database
  enqueue_unused selected ids w later =
      if any ids (is_current_at selected) || any ids (is_deleted_at selected)
      then (err dataset_selection, w, later)
      else let (o, w') = enqueue ids w in
        (elim o [ done _ ↦ ok ids | _ ↦ err task_queue ], w', later)

  abbrev queue_selected :
      Option (Client World)
      → List ℕ
      → World
      → Database
      → Result Selection
      → Result (List ℕ) × World × Database
  queue_selected client ids w later (err e) = (err e, w, later)
  queue_selected client ids w later (ok (selected, artifacts, stations)) =
      if has_missing selected ids then (err dataset_selection, w, later) else elim client [
        | none ↦ enqueue_unused selected ids w later
        | some client ↦ synced client artifacts stations w later (λ live w' later'.
            enqueue_unused (reconcile_artifacts selected live.mappings) ids w' later')
      ]

  -- `QueueDatasetCleanupUseCase.execute`
  unfoldable pub queue_dataset_cleanup :
      Option (Client World)
      → List ℕ
      → World
      → Database
      → Database
      → Result (List ℕ) × World × Database
  queue_dataset_cleanup client artifact_ids w db later =
      let ids = first_occurrences artifact_ids in
      if is_empty ids
      then (err dataset_selection, w, later)
      else queue_selected client ids w later (unit_of_work (select_in (is_some client) ids) db).0
