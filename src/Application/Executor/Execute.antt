-- ===== src/Application/Executor/Execute.antt =====
-- application/publish_executor.py: a task runs its workflow outside of any transaction, and writes the
-- outcome in one unit of work. `db` is the database when the job is loaded, `later` when the result is
-- written; the world is that of the storage.
use true_nas_controller.Common.{ℕ, not, List, [], ◌∷◌, keep_if, is_empty, ◌==◌, if◌then◌else◌}
use true_nas_controller.Domain.Station.{Station}
use true_nas_controller.Domain.Publish.{PublishJob, PublishTarget}
use true_nas_controller.Domain.Wizard.{is_true}
use true_nas_controller.Store.Database.{Database}
use true_nas_controller.Store.Session.{
  Error, Result, ok, err, value_error, key_error, unbound_local, publish_precondition,
  publish_executor_state, true_nas_publish, true_nas_client, Tx, ◌>>=◌, pure, or_raise,
  unit_of_work,
}
use true_nas_controller.Store.Stations.{get_station}
use true_nas_controller.Store.Jobs.{is_finished}
use true_nas_controller.Workflow.Outcome.{Outcome, done, WorkflowError, Run, returned, raised}
use true_nas_controller.Workflow.Fake.{StorageAdapter, PublishWorkflowResult}
use true_nas_controller.Workflow.TrueNas.Plan.{ReadClient, WriteClient}
use true_nas_controller.Workflow.Fake
use true_nas_controller.Workflow.TrueNas
use true_nas_controller.Application.Executor.{PersistFresh, station_ids, persist_result}

-- The exception of a workflow, by class.
abbrev pub workflow_error : WorkflowError → Error
workflow_error WorkflowError.precondition = publish_precondition
workflow_error WorkflowError.illegal_transition = value_error
workflow_error WorkflowError.unbound_local = unbound_local
workflow_error WorkflowError.missing_key = key_error
workflow_error WorkflowError.storage_state = true_nas_publish
workflow_error (WorkflowError.storage_call _) = true_nas_client

abbrev pub selected_targets : List PublishTarget → List PublishTarget
selected_targets targets = keep_if (λ (t : PublishTarget). t.selected) targets

-- What a task returns, with the storage and the database that it leaves.
abbrev pub Executed : Type 0 → Type 0
Executed World = Result (Unit {0}) × World × Database

-- After the workflow: its result is written, or its exception leaves the database alone.
abbrev pub after_run :
    {World : Type 0}
    → PersistFresh
    → PublishJob
    → List PublishTarget
    → Database
    → Run PublishWorkflowResult × World
    → Executed World
after_run fresh job targets later (returned result, w) =
    let (r, db) = persist_result fresh job targets result later in (r, w, db)
after_run fresh job targets later (raised e, w) = (err (workflow_error e), w, later)

-- The guards that both executors begin with: a foreign message, a finished job, nothing selected.
abbrev guarded :
    {World : Type 0}
    → PublishJob
    → List PublishTarget
    → ℕ
    → World
    → Database
    → Executed World
    → Executed World
guarded job targets correlation_id w db rest =
    if not (job.correlation_id == correlation_id)
    then (err publish_executor_state, w, db)
    else if is_finished job.status
    then (ok tt, w, db)
    else if is_empty (selected_targets targets)
    then (err publish_executor_state, w, db)
    else rest

-- `FakePublishTaskExecutor.execute`
unfoldable pub execute_fake :
    {World : Type 0}
    → StorageAdapter World
    → PersistFresh
    → PublishJob
    → List PublishTarget
    → ℕ
    → World
    → Database
    → Executed World
execute_fake adapter fresh job targets correlation_id w later =
    guarded job targets correlation_id w later (
      after_run fresh job targets later (
        Fake.execute adapter job (station_ids (selected_targets targets))
          (is_true job.client_confirmation) w))

-- `_load_stations`
unfoldable pub load_stations : List PublishTarget → Tx (List Station)
load_stations [] = pure []
load_stations (target ∷ targets) = do
  found ← get_station target.station_id
  station ← or_raise found publish_executor_state
  rest ← load_stations targets
  pure (station ∷ rest)

module _ {World : Type 0} (reads : ReadClient World) (writes : WriteClient World)
    (close_reads close_writes : World → Outcome (Unit {0}) × World) where
  -- `finally`: both clients are closed, the second only if the first call returns.
  abbrev close_clients : World → Outcome (Unit {0}) × World
  close_clients w =
      let (o, w') = close_reads w in elim o [ done _ ↦ close_writes w' | other ↦ (other, w') ]

  -- An exception of a close takes the place of what the workflow ended in.
  abbrev closed : {A : Type 0} → Run A × World → Run A × World
  closed (r, w) =
      let (o, w') = close_clients w in
      (
        elim o [
          | done _ ↦ r
          | Outcome.unknown m ↦ raised (WorkflowError.storage_call m)
          | Outcome.failed _ m ↦ raised (WorkflowError.storage_call m)
        ],
        w',
      )

  abbrev run_stations :
      PersistFresh
      → PublishJob
      → List PublishTarget
      → World
      → Database
      → Result (List Station)
      → Executed World
  run_stations fresh job targets w later (err e) = (err e, w, later)
  run_stations fresh job targets w later (ok stations) =
      after_run fresh job targets later
        (closed (TrueNas.execute reads writes job stations (is_true job.client_confirmation) w))

  -- `TrueNASPublishTaskExecutor.execute`
  unfoldable pub execute_true_nas :
      PersistFresh
      → PublishJob
      → List PublishTarget
      → ℕ
      → World
      → Database
      → Database
      → Executed World
  unfolding load_stations
  execute_true_nas fresh job targets correlation_id w db later =
      guarded job targets correlation_id w later (
        run_stations fresh job targets w later
          (unit_of_work (load_stations (selected_targets targets)) db).0)
