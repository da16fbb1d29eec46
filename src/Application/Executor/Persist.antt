-- ===== src/Application/Executor/Persist.antt =====
-- What a finished run leaves in the database (application/publish_executor.py).
use true_nas_controller.Common.{
  ℕ, suc, ◌≡◌, refl, ap, Bool, true, false, not, ◌&&◌, Option, none, some, List, [], ◌∷◌,
  Bool-cases, inl, inr, Text, find_first, ◌==◌, same_set,
}
use true_nas_controller.Domain.Publish.{
  PublishJob, PublishTarget, PublishTargetResult, PublishArtifact,
}
use true_nas_controller.Store.Database.{Database, StationRow, TargetRow}
use true_nas_controller.Store.Session.{
  Error, err, Session, Tx, ◌>>=◌, ◌>>◌, raise_if, or_raise, commit, key_error,
  publish_executor_state,
}
use true_nas_controller.Store.Session.Atomic.{
  Preserves, Preserves-or_raise, Preserves->>=, Keeps, Atomic, Keeps-or_raise, Atomic->>=,
  Atomic-commit_last, unit_of_work-Atomic,
}
use true_nas_controller.Store.Jobs.{find_job, get_job, update_job, write_job}
use true_nas_controller.Store.Stations.{update_last_update, write_last_update, find_live}
use true_nas_controller.Store.Targets.{list_for_job, update_target, write_target}
use true_nas_controller.Store.Artifacts.{retire_station_artifacts, save_artifact}
use true_nas_controller.Workflow.Outcome.{is_verified}
use true_nas_controller.Workflow.Fake.{PublishWorkflowResult}
use true_nas_controller.Application.Executor.{
  PersistFresh, with_result, when, record_artifact, write_result, write_results, build_artifact,
  no_mapping, persist_in, persist_result, target_of, station_ids,
}

-- What the writes of a result leave alone: the durable database, and the jobs.
abbrev pub outside : Session → Database × List PublishJob
outside s = (s.durable, s.working.jobs)

abbrev pub Contained : {A : Type 0} → Tx A → Type 0
Contained m = Preserves outside m

Contained-when : (c : Bool) (m : Tx (Unit {0})) → Contained m → Contained (when c m)
Contained-when true m h s = h s
Contained-when false m h s = refl

Contained-write_target : (t : PublishTarget) (o : Option TargetRow) → Contained (write_target t o)
Contained-write_target t none s = refl
Contained-write_target t (some row) s = elim (Bool-cases (row.target.job_id == t.job_id)) [
  | inl e ↦ rw e refl
  | inr e ↦ rw e refl
]

Contained-write_last_update :
    (now : ℕ) (o : Option StationRow) → Contained (write_last_update now o)
Contained-write_last_update now none s = refl
Contained-write_last_update now (some row) s = refl

Contained-update_last_update : (id now : ℕ) → Contained (update_last_update id now)
unfolding update_last_update
Contained-update_last_update id now s = Contained-write_last_update now (find_live id s.working) s

Contained-update_target : (t : PublishTarget) → Contained (update_target t)
unfolding update_target
Contained-update_target t s =
    Contained-write_target t (find_first (λ (r : TargetRow). r.target.id == t.id) s.working.targets)
      s

Contained-record_artifact : (a : PublishArtifact) → Contained (record_artifact a)
unfolding record_artifact retire_station_artifacts save_artifact
Contained-record_artifact a s = refl

module _ (fresh : PersistFresh) (job : PublishJob) (ref : Option Text) where
  Contained-write_result :
      (n : ℕ) (r : PublishTargetResult) (t : PublishTarget)
      → Contained (write_result fresh job ref n r t)
  unfolding write_result
  Contained-write_result n r t =
      let made = not job.dry_run && r.storage_created && not (no_mapping r.new_mapping) in
      let artifact = build_artifact (fresh.artifact_id n) (fresh.artifact_clock n) job r ref in
      let seen = not job.dry_run && is_verified r.status in
      let touch = update_last_update r.station_id (fresh.station_clock n) in
      Preserves->>= outside (update_target (with_result r t))
        (λ _. when seen touch >> when made (record_artifact artifact))
        (Contained-update_target (with_result r t))
        (λ _.
          Preserves->>= outside (when seen touch) (λ _. when made (record_artifact artifact))
            (Contained-when seen touch
              (Contained-update_last_update r.station_id (fresh.station_clock n)))
            (λ _.
              Contained-when made (record_artifact artifact) (Contained-record_artifact artifact)))

  pub Contained-write_results :
      (n : ℕ) (ts : List PublishTarget) (rs : List PublishTargetResult)
      → Contained (write_results fresh job ref n ts rs)
  unfolding write_results
  Contained-write_results n ts [] = λ s. refl
  Contained-write_results n ts (r ∷ rs) =
      Preserves->>= outside (or_raise (target_of r.station_id ts) key_error)
        (λ t. write_result fresh job ref n r t >> write_results fresh job ref (suc n) ts rs)
        (Preserves-or_raise outside (target_of r.station_id ts) key_error)
        (λ t.
          Preserves->>= outside (write_result fresh job ref n r t)
            (λ _. write_results fresh job ref (suc n) ts rs) (Contained-write_result n r t)
            (λ _. Contained-write_results (suc n) ts rs))

Keeps-Contained : {A : Type 0} (m : Tx A) → Contained m → Keeps m
Keeps-Contained m h s = ap (λ (p : Database × List PublishJob). p.0) (h s)

Keeps-write_job : (now : ℕ) (job : PublishJob) (o : Option PublishJob) → Keeps (write_job now job o)
Keeps-write_job now job none s = refl
Keeps-write_job now job (some row) s = refl

Keeps-update_job : (now : ℕ) (job : PublishJob) → Keeps (update_job now job)
unfolding update_job
Keeps-update_job now job s = Keeps-write_job now job (find_job job.id s.working) s

module _ (fresh : PersistFresh) (job : PublishJob) (targets : List PublishTarget)
    (result : PublishWorkflowResult) where
  -- The steps after the targets have been read.
  abbrev write_all : List PublishTarget → Tx (Unit {0})
  write_all current = do
    raise_if (not (same_set (station_ids current) (station_ids targets))) publish_executor_state
    write_results fresh job result.master_mapping 0 current result.targets
    update_job fresh.job_clock result.job
    commit

  Atomic-write_all : (current : List PublishTarget) → Atomic (write_all current)
  Atomic-write_all current =
      let changed = not (same_set (station_ids current) (station_ids targets)) in
      let results = write_results fresh job result.master_mapping 0 current result.targets in
      let last = update_job fresh.job_clock result.job in
      Atomic->>= (raise_if changed publish_executor_state) (λ _. results >> (last >> commit))
        (λ s. refl)
        (λ _.
          Atomic->>= results (λ _. last >> commit)
            (Keeps-Contained results
              (Contained-write_results fresh job result.master_mapping 0 current result.targets))
            (λ _.
              Atomic->>= last (λ _. commit) (Keeps-update_job fresh.job_clock result.job)
                (λ _. Atomic-commit_last)))

  Atomic-persist_in : Atomic (persist_in fresh job targets result)
  unfolding persist_in get_job list_for_job
  Atomic-persist_in =
      Atomic->>= (get_job job.id)
        (λ found. or_raise found publish_executor_state >>= λ _. list_for_job job.id >>= write_all)
        (λ s. refl)
        (λ found.
          Atomic->>= (or_raise found publish_executor_state)
            (λ _. list_for_job job.id >>= write_all) (Keeps-or_raise found publish_executor_state)
            (λ _. Atomic->>= (list_for_job job.id) write_all (λ s. refl) Atomic-write_all))

  -- A result that cannot be written in full is not written at all: no target, station, artifact or job
  -- changes.
  pub persist_result_atomic :
      (db : Database) (e : Error)
      → (persist_result fresh job targets result db).0 ≡ err e
      → (persist_result fresh job targets result db).1 ≡ db
  unfolding persist_result
  persist_result_atomic db e h =
      unit_of_work-Atomic (persist_in fresh job targets result) db e Atomic-persist_in h
