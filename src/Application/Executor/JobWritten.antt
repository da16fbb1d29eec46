-- ===== src/Application/Executor/JobWritten.antt =====
-- The job after its result has been written (application/publish_executor.py).
use mathlib.Core.Path.{subst}
use true_nas_controller.Common.{
  ℕ, ◌≡◌, refl, sym, ap, ◌∙◌, true, false, not, Option, none, some, List, find_first,
  find_first-test, find-update_if, update_if, same_set, ◌==◌, ==-self,
}
use true_nas_controller.Domain.Publish.{PublishJob, PublishTarget, status_eq}
use true_nas_controller.Store.Database.{Database}
use true_nas_controller.Store.Session.{
  Result, ok, Session, Tx, ◌>>=◌, ◌>>◌, raise_if, or_raise, commit, publish_executor_state,
}
use true_nas_controller.Store.Session.Atomic.{Preserves-or_raise}
use true_nas_controller.Store.Session.Triples.{
  Triple, Triple->>=, Triple-commit, Triple-Preserves, unit_of_work-Triple,
}
use true_nas_controller.Store.Jobs.{
  find_job, get_job, update_job, write_job, written_job, is_finished,
}
use true_nas_controller.Store.Targets.{list_for_job}
use true_nas_controller.Workflow.Fake.{PublishWorkflowResult}
use true_nas_controller.Application.Executor.{
  PersistFresh, write_results, persist_in, persist_result, station_ids,
}
use true_nas_controller.Application.Executor.Persist.{outside, Contained, Contained-write_results}

-- A row that has taken over the state of a job: what the run decides, and the times of a change of state.
pub record HasState (now : ℕ) (job before after : PublishJob) : Type 0 where
  pub same_id : after.id ≡ before.id
  pub same_key : after.idempotency_key ≡ before.idempotency_key
  pub status : after.status ≡ job.status
  pub status_reason : after.status_reason ≡ job.status_reason
  pub confirmation : after.client_confirmation ≡ job.client_confirmation
  pub completes :
      status_eq before.status job.status ≡ false
      → is_finished job.status ≡ true
      → after.completed_at ≡ some now
  pub stays :
      status_eq before.status job.status ≡ true
      → (after.started_at ≡ before.started_at) × (after.completed_at ≡ before.completed_at)

written_job-HasState :
    (now : ℕ) (job row : PublishJob) → HasState now job row (written_job now job row)
written_job-HasState now job row = record {
  same_id = refl;
  same_key = refl;
  status = refl;
  status_reason = refl;
  confirmation = refl;
  completes = λ e f. rw (e, f) refl;
  stays = λ e. rw e (refl, refl);
}

-- The jobs of the working copy.
abbrev jobs_of : Session → List PublishJob
jobs_of s = s.working.jobs

module _ (id : ℕ) (row : PublishJob) where
  -- The row that the identifier finds.
  abbrev Finds : PublishJob → List PublishJob → Type 0
  Finds found jobs = find_first (λ (r : PublishJob). r.id == id) jobs ≡ some found

  -- Code that leaves the jobs alone.
  Triple-Contained :
      {A : Type 0} (m : Tx A)
      → Contained m
      → Triple (λ s. Finds row s.working.jobs) m (λ s. Finds row s.working.jobs)
  Triple-Contained m h = Triple-Preserves outside (λ x. Finds row x.1) m h

  written_found :
      (now : ℕ) (job : PublishJob) (o : Option PublishJob) (s s' : Session)
      → o ≡ some row
      → Finds row s.working.jobs
      → write_job now job o s ≡ (ok tt, s')
      → Finds (written_job now job row) s'.working.jobs
  written_found now job none s s' e h w = cc
  written_found now job (some r) s s' e h w =
      let same : r ≡ row = cc in
      let own = find_first-test (λ (r : PublishJob). r.id == id) s.working.jobs row h in
      let found =
        find-update_if (λ (r : PublishJob). r.id == id) (λ (x : PublishJob). x.id == row.id)
          (written_job now job) s.working.jobs row (λ y. refl) h (==-self row.id) in
      let left = ap (λ (x : Result (Unit {0}) × Session). jobs_of x.1) w in
      subst (Finds (written_job now job row))
        (ap
            (λ (r : PublishJob).
              update_if (λ (x : PublishJob). x.id == r.id) (written_job now job) s.working.jobs)
            (sym same)
          ∙ left)
        found

  Triple-update_job :
      (now : ℕ) (job : PublishJob)
      → job.id ≡ id
      → Triple
          (λ s. Finds row s.working.jobs)
          (update_job now job)
          (λ s. Finds (written_job now job row) s.working.jobs)
  unfolding update_job
  Triple-update_job now job e s s' a h w =
      written_found now job (find_job job.id s.working) s s' (ap (λ k. find_job k s.working) e ∙ h)
        h w

module _ (fresh : PersistFresh) (job : PublishJob) (targets : List PublishTarget)
    (result : PublishWorkflowResult) (row : PublishJob) (same : result.job.id ≡ job.id) where
  abbrev written : PublishJob
  written = written_job fresh.job_clock result.job row

  abbrev Before : Session → Type 0
  Before s = Finds job.id row row s.working.jobs

  abbrev After : Database → Type 0
  After db = Finds job.id row written db.jobs

  Triple-writes :
      (current : List PublishTarget)
      → Triple Before
          (write_results fresh job result.master_mapping 0 current result.targets
            >> (update_job fresh.job_clock result.job >> commit))
          (λ s. After s.durable)
  Triple-writes current =
      let results = write_results fresh job result.master_mapping 0 current result.targets in
      let last = update_job fresh.job_clock result.job in
      Triple->>= Before Before (λ s. After s.durable) results (λ _. last >> commit)
        (Triple-Contained job.id row results
          (Contained-write_results fresh job result.master_mapping 0 current result.targets))
        (λ _.
          Triple->>= Before (λ s. After s.working) (λ s. After s.durable) last (λ _. commit)
            (Triple-update_job job.id row fresh.job_clock result.job same)
            (λ _. Triple-commit After))

  Triple-persist_in : Triple Before (persist_in fresh job targets result) (λ s. After s.durable)
  unfolding persist_in get_job list_for_job
  Triple-persist_in =
      let End = λ (s : Session). After s.durable in
      let check = λ (current : List PublishTarget).
        raise_if (not (same_set (station_ids current) (station_ids targets)))
          publish_executor_state in
      let writes = λ (current : List PublishTarget).
        write_results fresh job result.master_mapping 0 current result.targets
        >> (update_job fresh.job_clock result.job >> commit) in
      Triple->>= Before Before End (get_job job.id)
        (λ found. or_raise found publish_executor_state >>= λ _.
          list_for_job job.id >>= λ current. check current >> writes current)
        (Triple-Contained job.id row (get_job job.id) (λ s. refl))
        (λ found.
          Triple->>= Before Before End (or_raise found publish_executor_state)
            (λ _. list_for_job job.id >>= λ current. check current >> writes current)
            (Triple-Contained job.id row (or_raise found publish_executor_state)
              (Preserves-or_raise outside found publish_executor_state))
            (λ _.
              Triple->>= Before Before End (list_for_job job.id)
                (λ current. check current >> writes current)
                (Triple-Contained job.id row (list_for_job job.id) (λ s. refl))
                (λ current.
                  Triple->>= Before Before End (check current) (λ _. writes current)
                    (Triple-Contained job.id row (check current) (λ s. refl))
                    (λ _. Triple-writes current))))

  row_written :
      (db db' : Database)
      → find_job job.id db ≡ some row
      → persist_result fresh job targets result db ≡ (ok tt, db')
      → find_job job.id db' ≡ some written
  unfolding persist_result
  row_written db db' h e =
      unit_of_work-Triple (λ d. Finds job.id row row d.jobs) After
        (persist_in fresh job targets result) db db' tt Triple-persist_in h e

  -- A result that is written leaves the job's row with the status, the reason and the confirmation of the
  -- result, whatever is written to the targets, the stations and the artifacts before it. Identifier and key
  -- stay; a finished status that is new sets the time of completion; a status that is not new keeps the times.
  pub persist_result-HasState :
      (db db' : Database)
      → find_job job.id db ≡ some row
      → persist_result fresh job targets result db ≡ (ok tt, db')
      → (row' : PublishJob) × (find_job job.id db' ≡ some row')
        × HasState fresh.job_clock result.job row row'
  persist_result-HasState db db' h e =
      (written, row_written db db' h e, written_job-HasState fresh.job_clock result.job row)
