-- ===== src/Application/Dispatch/Guarantees.antt =====
-- What a dispatch promises: it is guarded, atomic, and happens once (application/publish_dispatch.py).
use true_nas_controller.Common.{
  find-update_if, ==-self, ℕ, ◌≡◌, refl, ap, sym, ◌∙◌, ◌↔◌, Bool, true, false, not, none, some,
  List, [], ◌∷◌, ◌++◌, arith, All, any, update_if, find_first, is_empty, ◌==◌, ==_iff,
  if◌then◌else◌, Bool-cases, Option-cases, inl, inr,
}
use true_nas_controller.Domain.Publish.{
  PublishJob, PublishTarget, awaiting_confirmation, publishing, transition,
}
use true_nas_controller.Store.Database.{Database, constraints_hold}
use true_nas_controller.Store.Session.{
  Error, ok, err, publish_job_not_found, publish_dispatch_state, integrity_error, commit,
  unit_of_work,
}
use true_nas_controller.Store.Jobs.{find_job, get_job, update_job, written_job}
use true_nas_controller.Store.Targets.{list_for_job, targets_of}
use true_nas_controller.Store.Outbox.{add_event, event_row}
use true_nas_controller.Application.Dispatch.{
  not_dispatchable, selected_targets, allowed_status, dispatch_event, dispatch_publish_job,
}

-- The row that a dispatched job leaves.
abbrev dispatched_job : PublishJob → PublishJob
dispatched_job job = record job { status = publishing; status_reason = none }

-- The database after a dispatch of `job`.
abbrev dispatched_db : ℕ → ℕ → PublishJob → Database → Database
dispatched_db now event_id job db = record db {
  jobs =
      update_if (λ (r : PublishJob). r.id == job.id) (written_job now (dispatched_job job)) db.jobs;
  outbox = db.outbox ++ event_row now (dispatch_event event_id (dispatched_job job)) ∷ [];
}

find_first-some :
    {A : Type 0} (p : A → Bool) (xs : List A) (x : A) → find_first p xs ≡ some x → p x ≡ true
find_first-some p [] x h = cc
find_first-some p (y ∷ xs) x h = ground (arith, find_first-some p xs x)

found_self :
    (job_id : ℕ) (db : Database) (job : PublishJob)
    → find_job job_id db ≡ some job
    → (job.id ≡ job_id) × (find_job job.id db ≡ some job)
found_self job_id db job found =
    let e =
      (==_iff job.id job_id).0
        (find_first-some (λ (row : PublishJob). row.id == job_id) db.jobs job found) in
    (e, ap (λ k. find_job k db) e ∙ found)

awaits :
    (job : PublishJob) (targets : List PublishTarget)
    → not_dispatchable job targets ≡ false
    → job.status ≡ awaiting_confirmation
unfolding not_dispatchable
awaits job targets h = ground arith

-- A dispatch whose guard passes, up to the commit.
dispatch_lem :
    (now event_id job_id : ℕ) (db : Database) (job : PublishJob)
    → find_job job_id db ≡ some job
    → not_dispatchable job (targets_of job_id db) ≡ false
    → dispatch_publish_job now event_id job_id db ≡ (
        if constraints_hold (dispatched_db now event_id job db)
        then (ok (dispatched_job job), dispatched_db now event_id job db)
        else (err integrity_error, db))
unfolding dispatch_publish_job unit_of_work get_job list_for_job update_job add_event commit
    transition dispatch_event
dispatch_lem now event_id job_id db job found guard =
    ground (arith, found_self job_id db job found, awaits job (targets_of job_id db) guard)

-- The other two branches.
dispatch-none :
    (now event_id job_id : ℕ) (db : Database)
    → find_job job_id db ≡ none
    → dispatch_publish_job now event_id job_id db ≡ (err publish_job_not_found, db)
unfolding dispatch_publish_job unit_of_work get_job
dispatch-none now event_id job_id db missing = ground arith

dispatch_refused :
    (now event_id job_id : ℕ) (db : Database) (job : PublishJob)
    → find_job job_id db ≡ some job
    → not_dispatchable job (targets_of job_id db) ≡ true
    → dispatch_publish_job now event_id job_id db ≡ (err publish_dispatch_state, db)
unfolding dispatch_publish_job unit_of_work get_job list_for_job
dispatch_refused now event_id job_id db job found guard = ground arith

-- What a job and its targets must be for a dispatch.
pub record IsDispatchable (job : PublishJob) (targets : List PublishTarget) : Type 0 where
  pub waiting : job.status ≡ awaiting_confirmation
  pub confirmed : job.client_confirmation ≡ some true
  pub selected : any targets (λ (t : PublishTarget). t.selected) ≡ true
  pub passing :
      All
        (λ (t : PublishTarget). t.selected ≡ true → allowed_status t.preflight_status ≡ true)
        targets

selected_iff :
    (ts : List PublishTarget)
    → is_empty (selected_targets ts) ≡ not (any ts (λ (t : PublishTarget). t.selected))
selected_iff [] = refl
selected_iff (t ∷ ts) = ground (arith, selected_iff ts)

abbrev refused_target : PublishTarget → Bool
refused_target t = not (allowed_status t.preflight_status)

passing_iff :
    (ts : List PublishTarget)
    → (any (selected_targets ts) refused_target ≡ false)
      ↔ All (λ (t : PublishTarget). t.selected ≡ true → allowed_status t.preflight_status ≡ true) ts
passing_iff [] = (λ h. tt, λ h. refl)
passing_iff (t ∷ ts) = elim (Bool-cases t.selected) [
  | inl e ↦ rw e (
    λ h. (λ _. ground arith, (passing_iff ts).0 (ground arith)),
    λ h. ground (arith, h.0 refl, (passing_iff ts).1 h.1),
  )
  | inr e ↦ rw e (λ h. (λ c. cc, (passing_iff ts).0 h), λ h. (passing_iff ts).1 h.1)
]

-- The code's guard is the record above.
guard_iff :
    (job : PublishJob) (targets : List PublishTarget)
    → (not_dispatchable job targets ≡ false) ↔ IsDispatchable job targets
unfolding not_dispatchable
guard_iff job targets =
    let chosen = selected_iff targets in
    let passing = passing_iff targets in
    (
      λ h. record {
        waiting = ground arith;
        confirmed = ground arith;
        selected = ground arith;
        passing = passing.0 (ground arith);
      },
      λ d. ground (arith, d.waiting, d.confirmed, d.selected, passing.1 d.passing),
    )

-- The value a dispatch returns, on every branch.
abbrev pub Dispatched : ℕ → ℕ → ℕ → Database → PublishJob → Database → Type 0
Dispatched now event_id job_id db j db' =
    (job : PublishJob) × (find_job job_id db ≡ some job)
    × IsDispatchable job (targets_of job_id db)
    × (constraints_hold (dispatched_db now event_id job db) ≡ true)
    × (j ≡ dispatched_job job)
    × (db' ≡ dispatched_db now event_id job db)

dispatch_sound :
    (now event_id job_id : ℕ) (db db' : Database) (j : PublishJob)
    → dispatch_publish_job now event_id job_id db ≡ (ok j, db')
    → Dispatched now event_id job_id db j db'
dispatch_sound now event_id job_id db db' j h = elim (Option-cases (find_job job_id db)) [
  | inl missing ↦ ground (arith, dispatch-none now event_id job_id db missing)
  | inr (job, found) ↦ elim (Bool-cases (not_dispatchable job (targets_of job_id db))) [
    | inl refused ↦ ground (arith, dispatch_refused now event_id job_id db job found refused)
    | inr passed ↦ (
      job,
      found,
      (guard_iff job (targets_of job_id db)).0 passed,
      ground (arith, dispatch_lem now event_id job_id db job found passed),
      ground (arith, dispatch_lem now event_id job_id db job found passed),
      ground (arith, dispatch_lem now event_id job_id db job found passed),
    )
  ]
]

dispatch_complete :
    (now event_id job_id : ℕ) (db db' : Database) (j : PublishJob)
    → Dispatched now event_id job_id db j db'
    → dispatch_publish_job now event_id job_id db ≡ (ok j, db')
dispatch_complete now event_id job_id db db' j (job, found, ready, fits, ej, edb) = ground (
  arith,
  ej,
  edb,
  fits,
  dispatch_lem now event_id job_id db job found ((guard_iff job (targets_of job_id db)).1 ready),
)

-- A dispatch succeeds exactly when the job is there and dispatchable and the commit is accepted; it
-- then returns the job in state `publishing`, and the new database differs in that job's row and in one
-- new outbox event, which carries the job's identity.
pub dispatch-ok_iff :
    (now event_id job_id : ℕ) (db db' : Database) (j : PublishJob)
    → (dispatch_publish_job now event_id job_id db ≡ (ok j, db'))
      ↔ Dispatched now event_id job_id db j db'
dispatch-ok_iff now event_id job_id db db' j =
    (dispatch_sound now event_id job_id db db' j, dispatch_complete now event_id job_id db db' j)

-- A dispatch that raises leaves the database as it was.
pub dispatch_atomic :
    (now event_id job_id : ℕ) (db : Database) (e : Error)
    → (dispatch_publish_job now event_id job_id db).0 ≡ err e
    → (dispatch_publish_job now event_id job_id db).1 ≡ db
dispatch_atomic now event_id job_id db e h = elim (Option-cases (find_job job_id db)) [
  | inl missing ↦ ground (arith, dispatch-none now event_id job_id db missing)
  | inr (job, found) ↦ elim (Bool-cases (not_dispatchable job (targets_of job_id db))) [
    | inl refused ↦ ground (arith, dispatch_refused now event_id job_id db job found refused)
    | inr passed ↦ ground (arith, dispatch_lem now event_id job_id db job found passed)
  ]
]

written_waits :
    (now : ℕ) (job row : PublishJob) (targets : List PublishTarget)
    → not_dispatchable (written_job now (dispatched_job job) row) targets ≡ true
unfolding not_dispatchable
written_waits now job row targets = refl

find-dispatched :
    (now event_id job_id : ℕ) (db : Database) (job : PublishJob)
    → find_job job_id db ≡ some job
    → find_job job_id (dispatched_db now event_id job db)
      ≡ some (written_job now (dispatched_job job) job)
find-dispatched now event_id job_id db job found =
    let (same, own) = found_self job_id db job found in
    ap (λ k. find_job k (dispatched_db now event_id job db)) (sym same)
    ∙ find-update_if (λ (r : PublishJob). r.id == job.id) (λ (r : PublishJob). r.id == job.id)
        (written_job now (dispatched_job job)) db.jobs job (λ row. refl) own (==-self job.id)

-- After a dispatch the same job cannot be dispatched again: the second attempt is refused for its state
-- and writes no second event.
pub dispatch_once :
    (now event_id job_id : ℕ) (db db' : Database) (j : PublishJob)
    → dispatch_publish_job now event_id job_id db ≡ (ok j, db')
    → (later next_id : ℕ)
    → dispatch_publish_job later next_id job_id db' ≡ (err publish_dispatch_state, db')
dispatch_once now event_id job_id db db' j h later next_id =
    let (job, found, ready, fits, ej, edb) = dispatch_sound now event_id job_id db db' j h in
    let written = written_job now (dispatched_job job) in
    dispatch_refused later next_id job_id db' (written job)
      (ap (find_job job_id) edb ∙ find-dispatched now event_id job_id db job found)
      (written_waits now job job (targets_of job_id db'))
