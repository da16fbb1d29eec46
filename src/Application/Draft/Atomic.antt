-- ===== src/Application/Draft/Atomic.antt =====
-- A request for a publish job that is refused leaves no trace (application/publish_commands.py).
use true_nas_controller.Common.{
  ℕ, suc, ◌≡◌, refl, Option, none, some, List, [], ◌∷◌, arith, Bool-cases, inl, inr,
}
use true_nas_controller.Domain.Station.{Station}
use true_nas_controller.Domain.Publish.{PublishJob, PublishTarget}
use true_nas_controller.Store.Database.{Database, StationRow}
use true_nas_controller.Store.Session.{Error, err, ◌>>◌, ◌>>=◌, pure, commit, lift, unit_of_work}
use true_nas_controller.Store.Session.Atomic.{
  Keeps, Atomic, Keeps->>=, Atomic->>=, Atomic-commit, unit_of_work-Atomic,
}
use true_nas_controller.Store.Stations.{get_station, optional_station, find_station, to_station}
use true_nas_controller.Store.Targets.{
  add_target, add_targets, insert_target, list_for_job, targets_of,
}
use true_nas_controller.Store.Jobs.{add_job, get_by_idempotency_key}
use true_nas_controller.Application.Draft.{
  same_request, PublishRequest, Fresh, invalid_request, check_stations, require_enabled,
  insert_draft, create_in, create_or_answer, answer_existing, create_publish_job, new_job,
  new_targets,
}

Keeps-optional_station : (o : Option StationRow) → Keeps (optional_station o)
Keeps-optional_station none = λ s. refl
Keeps-optional_station (some r) =
    Keeps->>= (lift (to_station r)) (λ station. pure (some station)) (λ s. refl) (λ station s. refl)

Keeps-get_station : (id : ℕ) → Keeps (get_station id)
unfolding get_station
Keeps-get_station id s = Keeps-optional_station (find_station id s.working) s

Keeps-require_enabled : (o : Option Station) → Keeps (require_enabled o)
Keeps-require_enabled none s = refl
Keeps-require_enabled (some station) s = refl

Keeps-check_stations : (ids : List ℕ) → Keeps (check_stations ids)
unfolding check_stations
Keeps-check_stations [] = λ s. refl
Keeps-check_stations (id ∷ ids) =
    Keeps->>= (get_station id) (λ station. require_enabled station >> check_stations ids)
      (Keeps-get_station id)
      (λ station.
        Keeps->>= (require_enabled station) (λ _. check_stations ids)
          (Keeps-require_enabled station) (λ _. Keeps-check_stations ids))

Keeps-insert_target :
    (now : ℕ) (target : PublishTarget) (o : Option StationRow) → Keeps (insert_target now target o)
Keeps-insert_target now target none s = refl
Keeps-insert_target now target (some station) s = refl

Keeps-add_targets :
    (clock : ℕ → ℕ) (n : ℕ) (ts : List PublishTarget) → Keeps (add_targets clock n ts)
unfolding add_targets add_target
Keeps-add_targets clock n [] = λ s. refl
Keeps-add_targets clock n (t ∷ ts) =
    Keeps->>= (add_target (clock n) t) (λ _. add_targets clock (suc n) ts)
      (λ s. Keeps-insert_target (clock n) t (find_station t.station_id s.working) s)
      (λ _. Keeps-add_targets clock (suc n) ts)

Atomic-insert_draft : (r : PublishRequest) (fresh : Fresh) → Atomic (insert_draft r fresh)
unfolding insert_draft add_job
Atomic-insert_draft r fresh =
    let targets = new_targets fresh 0 r.station_ids in
    let answer = commit >> pure (record { job = new_job r fresh; targets = targets }) in
    Atomic->>= (check_stations r.station_ids)
      (λ _. add_job fresh.now (new_job r fresh) >> (add_targets fresh.clock 0 targets >> answer))
      (Keeps-check_stations r.station_ids)
      (λ _.
        Atomic->>= (add_job fresh.now (new_job r fresh))
          (λ _. add_targets fresh.clock 0 targets >> answer) (λ s. refl)
          (λ _.
            Atomic->>= (add_targets fresh.clock 0 targets) (λ _. answer)
              (Keeps-add_targets fresh.clock 0 targets)
              (λ _. Atomic-commit (record { job = new_job r fresh; targets = targets }))))

answered :
    (r : PublishRequest) (existing : PublishJob) (targets : List PublishTarget)
    → Keeps (answer_existing r existing targets)
answered r existing targets s = elim (Bool-cases (same_request existing targets r)) [
  | inl e ↦ rw e refl
  | inr e ↦ rw e refl
]

answered-Atomic :
    (r : PublishRequest) (existing : PublishJob)
    → Atomic (list_for_job existing.id >>= answer_existing r existing)
unfolding list_for_job
answered-Atomic r existing s e h = answered r existing (targets_of existing.id s.working) s

Atomic-create_or_answer :
    (r : PublishRequest) (fresh : Fresh) (o : Option PublishJob)
    → Atomic (create_or_answer r fresh o)
Atomic-create_or_answer r fresh none = Atomic-insert_draft r fresh
Atomic-create_or_answer r fresh (some existing) = answered-Atomic r existing

-- A request that is refused, whatever the reason, leaves the database as it was: no job without its
-- targets, and no targets without their job.
pub create_publish_job_atomic :
    (r : PublishRequest) (fresh : Fresh) (db : Database) (e : Error)
    → (create_publish_job r fresh db).0 ≡ err e
    → (create_publish_job r fresh db).1 ≡ db
unfolding create_publish_job create_in get_by_idempotency_key
create_publish_job_atomic r fresh db e h = elim (Bool-cases (invalid_request r)) [
  | inl x ↦ rw x refl
  | inr x ↦
      let begun =
        Atomic->>= (get_by_idempotency_key r.idempotency_key) (create_or_answer r fresh) (λ s. refl)
          (Atomic-create_or_answer r fresh) in
      let refused : (unit_of_work (create_in r fresh) db).0 ≡ err e = ground arith in
      rw x (unit_of_work-Atomic (create_in r fresh) db e begun refused)
]
