-- ===== src/Workflow/TrueNas/Reports.antt =====
-- What a finished run over the TrueNAS API reports (application/truenas_publish.py).
use true_nas_controller.Common.{
  is_empty, not, if◌then◌else◌, ℕ, ◌≡◌, refl, ap, ◌∙◌, Bool, false, Option, none, some, List, map,
  Text, all_distinct,
}
use mathlib.Core.Path.{subst}
use true_nas_controller.Domain.Station.{Station}
use true_nas_controller.Domain.Publish.{
  PublishJob, PublishTargetResult, publishing, switching, verifying,
}
use true_nas_controller.Workflow.Outcome.{
  raise_if, or_raise, storage_state, ◌>>◌, precondition, enter_publishing, call, move, pure, Io,
  ◌>>=◌, final_status,
}
use true_nas_controller.Workflow.Outcome.Ensures.{
  Ensures, Ensures-map, Ensures-or_raise, Ensures-guard, Ensures->>=, Ensures-move, Ensures-enter,
  Ensures-call, Ensures-raise_if,
}
use true_nas_controller.Workflow.TrueNas.Plan.{
  TrueNasDataset, TrueNasSnapshot, ReadClient, WriteClient, StationPlan, plan_all,
}
use true_nas_controller.Workflow.TrueNas.{
  snapshot_name, is_wrong_snapshot, find_source, find_source_dataset, plan_stations, dry_run,
  existing_snapshot, reuse_or_create, ensure_snapshot, finish, apply_phase, real_run,
  apply_stations, station_ids, execute,
}
use true_nas_controller.Workflow.Fake.{PublishWorkflowResult}
use true_nas_controller.Workflow.Fake.Reports.{
  IsReport, to_switching, to_verifying, to_final, otherwise,
}
use true_nas_controller.Workflow.Fake.Loops.{target_station}
use true_nas_controller.Workflow.TrueNas.About.{plan_station, plans_about, stations_about}

-- What `execute` reports: as over an adapter, on the stations that it was given.
module _ {World : Type 0} (reads : ReadClient World) (writes : WriteClient World) where
  open reads use {
    query_datasets, query_snapshots, query_targets, query_extents, query_target_extents,
  }

  finish-Ensures :
      (job checking : PublishJob) (ids : List ℕ) (ref : Text) (results : List PublishTargetResult)
      (w : World)
      → checking ≡ record job { status = verifying }
      → map target_station results ≡ ids
      → Ensures (IsReport job ids) (finish reads writes ref results checking w).0
  finish-Ensures job checking ids ref results w e h =
      Ensures->>= (λ j. j ≡ record checking { status = final_status results }) (IsReport job ids)
        (move checking (final_status results))
        (λ finished. pure (record { job = finished; master_mapping = some ref; targets = results }))
        w (Ensures-move checking (final_status results) w (to_final job checking results e))
        (λ j w' f. (h, f ∙ ap (λ (k : PublishJob). record k { status = final_status results }) e))

  apply_phase-Ensures :
      (job entered : PublishJob) (ref : Text) (plans : List StationPlan) (w : World)
      → entered ≡ record job { status = switching }
      → Ensures
          (IsReport job (map plan_station plans))
          (apply_phase reads writes ref plans entered w).0
  apply_phase-Ensures job entered ref plans w e =
      let r = apply_stations reads writes ref plans w in
      Ensures->>= (λ j. j ≡ record entered { status = verifying })
        (IsReport job (map plan_station plans)) (move entered verifying)
        (finish reads writes ref r.0) r.1
        (Ensures-move entered verifying r.1 (to_verifying job entered e))
        (λ checking w' f.
          finish-Ensures job checking (map plan_station plans) ref r.0 w'
            (f ∙ ap (λ (k : PublishJob). record k { status = verifying }) e)
            (stations_about reads writes ref plans w))

  reuse_or_create-Ensures :
      (job : PublishJob) (source : Text) (s : Option TrueNasSnapshot) (w : World)
      → Ensures (λ _. Unit {0}) (reuse_or_create reads writes job source s w).0
  reuse_or_create-Ensures job source (some s) w = tt
  reuse_or_create-Ensures job source none w =
      Ensures->>= (λ _. Unit {0}) (λ _. Unit {0})
        (call (writes.create_snapshot source (snapshot_name job)))
        (λ created.
          raise_if (is_wrong_snapshot job source created) storage_state >> pure created.name)
        w (Ensures-call (writes.create_snapshot source (snapshot_name job)) w)
        (λ created w' _.
          Ensures->>= (λ _. is_wrong_snapshot job source created ≡ false) (λ _. Unit {0})
            (raise_if (is_wrong_snapshot job source created) storage_state) (λ _. pure created.name)
            w' (Ensures-raise_if (is_wrong_snapshot job source created) storage_state w' refl)
            (λ _ _ _. tt))

  ensure_snapshot-Ensures :
      (job : PublishJob) (source : Text) (w : World)
      → Ensures (λ _. Unit {0}) (ensure_snapshot reads writes job source w).0
  unfolding ensure_snapshot
  ensure_snapshot-Ensures job source w =
      Ensures->>= (λ _. Unit {0}) (λ _. Unit {0}) (call query_snapshots)
        (λ snapshots.
          reuse_or_create reads writes job source (existing_snapshot job source snapshots))
        w (Ensures-call query_snapshots w)
        (λ snapshots w' _.
          reuse_or_create-Ensures job source (existing_snapshot job source snapshots) w')

  real_run-Ensures :
      (job current : PublishJob) (source : Text) (plans : List StationPlan) (w : World)
      → current ≡ record job { status = publishing }
      → Ensures
          (IsReport job (map plan_station plans))
          (real_run reads writes job current source plans w).0
  unfolding real_run
  real_run-Ensures job current source plans w e =
      Ensures->>= (λ _. Unit {0}) (IsReport job (map plan_station plans))
        (ensure_snapshot reads writes job source)
        (λ ref. move current switching >>= apply_phase reads writes ref plans) w
        (ensure_snapshot-Ensures job source w)
        (λ ref w' _.
          Ensures->>= (λ j. j ≡ record current { status = switching })
            (IsReport job (map plan_station plans)) (move current switching)
            (apply_phase reads writes ref plans) w'
            (Ensures-move current switching w' (to_switching job current e))
            (λ entered w'' f.
              apply_phase-Ensures job entered ref plans w''
                (f ∙ ap (λ (k : PublishJob). record k { status = switching }) e)))

  find_source-Ensures :
      (name : Text) (w : World)
      → Ensures (λ _. Unit {0}) (find_source_dataset reads writes name w).0
  unfolding find_source_dataset
  find_source-Ensures name w =
      Ensures->>= (λ _. Unit {0}) (λ _. Unit {0}) (call query_datasets)
        (λ datasets. or_raise (find_source name datasets) storage_state) w
        (Ensures-call query_datasets w)
        (λ datasets w' _.
          Ensures-map (or_raise (find_source name datasets) storage_state w').0 (λ _ _. tt)
            (Ensures-or_raise (find_source name datasets) storage_state w' refl))

  abbrev AreFor : List Station → List StationPlan → Type 0
  AreFor stations plans = map plan_station plans ≡ station_ids stations

  plan_stations-Ensures :
      (job : PublishJob) (stations : List Station) (w : World)
      → Ensures (AreFor stations) (plan_stations reads writes job stations w).0
  unfolding plan_stations
  plan_stations-Ensures job stations w =
      Ensures->>= (λ _. Unit {0}) (AreFor stations) (call query_targets)
        (λ targets. do
          associations ← call query_target_extents
          extents ← call query_extents
          or_raise (plan_all job targets associations extents stations) storage_state)
        w (Ensures-call query_targets w)
        (λ targets w1 _.
          Ensures->>= (λ _. Unit {0}) (AreFor stations) (call query_target_extents)
            (λ associations. do
              extents ← call query_extents
              or_raise (plan_all job targets associations extents stations) storage_state)
            w1 (Ensures-call query_target_extents w1)
            (λ associations w2 _.
              Ensures->>= (λ _. Unit {0}) (AreFor stations) (call query_extents)
                (λ extents.
                  or_raise (plan_all job targets associations extents stations) storage_state)
                w2 (Ensures-call query_extents w2)
                (λ extents w3 _.
                  let plans = plan_all job targets associations extents stations in
                  Ensures-map (or_raise plans storage_state w3).0
                    (plans_about job targets associations extents stations)
                    (Ensures-or_raise plans storage_state w3 refl))))

  abbrev run :
      PublishJob → PublishJob → TrueNasDataset → List StationPlan → Io World PublishWorkflowResult
  run job current source plans =
      if job.dry_run
      then dry_run reads writes job current plans
      else real_run reads writes job current source.name plans

  planned-Ensures :
      (job current : PublishJob) (stations : List Station) (w : World)
      → job.dry_run ≡ false
      → current ≡ record job { status = publishing }
      → Ensures
          (IsReport job (station_ids stations))
          ((do
            source ← find_source_dataset reads writes job.source_dataset
            plans ← plan_stations reads writes job stations
            run job current source plans)
            w).0
  planned-Ensures job current stations w h e =
      Ensures->>= (λ _. Unit {0}) (IsReport job (station_ids stations))
        (find_source_dataset reads writes job.source_dataset)
        (λ source. plan_stations reads writes job stations >>= run job current source) w
        (find_source-Ensures job.source_dataset w)
        (λ source w1 _.
          Ensures->>= (AreFor stations) (IsReport job (station_ids stations))
            (plan_stations reads writes job stations) (run job current source) w1
            (plan_stations-Ensures job stations w1)
            (λ plans w2 a.
              otherwise (IsReport job (station_ids stations)) job.dry_run
                (dry_run reads writes job current plans)
                (real_run reads writes job current source.name plans) w2 h
                (subst
                  (λ ids.
                    Ensures (IsReport job ids)
                      (real_run reads writes job current source.name plans w2).0)
                  a (real_run-Ensures job current source.name plans w2 e))))

  -- Whatever the API does, a run that writes either ends in a report on exactly the stations that it was
  -- given, in their order, with the job as it was but for its state, and that state is the one that the
  -- results lead to; or it raises, but never for an illegal transition.
  pub execute_reports :
      (job : PublishJob) (stations : List Station) (confirmed : Bool) (w : World)
      → job.dry_run ≡ false
      → Ensures
          (IsReport job (station_ids stations))
          (execute reads writes job stations confirmed w).0
  unfolding execute
  execute_reports job stations confirmed w h =
      let planned = λ (current : PublishJob).
        find_source_dataset reads writes job.source_dataset >>= λ source.
        plan_stations reads writes job stations >>= run job current source in
      let distinct = raise_if (not (all_distinct (station_ids stations))) precondition in
      Ensures-guard (IsReport job (station_ids stations)) (is_empty stations) precondition
        (raise_if (not confirmed) precondition >> (distinct >> (enter_publishing job >>= planned)))
        w refl
        (λ w1.
          Ensures-guard (IsReport job (station_ids stations)) (not confirmed) precondition
            (distinct >> (enter_publishing job >>= planned)) w1 refl
            (λ w2.
              Ensures-guard (IsReport job (station_ids stations))
                (not (all_distinct (station_ids stations))) precondition
                (enter_publishing job >>= planned) w2 refl
                (λ w3.
                  Ensures->>= (λ j. j ≡ record job { status = publishing })
                    (IsReport job (station_ids stations)) (enter_publishing job) planned w3
                    (Ensures-enter job w3)
                    (λ current w4 e. planned-Ensures job current stations w4 h e))))
