-- ===== src/Workflow/TrueNas.antt =====
-- application/truenas_publish.py: the publish workflow over the TrueNAS API. The API's clients are an
-- interface; a call may fail.
pub mod Plan
pub mod Switch
pub mod About
pub mod Reports
pub mod DryRun
use true_nas_controller.Common.{
  ℕ, Bool, false, not, ◌&&◌, ◌||◌, Option, none, some, List, [], ◌∷◌, ◌++◌, Text, codes, text_eq,
  uuid_hex, take, find_first, map, all_distinct, is_empty, if◌then◌else◌,
}
use true_nas_controller.Domain.Station.{Station}
use true_nas_controller.Domain.Publish.{
  PublishJob, PublishTargetResult, simulated, switching, verifying, completed,
}
use true_nas_controller.Workflow.Outcome.{
  precondition, storage_state, Io, ◌>>=◌, ◌>>◌, pure, raise_if, or_raise, call, move,
  enter_publishing, final_status,
}
use true_nas_controller.Workflow.TrueNas.Plan.{
  TrueNasDataset, TrueNasSnapshot, ReadClient, WriteClient, StationPlan, plan_all,
}
use true_nas_controller.Workflow.TrueNas.Switch.{apply_station}
use true_nas_controller.Workflow.Fake.{PublishWorkflowResult}

abbrev pub station_ids : List Station → List ℕ
station_ids stations = map (λ (s : Station). s.station_id) stations

abbrev pub find_source : Text → List TrueNasDataset → Option TrueNasDataset
find_source name datasets =
    find_first (λ (d : TrueNasDataset). text_eq d.name name || text_eq d.id name) datasets

abbrev pub snapshot_name : PublishJob → Text
snapshot_name job = codes "tnas-controller-" ++ take 16 (uuid_hex job.id)

abbrev pub full_snapshot_name : PublishJob → Text → Text
full_snapshot_name job source = source ++ codes "@" ++ snapshot_name job

abbrev pub existing_snapshot : PublishJob → Text → List TrueNasSnapshot → Option TrueNasSnapshot
existing_snapshot job source snapshots =
    find_first
      (λ (s : TrueNasSnapshot).
        text_eq s.name (full_snapshot_name job source) && text_eq s.dataset source)
      snapshots

-- The snapshot that came back is not the one that was asked for.
abbrev pub is_wrong_snapshot : PublishJob → Text → TrueNasSnapshot → Bool
is_wrong_snapshot job source created =
    not (text_eq created.dataset source)
    || not (text_eq created.name (full_snapshot_name job source))

abbrev simulated_result : StationPlan → PublishTargetResult
simulated_result plan = record {
  station_id = plan.station.station_id;
  status = simulated;
  old_mapping = plan.mapping.old_device;
  new_mapping = some plan.destination_device;
  error_code = none;
  error_message = none;
  storage_created = false;
}

module _ {World : Type 0} (reads : ReadClient World) (writes : WriteClient World) where
  open reads use {
    query_datasets, query_snapshots, query_targets, query_extents, query_target_extents,
  }
  open writes use {create_snapshot}

  -- `_find_source_dataset`
  unfoldable pub find_source_dataset : Text → Io World TrueNasDataset
  find_source_dataset name = do
    datasets ← call query_datasets
    or_raise (find_source name datasets) storage_state

  -- `_resolve_mappings` and the plans that are built from them
  unfoldable pub plan_stations : PublishJob → List Station → Io World (List StationPlan)
  plan_stations job stations = do
    targets ← call query_targets
    associations ← call query_target_extents
    extents ← call query_extents
    or_raise (plan_all job targets associations extents stations) storage_state

  abbrev pub reuse_or_create : PublishJob → Text → Option TrueNasSnapshot → Io World Text
  reuse_or_create job source (some existing) = pure existing.name
  reuse_or_create job source none = do
    created ← call (create_snapshot source (snapshot_name job))
    raise_if (is_wrong_snapshot job source created) storage_state
    pure created.name

  -- `_ensure_snapshot`
  unfoldable pub ensure_snapshot : PublishJob → Text → Io World Text
  ensure_snapshot job source = do
    snapshots ← call query_snapshots
    reuse_or_create job source (existing_snapshot job source snapshots)

  -- `for plan in plans: results.append(await self._apply_station(...))`
  unfoldable pub apply_stations : Text → List StationPlan → World → List PublishTargetResult × World
  apply_stations snapshot_ref [] w = ([], w)
  apply_stations snapshot_ref (plan ∷ plans) w =
      let (r, w') = apply_station reads writes snapshot_ref plan w in
      let (rs, w'') = apply_stations snapshot_ref plans w' in (r ∷ rs, w'')

  unfoldable pub dry_run :
      PublishJob → PublishJob → List StationPlan → Io World PublishWorkflowResult
  dry_run job current plans = do
    finished ← move current completed
    pure (record {
      job = record finished { status_reason = some (codes "dry_run_simulation") };
      master_mapping = some (codes "dry-run:" ++ job.source_dataset);
      targets = map simulated_result plans;
    })

  -- The final state, from the results.
  abbrev pub finish : Text → List PublishTargetResult → PublishJob → Io World PublishWorkflowResult
  finish snapshot_ref results checking = do
    finished ← move checking (final_status results)
    pure (record { job = finished; master_mapping = some snapshot_ref; targets = results })

  abbrev pub apply_phase : Text → List StationPlan → PublishJob → Io World PublishWorkflowResult
  apply_phase snapshot_ref plans entered w =
      let (results, w') = apply_stations snapshot_ref plans w in
      (move entered verifying >>= finish snapshot_ref results) w'

  unfoldable pub real_run :
      PublishJob → PublishJob → Text → List StationPlan → Io World PublishWorkflowResult
  real_run job current source plans = do
    snapshot_ref ← ensure_snapshot job source
    entered ← move current switching
    apply_phase snapshot_ref plans entered

  -- `TrueNASPublishWorkflow.execute`
  unfoldable pub execute : PublishJob → List Station → Bool → Io World PublishWorkflowResult
  unfolding find_source_dataset plan_stations dry_run real_run
  execute job stations confirmed = do
    raise_if (is_empty stations) precondition
    raise_if (not confirmed) precondition
    raise_if (not (all_distinct (station_ids stations))) precondition
    current ← enter_publishing job
    source ← find_source_dataset job.source_dataset
    plans ← plan_stations job stations
    if job.dry_run then dry_run job current plans else real_run job current source.name plans
