-- ===== src/Application/Mappings.antt =====
-- application/datasets.py: which data set TrueNAS serves to each station, and what that says of the
-- recorded artifacts.
pub mod Keys
use true_nas_controller.Common.{
  ℕ, Bool, true, false, ◌&&◌, ◌||◌, Option, none, some, List, [], ◌∷◌, ◌++◌, map, Text, codes,
  text_eq, any, strip, removeprefix, is_some, is_none, is_empty, keep_if, find_last, lookup, put,
  ◌==◌, if◌then◌else◌,
}
use true_nas_controller.Domain.Station.{Station}
use true_nas_controller.Domain.Publish.{PublishArtifact, current}
use true_nas_controller.Store.Session.{Result, ok, err, dataset_storage_sync, true_nas_client}
use true_nas_controller.Store.Artifacts.{retired_if_current, is_same_id}
use true_nas_controller.Workflow.Outcome.{
  Outcome, done, Run, returned, raised, Io, ◌>>=◌, pure, call,
}
use true_nas_controller.Workflow.TrueNas.Plan.{
  TrueNasDataset, TrueNasTarget, TrueNasExtent, TrueNasTargetExtent, ReadClient,
}

-- `_canonical_mapping`
unfoldable pub canonical_mapping : Text → Text
canonical_mapping value = removeprefix (removeprefix (strip value) (codes "disk=")) (codes "/dev/")

-- `_canonical_dataset`
unfoldable pub canonical_dataset : Text → Text
canonical_dataset value = removeprefix (canonical_mapping value) (codes "zvol/")

-- `_artifact_matches_mapping`
unfoldable pub artifact_matches_mapping : PublishArtifact → Text → Bool
artifact_matches_mapping artifact live_mapping =
    text_eq live_mapping (canonical_mapping artifact.mapping_ref)
    || text_eq live_mapping (canonical_mapping (codes "zvol/" ++ artifact.dataset_name))

-- `_artifact_exists_in_live`
unfoldable pub artifact_exists_in_live : PublishArtifact → List Text → Bool
artifact_exists_in_live artifact live_dataset_names =
    any live_dataset_names (text_eq (canonical_dataset artifact.dataset_name))

abbrev only : {A : Type 0} → List A → Option A
only (x ∷ []) = some x
only _ = none

module _ (targets : List TrueNasTarget) (associations : List TrueNasTargetExtent)
    (extents : List TrueNasExtent) where
  abbrev extent_path : ℕ → Option Text
  extent_path extent_id = elim (find_last (λ (e : TrueNasExtent). e.id == extent_id) extents) [
    | none ↦ none
    | some extent ↦ extent.path
  ]

  -- The path behind the only target with the name of the station, by its only association.
  abbrev path_of_target : Text → Option Text
  path_of_target name = elim (only (keep_if (λ (t : TrueNasTarget). text_eq t.name name) targets)) [
    | none ↦ none
    | some target ↦
        elim (only (keep_if (λ (a : TrueNasTargetExtent). a.target_id == target.id) associations)) [
          | none ↦ none
          | some association ↦ extent_path association.extent_id
        ]
  ]

  -- One pass of the loop: `none` for every `continue`.
  abbrev pub live_path : Station → Option Text
  live_path station = elim (station.target_name) [
    | none ↦ none
    | some name ↦ if is_empty name then none else path_of_target name
  ]

  abbrev pub map_from : List Station → List (ℕ × Text) → List (ℕ × Text)
  map_from [] mappings = mappings
  map_from (station ∷ stations) mappings = map_from stations (elim (live_path station) [
    | none ↦ mappings
    | some path ↦ put station.station_id (canonical_mapping path) mappings
  ])

  -- `_map_station_mappings`
  unfoldable pub map_station_mappings : List Station → List (ℕ × Text)
  map_station_mappings stations = map_from stations []

-- What the four queries return.
pub record LiveState : Type 0 where
  pub mappings : List (ℕ × Text)
  pub dataset_names : List Text

module _ {World : Type 0} (client : ReadClient World)
    (close : World → Outcome (Unit {0}) × World) where
  abbrev query_live : List Station → Io World LiveState
  query_live stations = do
    datasets ← call client.query_datasets
    targets ← call client.query_targets
    associations ← call client.query_target_extents
    extents ← call client.query_extents
    pure (record {
      mappings = map_station_mappings targets associations extents stations;
      dataset_names = map (λ (d : TrueNasDataset). canonical_dataset d.name) datasets;
    })

  -- `finally: await client.close()`; an exception of the close takes the place of the outcome.
  abbrev and_close : Run LiveState × World → Result LiveState × World
  and_close (r, w) =
      let (o, w') = close w in
      (
        elim o [
          | done _ ↦ elim r [ returned live ↦ ok live | raised _ ↦ err dataset_storage_sync ]
          | _ ↦ err true_nas_client
        ],
        w',
      )

  -- `_read_live_state`
  unfoldable pub read_live_state : List Station → World → Result LiveState × World
  read_live_state stations w = and_close (query_live stations w)

-- The artifact that a station uses: the only one that is not deleted and matches its mapping.
unfoldable pub current_id : List PublishArtifact → ℕ → Text → Option ℕ
current_id artifacts station_id live_mapping =
    elim (only (
      keep_if
        (λ (a : PublishArtifact).
          a.station_id == station_id
          && is_none a.deleted_at
          && artifact_matches_mapping a live_mapping)
        artifacts)) [ none ↦ none | some artifact ↦ some artifact.id ]

-- The dict `current_ids`
abbrev pub current_ids : List PublishArtifact → List (ℕ × Text) → List (ℕ × Option ℕ)
current_ids artifacts [] = []
current_ids artifacts ((station_id, live_mapping) ∷ mappings) =
    (station_id, current_id artifacts station_id live_mapping) ∷ current_ids artifacts mappings

-- An artifact of a station whose current artifact is known.
abbrev pub reconciled_to : Option ℕ → PublishArtifact → PublishArtifact
reconciled_to expected artifact =
    if is_some artifact.deleted_at
    then artifact
    else if is_same_id artifact.id expected
    then record artifact { status = current; is_current = true; last_error = none }
    else record artifact { status = retired_if_current artifact.status; is_current = false }

abbrev pub reconciled : List (ℕ × Option ℕ) → PublishArtifact → PublishArtifact
reconciled ids artifact = elim (lookup artifact.station_id ids) [
  | none ↦ artifact
  | some expected ↦ reconciled_to expected artifact
]

-- `_reconcile_artifacts`
unfoldable pub reconcile_artifacts : List PublishArtifact → List (ℕ × Text) → List PublishArtifact
reconcile_artifacts artifacts mappings = map (reconciled (current_ids artifacts mappings)) artifacts
