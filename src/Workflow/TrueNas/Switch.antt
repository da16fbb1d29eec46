-- ===== src/Workflow/TrueNas/Switch.antt =====
-- application/truenas_publish.py: cloning for one station, switching its extent, and the read-back.
pub mod Safety
use true_nas_controller.Common.{
  Bool, true, false, not, ◌&&◌, Option, none, some, List, [], ◌∷◌, ◌++◌, Text, codes, text_eq, take,
  any, decimal, join_words, uuid_text, keep_if, find_first, ◌==◌, if◌then◌else◌,
}
use true_nas_controller.Domain.Publish.{
  PublishTargetResult, TargetStatus, verified, error, recovery_required,
}
use true_nas_controller.Workflow.Outcome.{Outcome, done, unknown, failed}
use true_nas_controller.Workflow.TrueNas.Plan.{
  TrueNasDataset, TrueNasExtent, TrueNasTargetExtent, ReadClient, WriteClient, StationPlan, only,
}

abbrev pub device_eq : Option Text → Text → Bool
device_eq none device = false
device_eq (some d) device = text_eq d device

abbrev pub result_of :
    StationPlan → TargetStatus → Option Text → Option Text → Bool → PublishTargetResult
result_of plan status error_code error_message storage_created = record {
  station_id = plan.station.station_id;
  status = status;
  old_mapping = plan.mapping.old_device;
  new_mapping = some plan.destination_device;
  error_code = error_code;
  error_message = error_message;
  storage_created = storage_created;
}

-- How `_verify_read_back` ends: it returns, or raises an exception of a class with a text.
pub data Attempt : Type 0 where
  passed : Attempt
  threw : Text → Text → Attempt

abbrev storage_error : Text
storage_error = codes "TrueNASPublishError"

-- `_safe_error_detail`
abbrev or_class : Text → Text → Text
or_class class_name [] = class_name
or_class class_name (c ∷ s) = c ∷ s

unfoldable pub safe_error_detail : Text → Text → Text
safe_error_detail class_name message = or_class class_name (take 300 (join_words message))

-- The text of a result whose write may or may not have happened.
abbrev recovery_message : Text → Text → Text
recovery_message class_name message =
    codes
      "extent update outcome is unknown; read-back did not confirm it; initial operation failed: "
    ++ safe_error_detail class_name message

-- The message of a read-back that does not confirm the plan.
abbrev read_back_error : StationPlan → Bool → Text
read_back_error plan true =
    codes "extent "
    ++ decimal plan.mapping.extent_id
    ++ codes " read-back device does not match clone"
read_back_error plan false =
    codes "target/extent/LUN association changed for station " ++ uuid_text plan.station.station_id

abbrev pub same_association : StationPlan → List TrueNasTargetExtent → Bool
same_association plan associations =
    elim (only (
      keep_if
        (λ (a : TrueNasTargetExtent).
          a.target_id == plan.mapping.target_id
          && a.extent_id == plan.mapping.extent_id
          && a.lun_id == plan.mapping.lun_id)
        associations)) [ none ↦ false | some _ ↦ true ]

abbrev pub points_to_clone : StationPlan → List TrueNasExtent → Bool
points_to_clone plan extents =
    elim (find_first (λ (e : TrueNasExtent). e.id == plan.mapping.extent_id) extents) [
      | none ↦ false
      | some extent ↦ device_eq extent.path plan.destination_device
    ]

-- The second read-back decides between success and manual recovery.
abbrev pub recovery_result : StationPlan → Bool → Text → Text → Attempt → PublishTargetResult
recovery_result plan storage_created class_name message passed =
    result_of plan verified none none storage_created
recovery_result plan storage_created class_name message (threw _ _) =
    result_of plan recovery_required (some (codes "extent_update_unknown"))
      (some (recovery_message class_name message)) storage_created

module _ {World : Type 0} (reads : ReadClient World) (writes : WriteClient World) where
  open reads use {query_datasets, query_extents, query_target_extents}
  open writes use {clone_snapshot, update_extent_device}

  abbrev check_extents : StationPlan → Outcome (List TrueNasExtent) → Attempt
  check_extents plan (done extents) =
      if points_to_clone plan extents
      then passed
      else threw storage_error (read_back_error plan true)
  check_extents plan (unknown message) = threw (codes "UnknownStorageOutcome") message
  check_extents plan (failed class_name message) = threw class_name message

  abbrev check_associations :
      StationPlan → Outcome (List TrueNasTargetExtent) → World → Attempt × World
  check_associations plan (done associations) w =
      if same_association plan associations
      then (let (o, w') = query_extents w in (check_extents plan o, w'))
      else (threw storage_error (read_back_error plan false), w)
  check_associations plan (unknown message) w = (threw (codes "UnknownStorageOutcome") message, w)
  check_associations plan (failed class_name message) w = (threw class_name message, w)

  -- `_verify_read_back`
  unfoldable pub verify_read_back : StationPlan → World → Attempt × World
  verify_read_back plan w = let (o, w') = query_target_extents w in check_associations plan o w'

  -- The `except` branch: a write that may have happened is read back once more.
  abbrev pub after_error :
      StationPlan → Bool → Bool → Text → Text → World → PublishTargetResult × World
  after_error plan false storage_created class_name message w =
      (result_of plan error (some (codes "target_failed")) (some message) storage_created, w)
  after_error plan true storage_created class_name message w =
      let (a, w') = verify_read_back plan w in
      (recovery_result plan storage_created class_name message a, w')

  abbrev pub after_read_back : StationPlan → Bool → Attempt → World → PublishTargetResult × World
  after_read_back plan write_attempted passed w = (result_of plan verified none none true, w)
  after_read_back plan write_attempted (threw class_name message) w =
      after_error plan write_attempted true class_name message w

  abbrev read_back : StationPlan → Bool → World → PublishTargetResult × World
  read_back plan write_attempted w =
      let (a, w') = verify_read_back plan w in after_read_back plan write_attempted a w'

  abbrev pub after_update : StationPlan → Outcome (Unit {0}) → World → PublishTargetResult × World
  after_update plan (done _) w = read_back plan true w
  after_update plan (unknown message) w =
      after_error plan true true (codes "UnknownStorageOutcome") message w
  after_update plan (failed class_name message) w = after_error plan true true class_name message w

  -- The clone is there: point the extent to it, unless it points there already.
  unfoldable pub switch_extent : StationPlan → World → PublishTargetResult × World
  switch_extent plan w =
      if device_eq plan.mapping.old_device plan.destination_device
      then read_back plan false w
      else (let (o, w') = update_extent_device plan.mapping.extent_id plan.destination_device w in
          after_update plan o w')

  abbrev pub after_clone : StationPlan → Outcome (Unit {0}) → World → PublishTargetResult × World
  after_clone plan (done _) w = switch_extent plan w
  after_clone plan (unknown message) w =
      after_error plan false false (codes "UnknownStorageOutcome") message w
  after_clone plan (failed class_name message) w = after_error plan false false class_name message w

  abbrev pub after_datasets :
      Text → StationPlan → Outcome (List TrueNasDataset) → World → PublishTargetResult × World
  after_datasets snapshot_ref plan (done datasets) w =
      if any datasets (λ (d : TrueNasDataset). text_eq d.name plan.destination_dataset)
      then switch_extent plan w
      else (let (o, w') = clone_snapshot snapshot_ref plan.destination_dataset w in
          after_clone plan o w')
  after_datasets snapshot_ref plan (unknown message) w =
      after_error plan false false (codes "UnknownStorageOutcome") message w
  after_datasets snapshot_ref plan (failed class_name message) w =
      after_error plan false false class_name message w

  -- `_apply_station`
  unfoldable pub apply_station : Text → StationPlan → World → PublishTargetResult × World
  apply_station snapshot_ref plan w =
      let (o, w') = query_datasets w in after_datasets snapshot_ref plan o w'
