-- ===== src/Store/Targets.antt =====
-- repository/publish_targets.py: the stations selected for a job.
use true_nas_controller.Common.{
  ℕ, Bool, true, false, not, ◌&&◌, ◌||◌, Option, none, some, List, [], ◌∷◌, ◌++◌, leb, map, suc,
  ltb, find_first, update_if, keep_if, order_by, is_none, ◌==◌, if◌then◌else◌,
}
use true_nas_controller.Domain.Publish.{PublishTarget}
use true_nas_controller.Store.Database.{Database, StationRow, TargetRow}
use true_nas_controller.Store.Stations.{find_station}
use true_nas_controller.Store.Session.{value_error, Tx, ◌>>=◌, ◌>>◌, pure, raise, gets, modify}

-- The station of a row, by the join on the primary key.
abbrev pub joined_station : Database → TargetRow → Option StationRow
joined_station db row = find_first (λ (s : StationRow). s.station.id == row.station_pk) db.stations

-- `_to_domain`: the stable id comes from the joined station, `selected` from `deselected_at`.
abbrev pub to_target : TargetRow × StationRow → PublishTarget
to_target (row, station) = record row.target {
  station_id = station.station.station_id;
  selected = is_none row.deselected_at;
}

-- The inner join: a row with no station is dropped.
abbrev add_joined :
    TargetRow → Option StationRow → List (TargetRow × StationRow) → List (TargetRow × StationRow)
add_joined row none rest = rest
add_joined row (some station) rest = (row, station) ∷ rest

abbrev pub join_stations : Database → List TargetRow → List (TargetRow × StationRow)
join_stations db [] = []
join_stations db (row ∷ rows) = add_joined row (joined_station db row) (join_stations db rows)

-- `ORDER BY selected_at, station_id`, NULL last; `le` orders the stable ids of equal instants.
abbrev time_before : Bool → Option ℕ → Option ℕ → Bool
time_before le none none = le
time_before le (some _) none = true
time_before le none (some _) = false
time_before le (some s) (some t) = ltb s t || (s == t && le)

abbrev pub selected_before : TargetRow × StationRow → TargetRow × StationRow → Bool
selected_before (a, s) (b, t) =
    time_before (leb s.station.station_id t.station.station_id) a.selected_at b.selected_at

abbrev pub targets_of : ℕ → Database → List PublishTarget
targets_of job_id db = map to_target (
    order_by selected_before
      (join_stations db (keep_if (λ (row : TargetRow). row.target.job_id == job_id) db.targets)))

-- `list_for_job`
unfoldable pub list_for_job : ℕ → Tx (List PublishTarget)
list_for_job job_id = gets (targets_of job_id)

abbrev pub insert_target : ℕ → PublishTarget → Option StationRow → Tx (Unit {0})
insert_target now target none = raise value_error
insert_target now target (some station) = modify (λ db. record db {
  targets =
      db.targets
      ++ record {
        target = target;
        station_pk = station.station.id;
        selected_at = if target.selected then some now else none;
        deselected_at = if target.selected then none else some now;
      }
        ∷ [];
})

-- `add`; `now` is `utc_now()`
unfoldable pub add_target : ℕ → PublishTarget → Tx (Unit {0})
add_target now target = do
  found ← gets (find_station target.station_id)
  insert_target now target found

-- `add_many`: `add` for each target in turn; `clock n` is the n-th reading of `utc_now()`.
unfoldable pub add_targets : (ℕ → ℕ) → ℕ → List PublishTarget → Tx (Unit {0})
unfolding add_target
add_targets clock n [] = pure tt
add_targets clock n (target ∷ targets) = do
  add_target (clock n) target
  add_targets clock (suc n) targets

abbrev pub written_target : PublishTarget → TargetRow → TargetRow
written_target target row = record row {
  target = record row.target {
    preflight_status = target.preflight_status;
    preflight_result = target.preflight_result;
    old_version_id = target.old_version_id;
    new_version_id = target.new_version_id;
    old_mapping = target.old_mapping;
    new_mapping = target.new_mapping;
    switch_status = target.switch_status;
    verify_status = target.verify_status;
    error_code = target.error_code;
    error_message = target.error_message;
    progress_percent = target.progress_percent;
  };
}

abbrev pub write_target : PublishTarget → Option TargetRow → Tx (Unit {0})
write_target target none = raise value_error
write_target target (some row) =
    if not (row.target.job_id == target.job_id)
    then raise value_error
    else modify (λ db. record db {
      targets =
          update_if (λ (r : TargetRow). r.target.id == target.id) (written_target target)
            db.targets;
    })

-- `update`
unfoldable pub update_target : PublishTarget → Tx (Unit {0})
update_target target = do
  found ← gets (λ db. find_first (λ (r : TargetRow). r.target.id == target.id) db.targets)
  write_target target found

-- `for target in targets: await uow.publish_targets.update(target)`
unfoldable pub update_targets : List PublishTarget → Tx (Unit {0})
unfolding update_target
update_targets [] = pure tt
update_targets (target ∷ targets) = do update_target target; update_targets targets
