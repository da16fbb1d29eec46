-- ===== src/Application/PreflightQuery.antt =====
-- application/preflight.py: the preflight of a station over what is stored.
pub mod Policy
use true_nas_controller.Common.{ℕ, Option, List, Text}
use true_nas_controller.Domain.Station.{Station}
use true_nas_controller.Domain.Snapshot.{ProcessSnapshot}
use true_nas_controller.Domain.Preflight.{
  PreflightPolicy, PreflightReport, ProcessRule, evaluate_preflight,
}
use true_nas_controller.Store.Database.{Database}
use true_nas_controller.Store.Session.{
  Result, ok, err, station_not_found, Tx, ◌>>=◌, ◌>>◌, pure, or_raise, unit_of_work,
}
use true_nas_controller.Store.Stations.{get_station}
use true_nas_controller.Store.Agents.{latest_snapshot}
use true_nas_controller.Store.Rules.{list_for_role}

-- What the unit of work reads.
unfoldable pub preflight_data : ℕ → Tx (Station × Option ProcessSnapshot × List ProcessRule)
preflight_data station_id = do
  found ← get_station station_id
  station ← or_raise found station_not_found
  snapshot ← latest_snapshot station_id
  rules ← list_for_role station.role
  pure (station, snapshot, rules)

-- `EvaluateStationPreflightUseCase.execute`
unfoldable pub evaluate_station_preflight :
    (Text → Text) → PreflightPolicy → ℕ → ℕ → Database → Result PreflightReport
evaluate_station_preflight casefold policy now station_id db =
    elim (unit_of_work (preflight_data station_id) db).0 [
      | err e ↦ err e
      | ok (station, snapshot, rules) ↦
          ok (evaluate_preflight casefold station snapshot rules policy now)
    ]
