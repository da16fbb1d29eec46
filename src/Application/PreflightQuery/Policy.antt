-- ===== src/Application/PreflightQuery/Policy.antt =====
-- The preflight of a station over the database (application/preflight.py).
use true_nas_controller.Common.{
  ℕ, ◌≡◌, sym, ap, ◌∙◌, ◌↔◌, true, Option, some, List, Text, keep_if, order_by,
}
use true_nas_controller.Domain.Station.{Station}
use true_nas_controller.Domain.Snapshot.{ProcessSnapshot}
use true_nas_controller.Domain.Preflight.{
  PreflightPolicy, PreflightReport, ProcessRule, can_publish, evaluate_preflight,
}
use true_nas_controller.Domain.Preflight.Readiness.{IsReady, evaluate_preflight_iff}
use true_nas_controller.Domain.Preflight.Roles.{role_rules_suffice}
use true_nas_controller.Store.Database.{Database}
use true_nas_controller.Store.Session.{
  Result, ok, err, Session, Tx, ◌>>=◌, pure, or_raise, unit_of_work, station_not_found,
}
use true_nas_controller.Store.Session.Committed.{session}
use true_nas_controller.Store.Stations.{get_station}
use true_nas_controller.Store.Agents.{latest_snapshot}
use true_nas_controller.Store.Rules.{list_for_role, is_for_role, rule_order}
use true_nas_controller.Application.PreflightQuery.{preflight_data, evaluate_station_preflight}

module _ (casefold : Text → Text) (policy : PreflightPolicy) (now station_id : ℕ)
    (db : Database) where
  abbrev role_rules : Station → List ProcessRule
  role_rules station = order_by rule_order (keep_if (is_for_role station.role) db.rules)

  -- The query from the snapshot on, and from the station on.
  abbrev with_snapshot :
      Station → Option ProcessSnapshot → Tx (Station × Option ProcessSnapshot × List ProcessRule)
  with_snapshot station snapshot =
      list_for_role station.role >>= λ rules. pure (station, snapshot, rules)

  abbrev with_station : Option Station → Tx (Station × Option ProcessSnapshot × List ProcessRule)
  with_station found = or_raise found station_not_found >>= λ station.
      latest_snapshot station_id >>= with_snapshot station

  query_returns :
      (station : Station) (snapshot : ProcessSnapshot)
      → get_station station_id (session db) ≡ (ok (some station), session db)
      → latest_snapshot station_id (session db) ≡ (ok (some snapshot), session db)
      → evaluate_station_preflight casefold policy now station_id db
        ≡ ok (evaluate_preflight casefold station (some snapshot) (role_rules station) policy now)
  unfolding evaluate_station_preflight preflight_data unit_of_work list_for_role
  query_returns station snapshot h k =
      let answer = λ (r : Result (Station × Option ProcessSnapshot × List ProcessRule) × Session).
        elim (r.0) as (λ _. Result PreflightReport) [
          | err e ↦ err e
          | ok (station, snapshot, rules) ↦
              ok (evaluate_preflight casefold station snapshot rules policy now)
        ] in
      ap (λ found. answer (((λ _. found) >>= with_station) (session db))) h
      ∙ ap (λ latest. answer (((λ _. latest) >>= with_snapshot station) (session db))) k

  -- With a live station and its latest snapshot in the database, the query returns a report, and it lets the
  -- station publish exactly when the station is ready under the whole policy, whatever role its rules are for.
  pub evaluate_station_preflight-IsReady :
      (station : Station) (snapshot : ProcessSnapshot)
      → get_station station_id (session db) ≡ (ok (some station), session db)
      → latest_snapshot station_id (session db) ≡ (ok (some snapshot), session db)
      → (report : PreflightReport) × (evaluate_station_preflight casefold policy now station_id db
          ≡ ok report)
        × ((can_publish report ≡ true) ↔ IsReady casefold station snapshot db.rules policy now)
  evaluate_station_preflight-IsReady station snapshot h k =
      let report =
        evaluate_preflight casefold station (some snapshot) (role_rules station) policy now in
      let whole = role_rules_suffice casefold station snapshot rule_order db.rules policy now in
      let ready = evaluate_preflight_iff casefold station snapshot db.rules policy now in
      (
        report,
        query_returns station snapshot h k,
        (λ p. ready.0 (sym whole ∙ p), λ r. whole ∙ ready.1 r),
      )
