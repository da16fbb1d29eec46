-- ===== src/Domain/Preflight.antt =====
-- domain/preflight.py: the checks that a station must pass before a publish. `casefold` is the
-- Unicode case folding of Python's `str`, whose table is not part of the program; the folding is a
-- parameter. The texts of `message` are not modelled, every other field is.
pub mod Readiness
pub mod Roles
use true_nas_controller.Common.{
  ℕ, ◌-◌, Bool, true, false, not, ◌&&◌, ◌||◌, Option, none, some, List, [], ◌∷◌, Text, any, keep_if,
  find_first, is_empty, is_some, text_eq, ltb, ◌==◌, if◌then◌else◌,
}
use true_nas_controller.Domain.Station.{Station, StationRole, role_eq}
use true_nas_controller.Domain.Snapshot.{ProcessInfo, DriveInfo, ProcessSnapshot}

pub data CheckStatus : Type 0 where
  pass block unknown warning : CheckStatus

abbrev pub check_status_eq : CheckStatus → CheckStatus → Bool
check_status_eq pass pass = true
check_status_eq block block = true
check_status_eq unknown unknown = true
check_status_eq warning warning = true
check_status_eq _ _ = false

pub data RuleSeverity : Type 0 where
  blocking warning : RuleSeverity

abbrev pub is_blocking : RuleSeverity → Bool
is_blocking blocking = true
is_blocking RuleSeverity.warning = false

pub record ProcessRule : Type 0 where
  pub name : Text
  pub role : Option StationRole
  pub required_closed : Bool
  pub severity : RuleSeverity
  pub enabled : Bool
  pub persistent_policy : Bool
  pub id : Option ℕ

-- Durations are microseconds.
pub record PreflightPolicy : Type 0 where
  pub max_snapshot_age : ℕ
  pub required_drive_letter : Text
  pub min_free_bytes : ℕ

pub data CheckCode : Type 0 where
  station_disabled snapshot_missing snapshot_station_mismatch : CheckCode
  snapshot_clock_skew snapshot_stale snapshot_fresh : CheckCode
  drive_missing drive_free_space_unknown drive_low_space drive_ready : CheckCode
  processes_closed blocking_process warning_process : CheckCode

pub record CheckResult : Type 0 where
  pub status : CheckStatus
  pub code : CheckCode
  pub observed_at : ℕ
  pub source_snapshot_id : Option ℕ
  pub matched_processes : List ProcessInfo

pub record PreflightReport : Type 0 where
  pub station_id : ℕ
  pub status : CheckStatus
  pub checks : List CheckResult
  pub evaluated_at : ℕ

-- `PreflightReport.can_publish`
unfoldable pub can_publish : PreflightReport → Bool
can_publish report =
    check_status_eq report.status pass || check_status_eq report.status CheckStatus.warning

-- A `CheckResult` with the defaults of its last two fields.
abbrev pub check : CheckStatus → CheckCode → ℕ → CheckResult
check status code observed_at = record {
  status = status;
  code = code;
  observed_at = observed_at;
  source_snapshot_id = none;
  matched_processes = [];
}

-- `_freshness_check`: the age is negative when the snapshot is ahead of the clock.
unfoldable pub freshness_check : ProcessSnapshot → PreflightPolicy → ℕ → CheckResult
freshness_check snapshot policy observed_at =
    if ltb observed_at snapshot.captured_at
    then check unknown snapshot_clock_skew observed_at
    else if ltb policy.max_snapshot_age (observed_at - snapshot.captured_at)
    then check unknown snapshot_stale observed_at
    else check pass snapshot_fresh observed_at

-- `_aggregate_status`
unfoldable pub aggregate_status : List CheckResult → CheckStatus
aggregate_status checks =
    if any checks (λ c. check_status_eq c.status block)
    then block
    else if any checks (λ c. check_status_eq c.status unknown)
    then unknown
    else if any checks (λ c. check_status_eq c.status CheckStatus.warning)
    then CheckStatus.warning
    else pass

-- `self.role is None or self.role is station.role`
abbrev pub applies_to_role : Option StationRole → StationRole → Bool
applies_to_role none role = true
applies_to_role (some r) role = role_eq r role

-- The end of `_drive_check`, once the drive is known to be present.
abbrev pub space_check : Option ℕ → PreflightPolicy → ℕ → CheckResult
space_check none policy observed_at = check unknown drive_free_space_unknown observed_at
space_check (some free_bytes) policy observed_at =
    if ltb free_bytes policy.min_free_bytes
    then check block drive_low_space observed_at
    else check pass drive_ready observed_at

abbrev pub found_drive_check : Option DriveInfo → PreflightPolicy → ℕ → CheckResult
found_drive_check none policy observed_at = check block drive_missing observed_at
found_drive_check (some drive) policy observed_at =
    if not drive.present
    then check block drive_missing observed_at
    else space_check drive.free_bytes policy observed_at

abbrev single : ℕ → CheckStatus → CheckResult → ℕ → PreflightReport
single station_id status c evaluated_at = record {
  station_id = station_id;
  status = status;
  checks = c ∷ [];
  evaluated_at = evaluated_at;
}

module _ (casefold : Text → Text) where
  -- `ProcessRule.matches`
  unfoldable pub matches : ProcessRule → Station → Text → Bool
  matches rule station process_name =
      rule.enabled
      && applies_to_role rule.role station.role
      && text_eq (casefold rule.name) (casefold process_name)

  -- `_drive_check`
  unfoldable pub drive_check : ProcessSnapshot → PreflightPolicy → ℕ → CheckResult
  drive_check snapshot policy observed_at =
      found_drive_check
        (find_first
          (λ (item : DriveInfo).
            text_eq (casefold item.letter) (casefold policy.required_drive_letter))
          snapshot.drives)
        policy observed_at

  -- `required_rules` and `violations` of `_process_check`
  abbrev pub required_rules : List ProcessRule → List ProcessRule
  required_rules rules = keep_if (λ (rule : ProcessRule). rule.required_closed) rules

  abbrev pub violations : Station → ProcessSnapshot → List ProcessRule → List ProcessRule
  violations station snapshot rules =
      keep_if
        (λ (rule : ProcessRule).
          any snapshot.processes (λ (p : ProcessInfo). matches rule station p.name))
        (required_rules rules)

  abbrev pub matched : Station → ProcessSnapshot → List ProcessRule → List ProcessInfo
  matched station snapshot rules =
      keep_if
        (λ (p : ProcessInfo).
          any (required_rules rules) (λ (rule : ProcessRule). matches rule station p.name))
        snapshot.processes

  -- `_process_check`
  unfoldable pub process_check : Station → ProcessSnapshot → List ProcessRule → ℕ → CheckResult
  process_check station snapshot rules observed_at =
      let found = violations station snapshot rules in
      let seen = matched station snapshot rules in
      if is_empty found
      then record (check pass processes_closed observed_at) { matched_processes = seen }
      else if any found (λ (rule : ProcessRule). is_blocking rule.severity)
      then record (check block blocking_process observed_at) { matched_processes = seen }
      else record (check CheckStatus.warning warning_process observed_at) {
        matched_processes = seen;
      }

  -- `evaluate_preflight` once the snapshot is there; `evaluated_at` is the caller's clock.
  abbrev pub evaluate_snapshot :
      Station → ProcessSnapshot → List ProcessRule → PreflightPolicy → ℕ → PreflightReport
  evaluate_snapshot station snapshot rules policy evaluated_at =
      if not (snapshot.station_id == station.station_id)
      then single station.station_id block (check block snapshot_station_mismatch evaluated_at)
          evaluated_at
      else (let checks =
            freshness_check snapshot policy evaluated_at
            ∷ drive_check snapshot policy evaluated_at
            ∷ process_check station snapshot rules evaluated_at
            ∷ [] in
          record {
            station_id = station.station_id;
            status = aggregate_status checks;
            checks = checks;
            evaluated_at = evaluated_at;
          })

  abbrev pub evaluate_optional :
      Station → Option ProcessSnapshot → List ProcessRule → PreflightPolicy → ℕ → PreflightReport
  evaluate_optional station none rules policy evaluated_at =
      single station.station_id unknown (check unknown snapshot_missing evaluated_at) evaluated_at
  evaluate_optional station (some snapshot) rules policy evaluated_at =
      evaluate_snapshot station snapshot rules policy evaluated_at

  -- `evaluate_preflight`
  unfoldable pub evaluate_preflight :
      Station → Option ProcessSnapshot → List ProcessRule → PreflightPolicy → ℕ → PreflightReport
  evaluate_preflight station snapshot rules policy evaluated_at =
      if not station.enabled || is_some station.deleted_at
      then single station.station_id block (check block station_disabled evaluated_at) evaluated_at
      else evaluate_optional station snapshot rules policy evaluated_at
