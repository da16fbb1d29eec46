-- ===== src/Domain/Wizard.antt =====
-- domain/wizard.py: the gate in front of a publish job.
pub mod Gate
use true_nas_controller.Common.{
  ℕ, Bool, true, false, not, Option, none, some, List, [], ◌∷◌, ◌++◌, Text, codes, uuid_text,
  is_empty, ◌==◌, if◌then◌else◌,
}
use true_nas_controller.Domain.Preflight.{PreflightReport, can_publish}

pub data WizardGateStatus : Type 0 where
  ready blocked : WizardGateStatus

-- `client_reports` is a dictionary on station ids.
pub record WizardGateInput : Type 0 where
  pub admin_report : Option PreflightReport
  pub client_reports : List (ℕ × PreflightReport)
  pub selected_station_ids : List ℕ
  pub confirmation : Option Bool

pub record WizardGateResult : Type 0 where
  pub status : WizardGateStatus
  pub selected_station_ids : List ℕ
  pub reasons : List Text

-- `WizardGateResult.can_advance`
abbrev pub is_ready : WizardGateStatus → Bool
is_ready ready = true
is_ready blocked = false

abbrev pub can_advance : WizardGateResult → Bool
can_advance result = is_ready result.status

abbrev pub is_true : Option Bool → Bool
is_true none = false
is_true (some b) = b

-- `client_reports.get(station_id)`
abbrev pub get_report : List (ℕ × PreflightReport) → ℕ → Option PreflightReport
get_report [] station_id = none
get_report ((k, report) ∷ reports) station_id =
    let rest = get_report reports station_id in if k == station_id then some report else rest

abbrev pub admin_blocked : Text
admin_blocked = codes "admin_preflight_blocked"

abbrev pub confirmation_required : Text
confirmation_required = codes "operator_confirmation_required"

abbrev pub selection_required : Text
selection_required = codes "station_selection_required"

abbrev pub admin_reasons : Option PreflightReport → List Text
admin_reasons none = []
admin_reasons (some report) = if not (can_publish report) then admin_blocked ∷ [] else []

abbrev pub report_reasons : ℕ → Option PreflightReport → List Text
report_reasons station_id none = (codes "missing_preflight:" ++ uuid_text station_id) ∷ []
report_reasons station_id (some report) =
    if not (can_publish report)
    then (codes "client_preflight_blocked:" ++ uuid_text station_id) ∷ []
    else []

abbrev pub station_reasons : List (ℕ × PreflightReport) → List ℕ → List Text
station_reasons reports [] = []
station_reasons reports (station_id ∷ ids) =
    report_reasons station_id (get_report reports station_id) ++ station_reasons reports ids

-- The reasons in the order in which the code appends them.
unfoldable pub gate_reasons : WizardGateInput → List Text
gate_reasons input =
    admin_reasons input.admin_report
    ++ ((if not (is_true input.confirmation) then confirmation_required ∷ [] else [])
        ++ ((if is_empty input.selected_station_ids then selection_required ∷ [] else [])
            ++ station_reasons input.client_reports input.selected_station_ids))

-- `evaluate_wizard_gate`
unfoldable pub evaluate_wizard_gate : WizardGateInput → WizardGateResult
unfolding gate_reasons
evaluate_wizard_gate input =
    let reasons = gate_reasons input in
    record {
      status = if is_empty reasons then ready else blocked;
      selected_station_ids = input.selected_station_ids;
      reasons = reasons;
    }
