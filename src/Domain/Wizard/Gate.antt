-- ===== src/Domain/Wizard/Gate.antt =====
-- When the wizard gate opens (domain/wizard.py).
use true_nas_controller.Common.{
  ℕ, ◌≡◌, ◌≢◌, refl, ◌↔◌, Bool, true, false, not, ◌&&◌, Option, none, some, List, [], ◌∷◌, ◌++◌,
  arith, All, Text, is_empty, text_eq, all, if◌then◌else◌, Bool-cases, inl, inr,
}
use true_nas_controller.Domain.Preflight.{PreflightReport, can_publish}
use true_nas_controller.Domain.Wizard.{
  WizardGateInput, ready, blocked, is_ready, can_advance, is_true, get_report, admin_reasons,
  report_reasons, station_reasons, gate_reasons, confirmation_required, evaluate_wizard_gate,
}

-- A report, if it is there, lets its station publish.
abbrev pub Absolves : Option PreflightReport → Type 0
Absolves none = Unit
Absolves (some report) = can_publish report ≡ true

-- There is a report, and it lets its station publish.
abbrev pub Vouches : Option PreflightReport → Type 0
Vouches none = ⊥
Vouches (some report) = can_publish report ≡ true

-- What the wizard asks for apart from the operator's confirmation.
pub record IsPrepared (input : WizardGateInput) : Type 0 where
  pub admin : Absolves input.admin_report
  pub some_station : input.selected_station_ids ≢ []
  pub stations : All (λ id. Vouches (get_report input.client_reports id)) input.selected_station_ids

admin_iff : (r : Option PreflightReport) → (admin_reasons r ≡ []) ↔ Absolves r
admin_iff none = (λ h. tt, λ h. refl)
admin_iff (some report) = (λ h. ground arith, λ h. ground arith)

report_iff : (id : ℕ) (r : Option PreflightReport) → (report_reasons id r ≡ []) ↔ Vouches r
report_iff id none = (λ h. cc, λ h. absurd h)
report_iff id (some report) = (λ h. ground arith, λ h. ground arith)

append_nil : {A : Type 0} (xs ys : List A) → (xs ++ ys ≡ []) ↔ ((xs ≡ []) × (ys ≡ []))
append_nil [] ys = (λ h. (refl, h), λ h. h.1)
append_nil (x ∷ xs) ys = (λ h. cc, λ h. cc)

stations_iff :
    (reports : List (ℕ × PreflightReport)) (ids : List ℕ)
    → (station_reasons reports ids ≡ []) ↔ All (λ id. Vouches (get_report reports id)) ids
stations_iff reports [] = (λ h. tt, λ h. refl)
stations_iff reports (id ∷ ids) =
    let split =
      append_nil (report_reasons id (get_report reports id)) (station_reasons reports ids) in
    let one = report_iff id (get_report reports id) in
    let rest = stations_iff reports ids in
    (λ h. (one.0 (split.0 h).0, rest.0 (split.0 h).1), λ h. split.1 (one.1 h.0, rest.1 h.1))

nil_iff_is_empty : {A : Type 0} (xs : List A) → (is_empty xs ≡ true) ↔ (xs ≡ [])
nil_iff_is_empty [] = (λ h. refl, λ h. refl)
nil_iff_is_empty (x ∷ xs) = (λ h. cc, λ h. cc)

pub ready_of : (b : Bool) → is_ready (if b then ready else blocked) ≡ b
ready_of true = refl
ready_of false = refl

-- Whether a reason is the one that `_update_job` forgives.
abbrev pub forgiven : Text → Bool
forgiven reason = text_eq reason confirmation_required

all-append :
    {A : Type 0} (p : A → Bool) (xs ys : List A) → all (xs ++ ys) p ≡ (all xs p && all ys p)
all-append p [] ys = refl
all-append p (x ∷ xs) ys = ground (arith, all-append p xs ys)

admin_unforgiven :
    (r : Option PreflightReport) → all (admin_reasons r) forgiven ≡ is_empty (admin_reasons r)
admin_unforgiven none = refl
admin_unforgiven (some report) = ground arith

report_unforgiven :
    (id : ℕ) (r : Option PreflightReport)
    → all (report_reasons id r) forgiven ≡ is_empty (report_reasons id r)
report_unforgiven id none = refl
report_unforgiven id (some report) = ground arith

is_empty-append : {A : Type 0} (xs ys : List A) → is_empty (xs ++ ys) ≡ (is_empty xs && is_empty ys)
is_empty-append [] ys = refl
is_empty-append (x ∷ xs) ys = refl

stations_unforgiven :
    (reports : List (ℕ × PreflightReport)) (ids : List ℕ)
    → all (station_reasons reports ids) forgiven ≡ is_empty (station_reasons reports ids)
stations_unforgiven reports [] = refl
stations_unforgiven reports (id ∷ ids) = rw (
  all-append forgiven (report_reasons id (get_report reports id)) (station_reasons reports ids),
  is_empty-append (report_reasons id (get_report reports id)) (station_reasons reports ids),
  report_unforgiven id (get_report reports id),
  stations_unforgiven reports ids,
)

-- The reasons, but for the operator's confirmation.
abbrev pub other_reasons : WizardGateInput → Bool
other_reasons input =
    is_empty (admin_reasons input.admin_report)
    && not (is_empty input.selected_station_ids)
    && is_empty (station_reasons input.client_reports input.selected_station_ids)

pub reasons_empty :
    (input : WizardGateInput)
    → is_empty (gate_reasons input) ≡ (other_reasons input && is_true input.confirmation)
unfolding gate_reasons
reasons_empty input = simp is_empty-append (ground arith)

pub reasons_forgiven :
    (input : WizardGateInput) → all (gate_reasons input) forgiven ≡ other_reasons input
unfolding gate_reasons
reasons_forgiven input = simp (all-append, admin_unforgiven, stations_unforgiven) (ground arith)

pub other_iff : (input : WizardGateInput) → (other_reasons input ≡ true) ↔ IsPrepared input
other_iff input =
    let admin = admin_iff input.admin_report in
    let no_admin = nil_iff_is_empty (admin_reasons input.admin_report) in
    let stations = stations_iff input.client_reports input.selected_station_ids in
    let no_station =
      nil_iff_is_empty (station_reasons input.client_reports input.selected_station_ids) in
    let none_selected = nil_iff_is_empty input.selected_station_ids in
    (
      λ h. record {
        admin = admin.0 (no_admin.0 (ground arith));
        some_station = λ e. ground (arith, none_selected.1 e);
        stations = stations.0 (no_station.0 (ground arith));
      },
      λ r. elim (Bool-cases (is_empty input.selected_station_ids)) [
        | inl e ↦ absurd (r.some_station (none_selected.0 e))
        | inr e ↦ ground (arith, no_admin.1 (admin.1 r.admin), no_station.1 (stations.1 r.stations))
      ],
    )

-- The gate opens exactly when the operator has confirmed, a station is selected, and every report that it
-- needs is there and lets its station publish, the administrator's only if one was asked for.
pub can_advance_iff :
    (input : WizardGateInput)
    → (can_advance (evaluate_wizard_gate input) ≡ true)
      ↔ (IsPrepared input × (input.confirmation ≡ some true))
unfolding evaluate_wizard_gate
can_advance_iff input =
    let other = other_iff input in
    rw (ready_of (is_empty (gate_reasons input))) (
      rw (reasons_empty input)
        (λ h. (other.0 (ground arith), ground arith), λ h. ground (arith, other.1 h.0)))
