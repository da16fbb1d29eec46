-- ===== src/Application/Confirmation/Gate.antt =====
-- When a prepared job comes to wait for its confirmation (application/publish_confirmation.py,
-- domain/wizard.py).
use true_nas_controller.Common.{
  ℕ, ◌≡◌, ◌↔◌, ◌⊎◌, inl, inr, Bool, true, Option, arith, is_empty, none, some, ◌||◌, if◌then◌else◌,
  Bool-cases,
}
use true_nas_controller.Domain.Publish.{
  PublishJob, preflight, awaiting_confirmation, status_eq, transition,
}
use true_nas_controller.Domain.Wizard.{
  WizardGateInput, WizardGateResult, evaluate_wizard_gate, can_advance, gate_reasons,
}
use true_nas_controller.Domain.Wizard.Gate.{
  IsPrepared, other_iff, other_reasons, reasons_forgiven, ready_of, reasons_empty,
}
use true_nas_controller.Store.Session.{Session, ok}
use true_nas_controller.Application.Confirmation.{
  preflight_ready, confirm_job, join_reasons, confirmed_value, confirmed_at, accepts_preflight,
}

preflight_ready-other :
    (input : WizardGateInput) → preflight_ready (evaluate_wizard_gate input) ≡ other_reasons input
unfolding preflight_ready evaluate_wizard_gate
preflight_ready-other input =
    rw (ready_of (is_empty (gate_reasons input)))
      (rw (reasons_empty input) (rw (reasons_forgiven input) (ground arith)))

abbrev waits : WizardGateResult → PublishJob → Bool
waits gate job = status_eq job.status awaiting_confirmation || preflight_ready gate

-- The job that `_update_job` returns.
abbrev confirmed_job : ℕ → WizardGateResult → Option Bool → PublishJob → PublishJob
confirmed_job now gate confirmation job = record job {
  status = if waits gate job then awaiting_confirmation else preflight;
  status_reason = if can_advance gate then none else some (join_reasons gate.reasons);
  client_confirmation = confirmed_value confirmation job.client_confirmation;
  client_confirmation_at = confirmed_at confirmation job.client_confirmation_at now;
}

confirm_job_lem :
    (now : ℕ) (gate : WizardGateResult) (confirmation : Option Bool) (job : PublishJob)
    (s : Session)
    → accepts_preflight job.status ≡ true
    → confirm_job now gate confirmation job s ≡ (ok (confirmed_job now gate confirmation job), s)
unfolding confirm_job accepts_preflight transition
confirm_job_lem now gate confirmation job s h = ground arith

-- A job that a preflight may be made for, confirmed against the gate's decision, is saved, and comes to
-- wait for its confirmation exactly when it did so before or when nothing but the operator's confirmation
-- is missing; otherwise it stays in preflight.
pub confirm_job_waits :
    (now : ℕ) (input : WizardGateInput) (confirmation : Option Bool) (job : PublishJob)
    (s : Session)
    → accepts_preflight job.status ≡ true
    → (j : PublishJob) × (confirm_job now (evaluate_wizard_gate input) confirmation job s
        ≡ (ok j, s))
      × ((j.status ≡ awaiting_confirmation)
          ↔ ((job.status ≡ awaiting_confirmation) ⊎ IsPrepared input))
      × ((j.status ≡ awaiting_confirmation) ⊎ (j.status ≡ preflight))
confirm_job_waits now input confirmation job s h =
    let gate = evaluate_wizard_gate input in
    let other = preflight_ready-other input in
    let prepared = other_iff input in
    (
      confirmed_job now gate confirmation job,
      confirm_job_lem now gate confirmation job s h,
      (
        λ e. elim (Bool-cases (preflight_ready gate)) [
          | inl r ↦ inr (prepared.0 (ground arith))
          | inr r ↦ inl (ground arith)
        ],
        λ c. elim c [ inl w ↦ ground arith | inr r ↦ ground (arith, prepared.1 r) ],
      ),
      elim (Bool-cases (waits gate job)) [
        | inl e ↦ inl (ground arith)
        | inr e ↦ inr (ground arith)
      ],
    )
