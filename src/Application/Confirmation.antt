-- ===== src/Application/Confirmation.antt =====
-- application/publish_confirmation.py: preflight reports and the operator's confirmation, persisted on
-- the job and its targets. The database changes between the two units of work, since reports are
-- evaluated outside of them: the second unit starts from a database of its own.
pub mod Gate
use true_nas_controller.Common.{
  ℕ, Bool, true, false, not, ◌&&◌, ◌||◌, Option, none, some, List, [], ◌∷◌, ◌++◌, Text, codes,
  text_eq, all, map, keep_if, same_set, if◌then◌else◌,
}
use true_nas_controller.Domain.Preflight.{
  PreflightReport, CheckStatus, pass, block, unknown, warning,
}
use true_nas_controller.Domain.Publish.{
  PublishJob, PublishJobStatus, PublishTarget, draft, preflight, awaiting_confirmation, status_eq,
  transition,
}
use true_nas_controller.Domain.Wizard.{
  WizardGateInput, WizardGateResult, can_advance, evaluate_wizard_gate, confirmation_required,
  get_report,
}
use true_nas_controller.Store.Database.{Database}
use true_nas_controller.Store.Session.{
  Result, ok, err, value_error, key_error, publish_job_not_found, publish_confirmation_state, Tx,
  ◌>>=◌, ◌>>◌, pure, raise_if, or_raise, commit, unit_of_work,
}
use true_nas_controller.Store.Jobs.{get_job, update_job}
use true_nas_controller.Store.Targets.{list_for_job, update_targets}

-- `_validate_status`: the states that accept a preflight.
unfoldable pub accepts_preflight : PublishJobStatus → Bool
accepts_preflight status =
    status_eq status draft || status_eq status preflight || status_eq status awaiting_confirmation

-- `";".join(reasons)`
abbrev pub join_reasons : List Text → Text
join_reasons [] = []
join_reasons (r ∷ []) = r
join_reasons (r ∷ s ∷ rest) = r ++ codes ";" ++ join_reasons (s ∷ rest)

-- `PublishJob.transition` inside a use case: an illegal transition raises `ValueError`.
abbrev pub move_job : PublishJob → PublishJobStatus → Tx PublishJob
move_job job target = or_raise (transition job target) value_error

abbrev move_if : Bool → PublishJob → PublishJobStatus → Tx PublishJob
move_if true job target = move_job job target
move_if false job target = pure job

-- Nothing but the confirmation is missing.
unfoldable pub preflight_ready : WizardGateResult → Bool
preflight_ready gate =
    can_advance gate || all gate.reasons (λ reason. text_eq reason confirmation_required)

-- What `confirmation=None` keeps, and what a given confirmation replaces.
abbrev pub confirmed_value : Option Bool → Option Bool → Option Bool
confirmed_value none old = old
confirmed_value (some b) _ = some b

abbrev pub confirmed_at : Option Bool → Option ℕ → ℕ → Option ℕ
confirmed_at none old now = old
confirmed_at (some _) _ now = some now

-- `_update_job`
unfoldable pub confirm_job : ℕ → WizardGateResult → Option Bool → PublishJob → Tx PublishJob
confirm_job now gate confirmation job = do
  entered ← move_if (status_eq job.status draft) job preflight
  updated ←
      move_if (preflight_ready gate && status_eq entered.status preflight) entered
        awaiting_confirmation
  pure (record updated {
    status_reason = if can_advance gate then none else some (join_reasons gate.reasons);
    client_confirmation = confirmed_value confirmation updated.client_confirmation;
    client_confirmation_at = confirmed_at confirmation updated.client_confirmation_at now;
  })

-- `CheckStatus.value`
abbrev pub status_value : CheckStatus → Text
status_value pass = codes "pass"
status_value block = codes "block"
status_value unknown = codes "unknown"
status_value warning = codes "warning"

abbrev with_report : PublishTarget → PreflightReport → PublishTarget
with_report target report = record target {
  preflight_status = some (status_value report.status);
  preflight_result = some report;
}

-- One `replace(target, …)`; `client_reports[...]` of an absent key raises `KeyError`.
abbrev reported_target : List (ℕ × PreflightReport) → PublishTarget → Tx PublishTarget
reported_target reports target =
    if not target.selected
    then pure (record target { preflight_status = none; preflight_result = none })
    else do
      report ← or_raise (get_report reports target.station_id) key_error
      pure (with_report target report)

unfoldable pub reported_targets :
    List (ℕ × PreflightReport) → List PublishTarget → Tx (List PublishTarget)
reported_targets reports [] = pure []
reported_targets reports (target ∷ targets) = do
  updated ← reported_target reports target
  rest ← reported_targets reports targets
  pure (updated ∷ rest)

abbrev pub selected_ids : List PublishTarget → List ℕ
selected_ids targets =
    map (λ (t : PublishTarget). t.station_id) (keep_if (λ (t : PublishTarget). t.selected) targets)

abbrev pub station_ids : List PublishTarget → List ℕ
station_ids targets = map (λ (t : PublishTarget). t.station_id) targets

pub record PublishPreflightResult : Type 0 where
  pub job : PublishJob
  pub gate : WizardGateResult
  pub admin_report : Option PreflightReport
  pub client_reports : List (ℕ × PreflightReport)

-- The first unit of work: the job and its targets are read.
unfoldable pub load_job : ℕ → Tx (PublishJob × List PublishTarget)
load_job job_id = do
  found ← get_job job_id
  job ← or_raise found publish_job_not_found
  targets ← list_for_job job.id
  pure (job, targets)

-- The second unit of work: the gate's decision and the reports are written.
unfoldable pub persist_preflight :
    ℕ
    → ℕ
    → List PublishTarget
    → List (ℕ × PreflightReport)
    → WizardGateResult
    → Option Bool
    → Tx PublishJob
unfolding confirm_job reported_targets accepts_preflight
persist_preflight now job_id targets client_reports gate confirmation = do
  found ← get_job job_id
  job ← or_raise found publish_job_not_found
  current ← list_for_job job_id
  raise_if (not (same_set (station_ids current) (station_ids targets))) publish_confirmation_state
  raise_if (not (accepts_preflight job.status)) publish_confirmation_state
  updated_targets ← reported_targets client_reports current
  updated ← confirm_job now gate confirmation job
  update_targets updated_targets
  update_job now updated
  commit
  pure updated

abbrev pub gate_input :
    Option PreflightReport
    → List (ℕ × PreflightReport)
    → List PublishTarget
    → Option Bool
    → WizardGateInput
gate_input admin_report client_reports targets confirmation = record {
  admin_report = admin_report;
  client_reports = client_reports;
  selected_station_ids = selected_ids targets;
  confirmation = confirmation;
}

abbrev pub and_then : {A B : Type 0} → Result A → (A → Result B) → Result B
and_then (err e) f = err e
and_then (ok a) f = f a

-- `preflight_query.execute(station_id=…)`: the report on one station, or its exception.
module _ (query : ℕ → Result PreflightReport) where
  -- The comprehension that fills `client_reports`.
  unfoldable pub reports_for : List ℕ → Result (List (ℕ × PreflightReport))
  reports_for [] = ok []
  reports_for (id ∷ ids) =
      and_then (query id)
        (λ report. and_then (reports_for ids) (λ reports. ok ((id, report) ∷ reports)))

  abbrev admin_report_of : Option ℕ → Result (Option PreflightReport)
  admin_report_of none = ok none
  admin_report_of (some id) = and_then (query id) (λ report. ok (some report))

  -- Both reports, the administrator's first.
  abbrev pub reports_of :
      Option ℕ → List PublishTarget → Result (Option PreflightReport × List (ℕ × PreflightReport))
  reports_of admin_station_id targets = and_then (admin_report_of admin_station_id) (λ admin_report.
      and_then (reports_for (selected_ids targets))
        (λ client_reports. ok (admin_report, client_reports)))

abbrev result_of :
    WizardGateResult
    → Option PreflightReport
    → List (ℕ × PreflightReport)
    → Result PublishJob × Database
    → Result PublishPreflightResult × Database
result_of gate admin_report client_reports (err e, db) = (err e, db)
result_of gate admin_report client_reports (ok job, db) = (
  ok (record {
    job = job;
    gate = gate;
    admin_report = admin_report;
    client_reports = client_reports;
  }),
  db,
)

-- After the reports: the gate, then the second unit of work on `later`.
abbrev pub after_reports :
    ℕ
    → ℕ
    → Option Bool
    → List PublishTarget
    → Database
    → Result (Option PreflightReport × List (ℕ × PreflightReport))
    → Result PublishPreflightResult × Database
after_reports now job_id confirmation targets later (err e) = (err e, later)
after_reports now job_id confirmation targets later (ok (admin_report, client_reports)) =
    let gate = evaluate_wizard_gate (gate_input admin_report client_reports targets confirmation) in
    result_of gate admin_report client_reports
      (unit_of_work (persist_preflight now job_id targets client_reports gate confirmation) later)

module _ (query : ℕ → Result PreflightReport) where
  -- After the first unit of work: the status, then the reports.
  abbrev pub after_load :
      ℕ
      → ℕ
      → Option ℕ
      → Option Bool
      → Database
      → Result (PublishJob × List PublishTarget)
      → Result PublishPreflightResult × Database
  after_load now job_id admin_station_id confirmation later (err e) = (err e, later)
  after_load now job_id admin_station_id confirmation later (ok (job, targets)) =
      if not (accepts_preflight job.status)
      then (err publish_confirmation_state, later)
      else after_reports now job_id confirmation targets later
          (reports_of query admin_station_id targets)

  -- `PreparePublishJobUseCase.execute`: `db` is the database of the first unit of work, `later` that
  -- of the second.
  unfoldable pub prepare_publish_job :
      ℕ
      → ℕ
      → Option ℕ
      → Option Bool
      → Database
      → Database
      → Result PublishPreflightResult × Database
  unfolding load_job accepts_preflight
  prepare_publish_job now job_id admin_station_id confirmation db later =
      after_load now job_id admin_station_id confirmation later
        (unit_of_work (load_job job_id) db).0
