-- ===== src/Tests/Runs.antt =====
-- Runs of the two publish workflows.
use true_nas_controller.Common.{true, false, none, [], ◌∷◌, ◌≡◌, refl, codes}
use true_nas_controller.Domain.Publish.{draft, completed, transition}
use true_nas_controller.Workflow.Outcome.{
  returned, raised, unbound_local, enter_publishing, final_status,
}
use true_nas_controller.Workflow.Outcome.Ensures.{Ensures}
use true_nas_controller.Workflow.Fake
use true_nas_controller.Workflow.Fake.{switch_stations, switch_station, verify_pending, collect}
use true_nas_controller.Workflow.Fake.Reports.{IsReport, execute-IsReport}
use true_nas_controller.Workflow.Fake.{PublishWorkflowResult}
use true_nas_controller.Workflow.Fake.Returns.{execute-returns}
use true_nas_controller.Workflow.Fake.DryRun.{adapter_dry_run}
use true_nas_controller.Workflow.TrueNas
use true_nas_controller.Workflow.TrueNas.Reports.{execute_reports}
use true_nas_controller.Workflow.TrueNas.DryRun.{dry_run_reads_only}
use true_nas_controller.Workflow.TrueNas.Switch.{apply_station}
use true_nas_controller.Workflow.TrueNas.Switch.Safety.{Truthful, apply_station-Truthful}
use true_nas_controller.Tests.Data.{station_a, job_in}
use true_nas_controller.Tests.Storage.{
  nas_a, reads_a, writes_a, writes_none, laws_a, plan_a, answers_a, adapter_a, adapter_unknown,
}

apply_station-Truthful_example :
    Truthful reads_a writes_a
      (λ w. w.extents)
      (λ w. w.associations)
      laws_a
      plan_a
      nas_a
      (apply_station reads_a writes_a (codes "tank/master@s") plan_a nas_a)
apply_station-Truthful_example =
    apply_station-Truthful reads_a writes_a (λ w. w.extents) (λ w. w.associations) laws_a plan_a
      (codes "tank/master@s") nas_a

execute_reports_example :
    Ensures
      (IsReport (job_in draft false none) (21 ∷ []))
      (TrueNas.execute reads_a writes_a (job_in draft false none) (station_a ∷ []) true nas_a).0
execute_reports_example =
    execute_reports reads_a writes_a (job_in draft false none) (station_a ∷ []) true nas_a refl

execute-IsReport_example :
    Ensures
      (IsReport (job_in draft false none) (21 ∷ 22 ∷ []))
      (Fake.execute adapter_a (job_in draft false none) (21 ∷ 22 ∷ []) true (codes "old")).0
execute-IsReport_example =
    execute-IsReport adapter_a (job_in draft false none) (21 ∷ 22 ∷ []) true (codes "old") refl

execute-returns_example :
    (r : PublishWorkflowResult) × ((Fake.execute adapter_a
        (job_in draft false none)
        (21 ∷ 22 ∷ [])
        true
        (codes "old")).0
      ≡ returned r)
    × IsReport (job_in draft false none) (21 ∷ 22 ∷ []) r
execute-returns_example =
    execute-returns adapter_a answers_a (job_in draft false none) 21 (22 ∷ []) (codes "old") refl
      refl

dry_run_reads_only_example :
    TrueNas.execute reads_a writes_a (job_in draft true none) (station_a ∷ []) true nas_a
    ≡ TrueNas.execute reads_a writes_none (job_in draft true none) (station_a ∷ []) true nas_a
dry_run_reads_only_example =
    dry_run_reads_only reads_a writes_a writes_none (job_in draft true none) (station_a ∷ []) true
      nas_a refl

adapter_dry_run_example :
    Fake.execute adapter_a (job_in draft true none) (21 ∷ []) true (codes "old")
    ≡ Fake.execute adapter_unknown (job_in draft true none) (21 ∷ []) true (codes "old")
adapter_dry_run_example =
    adapter_dry_run adapter_a adapter_unknown refl (job_in draft true none) (21 ∷ []) true
      (codes "old") refl

-- A run over the whole of the workflow: both stations are switched, and the job is completed.
completed_run :
    Ensures
      (λ r. r.job.status ≡ completed)
      (Fake.execute adapter_a (job_in draft false none) (21 ∷ 22 ∷ []) true (codes "old")).0
unfolding Fake.execute enter_publishing transition switch_stations switch_station verify_pending
    collect final_status
completed_run = refl

-- When the outcome of the first clone is unknown, the handler reads a variable that has no value yet.
unbound_run :
    (Fake.execute adapter_unknown (job_in draft false none) (21 ∷ []) true (codes "old")).0
    ≡ raised unbound_local
unfolding Fake.execute enter_publishing transition switch_stations switch_station
unbound_run = refl
