-- ===== src/Workflow/TrueNas/DryRun.antt =====
-- A dry run makes no write (application/truenas_publish.py).
use true_nas_controller.Common.{◌≡◌, Bool, true, List}
use true_nas_controller.Domain.Station.{Station}
use true_nas_controller.Domain.Publish.{PublishJob}
use true_nas_controller.Workflow.TrueNas.Plan.{ReadClient, WriteClient}
use true_nas_controller.Workflow.TrueNas.{execute}

module _ {World : Type 0} where
  -- The result of a dry run, and the world that it leaves, do not depend on the client that writes: none
  -- of its operations is called.
  pub dry_run_reads_only :
      (reads : ReadClient World) (writes other : WriteClient World) (job : PublishJob)
      (stations : List Station) (confirmed : Bool) (w : World)
      → job.dry_run ≡ true
      → execute reads writes job stations confirmed w ≡ execute reads other job stations confirmed w
  unfolding execute
  dry_run_reads_only reads writes other job stations confirmed w h = simp h
