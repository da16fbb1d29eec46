-- ===== src/Workflow/Fake/DryRun.antt =====
-- A dry run only reads the mappings (application/publish.py).
use true_nas_controller.Common.{ℕ, ◌≡◌, refl, Bool, true, Option, Text, List, [], ◌∷◌}
use true_nas_controller.Domain.Publish.{PublishJob, PublishTargetResult}
use mathlib.Core.Path.{ap₂}
use true_nas_controller.Workflow.Outcome.{Outcome, Io, ◌>>=◌, call, pure}
use true_nas_controller.Workflow.Fake.{simulated_result, StorageAdapter, simulate, dry_run, execute}

module _ {World : Type 0} (adapter other : StorageAdapter World)
    (same : adapter.read_mapping ≡ other.read_mapping) where
  simulate_same :
      (job_id : ℕ) (ids : List ℕ) → simulate adapter job_id ids ≡ simulate other job_id ids
  unfolding simulate
  simulate_same job_id [] = refl
  simulate_same job_id (id ∷ ids) =
      ap₂
        (λ (read : ℕ → World → Outcome (Option Text) × World)
            (later : Io World (List PublishTargetResult)).
          call (read id) >>= λ old_mapping.
          later >>= λ rest. pure (simulated_result job_id id old_mapping ∷ rest))
        same (simulate_same job_id ids)

  dry_run_same : (job : PublishJob) (ids : List ℕ) → dry_run adapter job ids ≡ dry_run other job ids
  unfolding dry_run
  dry_run_same job ids = simp (simulate_same job.id ids)

  -- Two adapters that read the mappings alike give the same dry run: its result and the world that it
  -- leaves do not depend on the operations that write.
  pub adapter_dry_run :
      (job : PublishJob) (ids : List ℕ) (confirmed : Bool) (w : World)
      → job.dry_run ≡ true
      → execute adapter job ids confirmed w ≡ execute other job ids confirmed w
  unfolding execute
  adapter_dry_run job ids confirmed w h = simp (h, dry_run_same)
