-- ===== src/Adapter/FakeStorage/Runs.antt =====
-- Runs of the workflow over the storage in memory (truenas_adapter/mock_client.py,
-- application/publish.py).
use true_nas_controller.Common.{
  ℕ, ◌≡◌, refl, true, false, ◌||◌, Option, none, some, List, ◌∷◌, Text, parse_uuid, lookup, elem,
  Bool-cases, Option-cases, inl, inr,
}
use true_nas_controller.Domain.Publish.{PublishJob, draft, publishing, status_eq}
use true_nas_controller.Workflow.Outcome.{returned}
use true_nas_controller.Workflow.Outcome.Returns.{is_done}
use true_nas_controller.Workflow.Fake.{PublishWorkflowResult, execute}
use true_nas_controller.Workflow.Fake.Reports.{IsReport}
use true_nas_controller.Workflow.Fake.Returns.{Answers, execute-returns, is_unknown}
use true_nas_controller.Adapter.FakeStorage.{
  FakeStorage, fake_storage, fake_create_master, fake_read_mapping, fake_create_clone, after_colon,
  cloned, clone_of, clone_at,
}

masters_done :
    (id : ℕ) (label : Text) (w : FakeStorage) → is_done (fake_create_master id label w).0 ≡ true
unfolding fake_create_master
masters_done id label w = elim (Option-cases (lookup id w.masters)) [
  | inl e ↦ rw (is_done, e) refl
  | inr (master, e) ↦ rw (is_done, e) refl
]

clone_of_known : (job_id id : ℕ) (w : FakeStorage) → is_unknown (clone_of job_id id w).0 ≡ false
clone_of_known job_id id w = elim (Option-cases (clone_at job_id id w.clones)) [
  | inl e ↦ rw (is_unknown, e) refl
  | inr (clone, e) ↦ rw (is_unknown, e) refl
]

clones_known : (o : Option Text) (id : ℕ) (w : FakeStorage) → is_unknown (cloned o id w).0 ≡ false
clones_known none id w = refl
clones_known (some name) id w = elim (Option-cases (parse_uuid name)) [
  | inl e ↦ rw (is_unknown, e) refl
  | inr (job_id, e) ↦ rw (is_unknown, e) (clone_of_known job_id id w)
]

fake-Answers : Answers fake_storage
unfolding fake_storage fake_read_mapping fake_create_clone
fake-Answers = record {
  masters = masters_done;
  mappings = λ id w. refl;
  clones = λ m id w. elim (Bool-cases (elem id w.fail_clone_for)) [
    | inl e ↦ rw e refl
    | inr e ↦ rw e (clones_known (after_colon m) id _)
  ];
}

-- Over the storage in memory, with any failures injected into it, a confirmed run that writes returns a
-- report on its stations, for a job in draft or publishing and one station at least.
pub fake_run-returns :
    (job : PublishJob) (id : ℕ) (ids : List ℕ) (w : FakeStorage)
    → job.dry_run ≡ false
    → (status_eq job.status draft || status_eq job.status publishing) ≡ true
    → (r : PublishWorkflowResult) × ((execute fake_storage job (id ∷ ids) true w).0 ≡ returned r)
      × IsReport job (id ∷ ids) r
fake_run-returns job id ids w h k = execute-returns fake_storage fake-Answers job id ids w h k
