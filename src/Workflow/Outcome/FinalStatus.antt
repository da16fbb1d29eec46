-- ===== src/Workflow/Outcome/FinalStatus.antt =====
-- What the final state of a job says of its stations (application/publish.py and
-- application/truenas_publish.py).
use true_nas_controller.Common.{
  ◌≤◌, ◌≡◌, ◌≢◌, refl, ◌↔◌, true, false, some, List, [], ◌∷◌, arith, All, length,
}
use true_nas_controller.Domain.Publish.{
  PublishJob, PublishJobStatus, PublishTargetResult, completed, failed, partial_failure, transition,
}
use true_nas_controller.Workflow.Outcome.{is_verified, verified_count, final_status}

count-le : (rs : List PublishTargetResult) → verified_count rs ≤ length rs
count-le [] = omega arith
count-le (r ∷ rs) = ground (arith, count-le rs)

All-iff :
    (rs : List PublishTargetResult)
    → (verified_count rs ≡ length rs)
      ↔ All (λ (r : PublishTargetResult). is_verified r.status ≡ true) rs
All-iff [] = (λ h. tt, λ h. refl)
All-iff (r ∷ rs) = (
  λ h. (ground (arith, count-le rs), (All-iff rs).0 (ground (arith, count-le rs))),
  λ h. ground (arith, h.0, (All-iff rs).1 h.1),
)

none_iff :
    (rs : List PublishTargetResult)
    → (verified_count rs ≡ 0) ↔ All (λ (r : PublishTargetResult). is_verified r.status ≡ false) rs
none_iff [] = (λ h. tt, λ h. refl)
none_iff (r ∷ rs) = (
  λ h. (ground arith, (none_iff rs).0 (ground arith)),
  λ h. ground (arith, h.0, (none_iff rs).1 h.1),
)

-- With at least one station, a job is completed exactly when every station is verified, failed exactly
-- when none is, and a partial failure in every other case.
pub final_status_iff :
    (r : PublishTargetResult) (rs : List PublishTargetResult)
    → ((final_status (r ∷ rs) ≡ completed)
        ↔ All (λ (t : PublishTargetResult). is_verified t.status ≡ true) (r ∷ rs))
      × ((final_status (r ∷ rs) ≡ failed)
          ↔ All (λ (t : PublishTargetResult). is_verified t.status ≡ false) (r ∷ rs))
      × ((final_status (r ∷ rs) ≡ partial_failure)
          ↔ ((final_status (r ∷ rs) ≢ completed) × (final_status (r ∷ rs) ≢ failed)))
unfolding final_status
final_status_iff r rs =
    let every = All-iff (r ∷ rs) in
    let no_one = none_iff (r ∷ rs) in
    let bound = count-le (r ∷ rs) in
    (
      (λ h. every.0 (ground arith), λ h. ground (arith, every.1 h)),
      (λ h. no_one.0 (ground arith), λ h. ground (arith, no_one.1 h)),
      (λ h. (λ a. ground arith, λ b. ground arith), λ h. ground (arith, h.0, h.1)),
    )

pub final_status_cases :
    (rs : List PublishTargetResult) (job : PublishJob)
    → job.status ≡ PublishJobStatus.verifying
    → transition job (final_status rs) ≡ some (record job { status = final_status rs })
unfolding final_status transition
final_status_cases rs job h = ground arith
