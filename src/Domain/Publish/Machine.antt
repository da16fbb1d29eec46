-- ===== src/Domain/Publish/Machine.antt =====
-- The life of a publish job under `PublishJob.transition` (domain/publish.py).
use true_nas_controller.Common.{
  ℕ, ◌+◌, ◌≤◌, ◌<◌, ◌≡◌, Bool, true, false, inl, inr, Option, none, some, List, [], ◌∷◌, arith, any,
  length, Option-cases,
}
use true_nas_controller.Domain.Publish.{
  PublishJob, PublishJobStatus, draft, preflight, awaiting_confirmation, publishing, switching,
  verifying, completed, partial_failure, failed, status_eq, transition,
}

-- How far a job has come; the three final states are the same distance.
abbrev pub stage : PublishJobStatus → ℕ
stage draft = 0
stage preflight = 1
stage awaiting_confirmation = 2
stage publishing = 3
stage switching = 4
stage verifying = 5
stage completed = 6
stage partial_failure = 6
stage failed = 6

abbrev pub is_final : PublishJobStatus → Bool
is_final completed = true
is_final partial_failure = true
is_final failed = true
is_final _ = false

pub status_eq_sound : (a b : PublishJobStatus) → status_eq a b ≡ true → a ≡ b
status_eq_sound a b h = ground arith

-- An accepted transition moves forward and changes nothing but the status.
pub transition_forward :
    (job : PublishJob) (target : PublishJobStatus) (j : PublishJob)
    → transition job target ≡ some j
    → (stage job.status < stage target) × (j ≡ record job { status = target })
unfolding transition
transition_forward job target j h = ground arith

pub transition_of_is_final :
    (job : PublishJob) (target : PublishJobStatus)
    → is_final job.status ≡ true
    → transition job target ≡ none
unfolding transition
transition_of_is_final job target h = ground arith

-- A sequence of transitions; `none` when one of them is illegal.
unfoldable pub run_transitions : List PublishJobStatus → PublishJob → Option PublishJob
run_transitions [] job = some job
run_transitions (target ∷ targets) job = elim (transition job target) [
  | none ↦ none
  | some j ↦ run_transitions targets j
]

-- Every transition that is made costs at least one stage.
run_stage :
    (targets : List PublishJobStatus) (job j : PublishJob)
    → run_transitions targets job ≡ some j
    → stage job.status + length targets ≤ stage j.status
unfolding run_transitions
run_stage [] job j h = ground arith
run_stage (t ∷ ts) job j h = elim (Option-cases (transition job t)) [
  | inl e ↦ ground arith
  | inr (k, e) ↦ ground (arith, transition_forward job t k, run_stage ts k j)
]

stage_le : (s : PublishJobStatus) → stage s ≤ 6
stage_le s = ground arith

-- From any state a job makes at most six transitions less its stage, whatever is asked of it: the
-- machine has no cycle.
pub run_bounded :
    (targets : List PublishJobStatus) (job j : PublishJob)
    → run_transitions targets job ≡ some j
    → stage job.status + length targets ≤ 6
run_bounded targets job j h = omega (arith, run_stage targets job j h, stage_le j.status)

-- A finished job refuses every further transition.
pub run_final :
    (job : PublishJob) (t : PublishJobStatus) (ts : List PublishJobStatus)
    → is_final job.status ≡ true
    → run_transitions (t ∷ ts) job ≡ none
unfolding run_transitions
run_final job t ts h = ground (arith, transition_of_is_final job t h)

abbrev pub visits : PublishJobStatus → List PublishJobStatus → Bool
visits s ts = any ts (λ t. status_eq s t)

-- The stages up to `publishing` have one way through.
transition_early :
    (job : PublishJob) (t : PublishJobStatus) (j : PublishJob)
    → transition job t ≡ some j
    → stage job.status < 3
    → stage t ≡ stage job.status + 1
unfolding transition
transition_early job t j h small = ground arith

stage_injective : (s t : PublishJobStatus) → stage s ≤ 3 → stage s ≡ stage t → s ≡ t
stage_injective s t h e = ground arith

status_eq_self : (s : PublishJobStatus) → status_eq s s ≡ true
status_eq_self s = ground arith

run_visits :
    (s : PublishJobStatus) (ts : List PublishJobStatus) (job j : PublishJob)
    → run_transitions ts job ≡ some j
    → stage s ≤ 3
    → stage job.status < stage s
    → stage s ≤ stage j.status
    → visits s ts ≡ true
unfolding run_transitions
run_visits s [] job j h early below above = ground arith
run_visits s (t ∷ ts) job j h early below above = elim (Option-cases (transition job t)) [
  | inl e ↦ ground arith
  | inr (k, e) ↦ ground (
    arith,
    transition_forward job t k,
    transition_early job t k,
    stage_injective s t,
    status_eq_self s,
    run_visits s ts k j,
  )
]

-- A job that has not yet reached `awaiting_confirmation` and ends beyond `publishing` has waited for
-- the confirmation and has been published in between.
pub run_confirmed :
    (ts : List PublishJobStatus) (job j : PublishJob)
    → run_transitions ts job ≡ some j
    → stage job.status < 2
    → 3 < stage j.status
    → (visits awaiting_confirmation ts ≡ true) × (visits publishing ts ≡ true)
run_confirmed ts job j h before after = (
  run_visits awaiting_confirmation ts job j h (omega arith) (omega arith) (omega arith),
  run_visits publishing ts job j h (omega arith) (omega arith) (omega arith),
)
