-- ===== src/Workflow/Outcome/Returns.antt =====
-- Runs that return (application/publish.py).
use true_nas_controller.Common.{◌≡◌, refl, Bool, true, false, Option, none, some, ◌||◌}
use true_nas_controller.Domain.Publish.{
  PublishJob, PublishJobStatus, draft, preflight, awaiting_confirmation, publishing, switching,
  verifying, completed, partial_failure, failed, status_eq, transition,
}
use true_nas_controller.Workflow.Outcome.{
  Outcome, done, WorkflowError, illegal_transition, Run, returned, raised, Io, ◌>>=◌, uncaught,
  or_raise, call, move, enter_publishing,
}
use true_nas_controller.Workflow.Outcome.Ensures.{Ensures}

abbrev pub returns : {A : Type 0} → Run A → Bool
returns (returned a) = true
returns (raised e) = false

abbrev pub is_done : {A : Type 0} → Outcome A → Bool
is_done (done a) = true
is_done _ = false

-- What holds of whatever a run returns holds of the value that it does return.
pub returned_value :
    {A : Type 0} (P : A → Type 0) (r : Run A)
    → returns r ≡ true
    → Ensures P r
    → (a : A) × (r ≡ returned a) × P a
returned_value P (returned a) h p = (a, refl, p)
returned_value P (raised e) h p = absurd cc

module _ {World : Type 0} where
  after :
      {A B : Type 0} (P : A → Type 0) (first : Run A × World) (later : A → Io World B) (w : World)
      → returns first.0 ≡ true
      → Ensures P first.0
      → ((a : A) (w' : World) → P a → returns (later a w').0 ≡ true)
      → returns (((λ _. first) >>= later) w).0 ≡ true
  after P (returned a, w') later w h p q = q a w' p
  after P (raised e, w') later w h p q = h

  pub returns->>= :
      {A B : Type 0} (P : A → Type 0) (first : Io World A) (later : A → Io World B) (w : World)
      → returns (first w).0 ≡ true
      → Ensures P (first w).0
      → ((a : A) (w' : World) → P a → returns (later a w').0 ≡ true)
      → returns ((first >>= later) w).0 ≡ true
  returns->>= P first later w = after P (first w) later w

  pub returns-or_raise :
      {A : Type 0} (o : Option A) (a : A) (e : WorkflowError) (w : World)
      → o ≡ some a
      → returns (or_raise o e w).0 ≡ true
  returns-or_raise none a e w h = absurd cc
  returns-or_raise (some b) a e w h = refl

  pub returns-move :
      (job : PublishJob) (s : PublishJobStatus) (w : World)
      → transition job s ≡ some (record job { status = s })
      → returns (move job s w).0 ≡ true
  returns-move job s w h =
      returns-or_raise (transition job s) (record job { status = s }) illegal_transition w h

  entered :
      (job : PublishJob) (s : PublishJobStatus) (w : World)
      → (status_eq s draft || status_eq s publishing) ≡ true
      → returns (enter_publishing (record job { status = s }) w).0 ≡ true
  unfolding enter_publishing transition
  entered job draft w h = refl
  entered job preflight w h = h
  entered job awaiting_confirmation w h = h
  entered job publishing w h = refl
  entered job switching w h = h
  entered job verifying w h = h
  entered job completed w h = h
  entered job partial_failure w h = h
  entered job failed w h = h

  pub returns-enter :
      (job : PublishJob) (w : World)
      → (status_eq job.status draft || status_eq job.status publishing) ≡ true
      → returns (enter_publishing job w).0 ≡ true
  returns-enter job w h = entered job job.status w h

uncaught-done : {A : Type 0} (o : Outcome A) → is_done o ≡ true → returns (uncaught o) ≡ true
uncaught-done (done a) h = refl
uncaught-done (Outcome.unknown m) h = h
uncaught-done (Outcome.failed c m) h = h

pub returns-call :
    {World A : Type 0} (f : World → Outcome A × World) (w : World)
    → is_done (f w).0 ≡ true
    → returns (call f w).0 ≡ true
returns-call f w h = uncaught-done (f w).0 h
