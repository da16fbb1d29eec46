-- ===== src/Workflow/Outcome.antt =====
-- Calls of external storage. A call takes the state of the world and returns an outcome with the new
-- state; the world is a parameter of the workflows.
pub mod FinalStatus
pub mod Ensures
pub mod Returns
use true_nas_controller.Common.{
  ℕ, suc, Bool, true, false, Option, none, some, List, [], ◌∷◌, Text, length, ◌==◌, if◌then◌else◌,
}
use true_nas_controller.Domain.Publish.{
  PublishJob, PublishJobStatus, PublishTargetResult, TargetStatus, verified, draft, preflight,
  awaiting_confirmation, publishing, completed, partial_failure, status_eq, transition,
}

-- How a call ends. `unknown` is `UnknownStorageOutcome`, `failed` any other exception, with the
-- name of its class; both carry the text of the exception.
pub data Outcome (A : Type 0) : Type 0 where
  done : A → Outcome A
  unknown : Text → Outcome A
  failed : Text → Text → Outcome A

-- What leaves a workflow as an exception.
pub data WorkflowError : Type 0 where
  precondition illegal_transition unbound_local missing_key : WorkflowError
  storage_state : WorkflowError
  storage_call : Text → WorkflowError

pub data Run (A : Type 0) : Type 0 where
  returned : A → Run A
  raised : WorkflowError → Run A

-- Code that calls the storage.
abbrev pub Io : Type 0 → Type 0 → Type 0
Io World A = World → Run A × World

-- An exception that nothing catches.
abbrev pub uncaught : {A : Type 0} → Outcome A → Run A
uncaught (done a) = returned a
uncaught (unknown message) = raised (storage_call message)
uncaught (failed class_name message) = raised (storage_call message)

module _ {World : Type 0} where
  infixl 5 ◌>>=◌ ◌>>◌
  abbrev pub ◌>>=◌ : {A B : Type 0} → Io World A → (A → Io World B) → Io World B
  ◌>>=◌ m f w = let (r, w') = m w in elim r [ returned a ↦ f a w' | raised e ↦ (raised e, w') ]

  abbrev pub ◌>>◌ : {A B : Type 0} → Io World A → Io World B → Io World B
  m >> k = m >>= λ _. k

  abbrev pub pure : {A : Type 0} → A → Io World A
  pure a w = (returned a, w)

  abbrev pub raise : {A : Type 0} → WorkflowError → Io World A
  raise e w = (raised e, w)

  abbrev pub raise_if : Bool → WorkflowError → Io World (Unit {0})
  raise_if c e w = (if c then raised e else returned tt, w)

  abbrev pub or_raise : {A : Type 0} → Option A → WorkflowError → Io World A
  or_raise none e = raise e
  or_raise (some a) _ = pure a

  abbrev pub call : {A : Type 0} → (World → Outcome A × World) → Io World A
  call f w = let (o, w') = f w in (uncaught o, w')

  -- `job.transition(status)`
  abbrev pub move : PublishJob → PublishJobStatus → Io World PublishJob
  move job status = or_raise (transition job status) illegal_transition

  -- From `draft` through to `publishing`, or from `publishing` itself; any other state is refused.
  unfoldable pub enter_publishing : PublishJob → Io World PublishJob
  enter_publishing job =
      if status_eq job.status draft
      then (do a ← move job preflight; b ← move a awaiting_confirmation; move b publishing)
      else if status_eq job.status publishing
      then pure job
      else raise precondition

abbrev pub is_verified : TargetStatus → Bool
is_verified verified = true
is_verified _ = false

-- `sum(item.status is TargetStatus.VERIFIED for item in results)`
abbrev pub verified_count : List PublishTargetResult → ℕ
verified_count [] = 0
verified_count (r ∷ rs) =
    let rest = verified_count rs in if is_verified r.status then suc rest else rest

-- The state that the results lead to.
unfoldable pub final_status : List PublishTargetResult → PublishJobStatus
final_status results =
    if verified_count results == length results
    then completed
    else if verified_count results == 0
    then PublishJobStatus.failed
    else partial_failure
