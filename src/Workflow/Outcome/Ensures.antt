-- ===== src/Workflow/Outcome/Ensures.antt =====
-- What holds of a run of the workflows of application/publish.py and application/truenas_publish.py: of
-- what it returns, and of the exception it ends in.
use true_nas_controller.Common.{◌≡◌, refl, Bool, true, false, Option, none, some, arith}
use true_nas_controller.Domain.Publish.{
  PublishJob, PublishJobStatus, publishing, draft, preflight, awaiting_confirmation, switching,
  verifying, completed, partial_failure, transition,
}
use true_nas_controller.Workflow.Outcome.{
  Outcome, done, unknown, failed, WorkflowError, precondition, unbound_local, storage_call,
  storage_state, Run, returned, raised, Io, ◌>>=◌, ◌>>◌, illegal_transition, uncaught, or_raise,
  raise_if, call, move, enter_publishing,
}

-- Every exception but an illegal transition and a missing key.
abbrev pub is_expected : WorkflowError → Bool
is_expected precondition = true
is_expected unbound_local = true
is_expected (storage_call message) = true
is_expected storage_state = true
is_expected _ = false

abbrev pub Ensures : {A : Type 0} → (A → Type 0) → Run A → Type 0
Ensures P (returned a) = P a
Ensures P (raised e) = is_expected e ≡ true

pub Ensures-map :
    {A : Type 0} {P Q : A → Type 0} (r : Run A) → ((a : A) → P a → Q a) → Ensures P r → Ensures Q r
Ensures-map (returned a) f p = f a p
Ensures-map (raised e) f p = p

uncaught_lem : {A : Type 0} (o : Outcome A) → Ensures (λ _. Unit {0}) (uncaught o)
uncaught_lem (done a) = tt
uncaught_lem (unknown m) = refl
uncaught_lem (failed c m) = refl

module _ {World : Type 0} where
  after :
      {A B : Type 0} (P : A → Type 0) (Q : B → Type 0) (first : Run A × World)
      (later : A → Io World B) (w : World)
      → Ensures P first.0
      → ((a : A) (w' : World) → P a → Ensures Q (later a w').0)
      → Ensures Q (((λ _. first) >>= later) w).0
  after P Q (returned a, w') later w p q = q a w' p
  after P Q (raised e, w') later w p q = p

  pub Ensures->>= :
      {A B : Type 0} (P : A → Type 0) (Q : B → Type 0) (first : Io World A) (later : A → Io World B)
      (w : World)
      → Ensures P (first w).0
      → ((a : A) (w' : World) → P a → Ensures Q (later a w').0)
      → Ensures Q ((first >>= later) w).0
  Ensures->>= P Q first later w = after P Q (first w) later w

  pub Ensures-raise_if :
      (c : Bool) (e : WorkflowError) (w : World)
      → is_expected e ≡ true
      → Ensures (λ _. c ≡ false) (raise_if c e w).0
  Ensures-raise_if true e w h = h
  Ensures-raise_if false e w h = refl

  -- A guard that raises an expected exception.
  pub Ensures-guard :
      {B : Type 0} (Q : B → Type 0) (c : Bool) (e : WorkflowError) (later : Io World B) (w : World)
      → is_expected e ≡ true
      → ((w' : World) → Ensures Q (later w').0)
      → Ensures Q ((raise_if c e >> later) w).0
  Ensures-guard Q true e later w h q = h
  Ensures-guard Q false e later w h q = q w

  pub Ensures-or_raise :
      {A : Type 0} (o : Option A) (e : WorkflowError) (w : World)
      → is_expected e ≡ true
      → Ensures (λ a. o ≡ some a) (or_raise o e w).0
  Ensures-or_raise none e w h = h
  Ensures-or_raise (some a) e w h = refl

  pub Ensures-call :
      {A : Type 0} (f : World → Outcome A × World) (w : World)
      → Ensures (λ _. Unit {0}) (call f w).0
  Ensures-call f w = uncaught_lem (f w).0

  pub or_raise-some :
      {A : Type 0} (o : Option A) (a : A) (e : WorkflowError) (w : World)
      → o ≡ some a
      → Ensures (λ b. b ≡ a) (or_raise o e w).0
  or_raise-some none a e w h = ground arith
  or_raise-some (some b) a e w h = cc

  -- A legal transition is made.
  pub Ensures-move :
      (job : PublishJob) (s : PublishJobStatus) (w : World)
      → transition job s ≡ some (record job { status = s })
      → Ensures (λ j. j ≡ record job { status = s }) (move job s w).0
  Ensures-move job s w h =
      or_raise-some (transition job s) (record job { status = s }) illegal_transition w h

  entered :
      (job : PublishJob) (s : PublishJobStatus) (w : World)
      → Ensures
          (λ j. j ≡ record job { status = publishing })
          (enter_publishing (record job { status = s }) w).0
  unfolding enter_publishing transition
  entered job draft w = refl
  entered job preflight w = refl
  entered job awaiting_confirmation w = refl
  entered job publishing w = refl
  entered job switching w = refl
  entered job verifying w = refl
  entered job completed w = refl
  entered job partial_failure w = refl
  entered job PublishJobStatus.failed w = refl

  pub Ensures-enter :
      (job : PublishJob) (w : World)
      → Ensures (λ j. j ≡ record job { status = publishing }) (enter_publishing job w).0
  Ensures-enter job w = entered job job.status w
