-- ===== src/Store/Session.antt =====
-- repository/uow.py: one session for one operation. The session works on a copy; `commit` makes the
-- copy durable; leaving the block without a commit, or by an exception, drops what was not committed.
pub mod Atomic
pub mod Committed
pub mod Triples
use true_nas_controller.Common.{Bool, Option, none, some, List, [], ◌∷◌, if◌then◌else◌}
use true_nas_controller.Store.Database.{Database, constraints_hold}

-- The exceptions that the modelled code raises, by class.
pub data Error : Type 0 where
  value_error integrity_error multiple_results_found : Error
  publish_draft_validation publish_idempotency_conflict publish_job_not_found : Error
  publish_task_payload_mismatch publish_confirmation_state publish_dispatch_state : Error
  publish_executor_state publish_task_state publish_precondition key_error unbound_local : Error
  enrollment_rejected provisioning_rejected provisioning_conflict : Error
  station_registration_conflict agent_unauthorized heartbeat_rejected station_not_found : Error
  agent_command_issue agent_command_agent_not_found agent_command_unauthorized : Error
  agent_command_acknowledgement_rejected : Error
  true_nas_publish true_nas_client dataset_selection dataset_storage_sync task_queue
        overflow_error :
      Error

pub data Result {ℓ} (A : Type ℓ) : Type ℓ where
  ok : A → Result A
  err : Error → Result A

pub record Session : Type 0 where
  pub working : Database
  pub durable : Database

-- Code inside `async with uow_factory() as uow`.
abbrev pub Tx : Type 0 → Type 0
Tx A = Session → Result A × Session

infixl 5 ◌>>=◌ ◌>>◌
abbrev pub ◌>>=◌ : {A B : Type 0} → Tx A → (A → Tx B) → Tx B
◌>>=◌ m f s = let (r, s') = m s in elim r [ ok a ↦ f a s' | err e ↦ (err e, s') ]

abbrev pub ◌>>◌ : {A B : Type 0} → Tx A → Tx B → Tx B
m >> k = m >>= λ _. k

abbrev pub pure : {A : Type 0} → A → Tx A
pure a s = (ok a, s)

abbrev pub raise : {A : Type 0} → Error → Tx A
raise e s = (err e, s)

abbrev pub raise_if : Bool → Error → Tx (Unit {0})
raise_if c e s = (if c then err e else ok tt, s)

abbrev pub lift : {A : Type 0} → Result A → Tx A
lift r s = (r, s)

abbrev pub gets : {A : Type 0} → (Database → A) → Tx A
gets f s = (ok (f s.working), s)

abbrev pub modify : (Database → Database) → Tx (Unit {0})
modify f s = (ok tt, record s { working = f s.working })

abbrev pub or_raise : {A : Type 0} → Option A → Error → Tx A
or_raise none e = raise e
or_raise (some a) _ = pure a

abbrev pub ok_or : {A : Type 0} → Option A → Error → Result A
ok_or none e = err e
ok_or (some a) _ = ok a

-- `Result.one_or_none()`
abbrev pub one_or_none : {A : Type 0} → List A → Tx (Option A)
one_or_none [] = pure none
one_or_none (x ∷ []) = pure (some x)
one_or_none (x ∷ y ∷ _) = raise multiple_results_found

-- `commit`: the flush checks the constraints, then the working copy becomes durable.
unfoldable pub commit : Tx (Unit {0})
commit s =
    if constraints_hold s.working
    then (ok tt, record s { durable = s.working })
    else (err integrity_error, s)

-- `async with uow_factory() as uow: …`
unfoldable pub unit_of_work : {A : Type 0} → Tx A → Database → Result A × Database
unit_of_work m db = let (r, s) = m (record { working = db; durable = db }) in (r, s.durable)
