-- ===== src/Workflow/Fake.antt =====
-- application/publish.py: master, clone, switch and verify over a storage adapter. The adapter is an
-- interface; its calls may succeed, fail, or end in an unknown outcome.
pub mod DryRun
pub mod Loops
pub mod Reports
pub mod Returns
use true_nas_controller.Common.{
  ℕ, Bool, true, false, not, Option, none, some, List, [], ◌∷◌, ◌++◌, Text, codes, text_eq,
  uuid_text, is_empty, ◌==◌, if◌then◌else◌,
}
use true_nas_controller.Domain.Publish.{
  PublishJob, PublishTargetResult, TargetStatus, simulated, verified, error, recovery_required,
  switching, verifying, completed,
}
use true_nas_controller.Workflow.Outcome.{
  Outcome, done, unknown, failed, precondition, unbound_local, missing_key, Run, returned, raised,
  storage_call, Io, ◌>>=◌, ◌>>◌, pure, raise_if, or_raise, call, move, enter_publishing,
  final_status,
}

-- `PublishStorageAdapter` of application/ports.py.
pub record StorageAdapter (World : Type 0) : Type 0 where
  pub create_master : ℕ → Text → World → Outcome Text × World
  pub read_mapping : ℕ → World → Outcome (Option Text) × World
  pub create_clone : Text → ℕ → World → Outcome Text × World
  pub switch_mapping : ℕ → Text → World → Outcome (Unit {0}) × World
  pub verify_mapping : ℕ → Text → World → Outcome Bool × World

pub record PublishWorkflowResult : Type 0 where
  pub job : PublishJob
  pub master_mapping : Option Text
  pub targets : List PublishTargetResult

-- `results_by_station`: the latest value under a key comes first.
abbrev pub Results : Type 0
Results = List (ℕ × PublishTargetResult)

abbrev pub result_at : ℕ → Results → Option PublishTargetResult
result_at id [] = none
result_at id ((k, r) ∷ rest) = let later = result_at id rest in if k == id then some r else later

-- What the first loop carries: the variable `clone_mapping`, unbound before its first assignment and
-- kept from one station to the next, and the two collections.
pub record SwitchState : Type 0 where
  pub clone_mapping : Option Text
  pub results : Results
  pub pending : List (ℕ × Option Text × Text)

abbrev pub target_result :
    ℕ → TargetStatus → Option Text → Option Text → Option Text → Option Text → PublishTargetResult
target_result station_id status old_mapping new_mapping error_code error_message = record {
  station_id = station_id;
  status = status;
  old_mapping = old_mapping;
  new_mapping = new_mapping;
  error_code = error_code;
  error_message = error_message;
  storage_created = false;
}

abbrev pub record_result : ℕ → PublishTargetResult → SwitchState → SwitchState
record_result id r s = record s { results = (id, r) ∷ s.results }

abbrev optional_eq : Option Text → Text → Bool
optional_eq none t = false
optional_eq (some s) t = text_eq s t

-- The result after a read-back in the handler of `UnknownStorageOutcome`.
abbrev pub read_back_result : ℕ → Option Text → Option Text → Text → PublishTargetResult
read_back_result id old_mapping read_back clone =
    if optional_eq read_back clone
    then target_result id verified old_mapping read_back none none
    else target_result id recovery_required old_mapping none (some (codes "switch_unknown"))
        (some (codes "switch outcome requires manual recovery"))

abbrev pub failed_result : ℕ → Option Text → Text → PublishTargetResult
failed_result id old_mapping message =
    target_result id error old_mapping none (some (codes "target_failed")) (some message)

abbrev pub simulated_result : ℕ → ℕ → Option Text → PublishTargetResult
simulated_result job_id id old_mapping =
    target_result id simulated old_mapping
      (some (codes "clone:" ++ uuid_text job_id ++ codes ":" ++ uuid_text id)) none none

-- `clone_mapping` may be unbound, or left from another station; the read-back may raise.
abbrev pub recovered :
    ℕ → Option Text → SwitchState → Option Text → Outcome (Option Text) → Run SwitchState
recovered id old_mapping s none (done read_back) = raised unbound_local
recovered id old_mapping s (some clone) (done read_back) =
    returned (record_result id (read_back_result id old_mapping read_back clone) s)
recovered id old_mapping s clone (unknown message) = raised (storage_call message)
recovered id old_mapping s clone (failed _ message) = raised (storage_call message)

module _ {World : Type 0} (adapter : StorageAdapter World) where
  open adapter use {create_master, read_mapping, create_clone, switch_mapping, verify_mapping}

  -- `except UnknownStorageOutcome`: the mapping is read back, and compared with `clone_mapping`.
  abbrev recover : ℕ → Option Text → SwitchState → Io World SwitchState
  recover id old_mapping s w =
      let (o, w') = read_mapping id w in (recovered id old_mapping s s.clone_mapping o, w')

  -- After `switch_mapping`.
  abbrev after_switch :
      ℕ → Option Text → Text → SwitchState → Outcome (Unit {0}) → Io World SwitchState
  after_switch id old_mapping clone s (done _) =
      pure (record s { pending = s.pending ++ (id, old_mapping, clone) ∷ [] })
  after_switch id old_mapping clone s (unknown _) = recover id old_mapping s
  after_switch id old_mapping clone s (failed _ message) =
      pure (record_result id (failed_result id old_mapping message) s)

  -- After `create_clone`.
  abbrev after_clone : ℕ → Option Text → SwitchState → Outcome Text → Io World SwitchState
  after_clone id old_mapping s (done clone) w =
      let (o, w') = switch_mapping id clone w in
      after_switch id old_mapping clone (record s { clone_mapping = some clone }) o w'
  after_clone id old_mapping s (unknown _) w = recover id old_mapping s w
  after_clone id old_mapping s (failed _ message) w =
      (returned (record_result id (failed_result id old_mapping message) s), w)

  -- After `read_mapping`, whose exceptions are not caught.
  abbrev after_read : Text → ℕ → SwitchState → Outcome (Option Text) → Io World SwitchState
  after_read master id s (done old_mapping) w =
      let (o, w') = create_clone master id w in after_clone id old_mapping s o w'
  after_read master id s (unknown message) w = (raised (storage_call message), w)
  after_read master id s (failed _ message) w = (raised (storage_call message), w)

  -- One pass of the first loop.
  unfoldable pub switch_station : Text → ℕ → SwitchState → Io World SwitchState
  switch_station master id s w = let (o, w') = read_mapping id w in after_read master id s o w'

  unfoldable pub switch_stations : Text → List ℕ → SwitchState → Io World SwitchState
  switch_stations master [] s = pure s
  switch_stations master (id ∷ ids) s = do
    s' ← switch_station master id s
    switch_stations master ids s'

  abbrev verify_result : ℕ → Option Text → Text → Outcome Bool → PublishTargetResult
  verify_result id old_mapping clone (done true) =
      target_result id verified old_mapping (some clone) none none
  verify_result id old_mapping clone (done false) =
      target_result id error old_mapping (some clone) (some (codes "verify_failed"))
        (some (codes "mapping verification failed"))
  verify_result id old_mapping clone (unknown message) =
      target_result id error old_mapping (some clone) (some (codes "verify_failed")) (some message)
  verify_result id old_mapping clone (failed _ message) =
      target_result id error old_mapping (some clone) (some (codes "verify_failed")) (some message)

  -- The second loop.
  unfoldable pub verify_pending : List (ℕ × Option Text × Text) → Results → World → Results × World
  verify_pending [] results w = (results, w)
  verify_pending ((id, old_mapping, clone) ∷ rest) results w =
      let (o, w') = verify_mapping id clone w in
      verify_pending rest ((id, verify_result id old_mapping clone o) ∷ results) w'

  -- `[results_by_station[station_id] for station_id in station_ids]`
  unfoldable pub collect : Results → List ℕ → Io World (List PublishTargetResult)
  collect results [] = pure []
  collect results (id ∷ ids) = do
    r ← or_raise (result_at id results) missing_key
    rest ← collect results ids
    pure (r ∷ rest)

  unfoldable pub simulate : ℕ → List ℕ → Io World (List PublishTargetResult)
  simulate job_id [] = pure []
  simulate job_id (id ∷ ids) = do
    old_mapping ← call (read_mapping id)
    rest ← simulate job_id ids
    pure (simulated_result job_id id old_mapping ∷ rest)

  -- The dry run.
  unfoldable pub dry_run : PublishJob → List ℕ → Io World PublishWorkflowResult
  unfolding simulate
  dry_run current ids = do
    targets ← simulate current.id ids
    finished ← move current completed
    pure (record {
      job = record finished { status_reason = some (codes "dry_run_simulation") };
      master_mapping = some (codes "master:" ++ uuid_text current.id);
      targets = targets;
    })

  -- The final state, from the results.
  abbrev pub finish : PublishJob → Text → List PublishTargetResult → Io World PublishWorkflowResult
  finish checking master targets = do
    finished ← move checking (final_status targets)
    pure (record { job = finished; master_mapping = some master; targets = targets })

  -- The second loop, and the results in the order of the stations.
  abbrev pub collect_verified :
      Text → List ℕ → SwitchState → PublishJob → Io World PublishWorkflowResult
  collect_verified master ids s checking w =
      let (results, w') = verify_pending s.pending s.results w in
      (collect results ids >>= finish checking master) w'

  abbrev pub verify_phase :
      Text → List ℕ → PublishJob → SwitchState → Io World PublishWorkflowResult
  verify_phase master ids entered s = move entered verifying >>= collect_verified master ids s

  abbrev pub switch_phase : Text → List ℕ → PublishJob → Io World PublishWorkflowResult
  switch_phase master ids entered =
      switch_stations master ids (record { clone_mapping = none; results = []; pending = [] })
      >>= verify_phase master ids entered

  -- The run that writes.
  unfoldable pub real_run : PublishJob → List ℕ → Io World PublishWorkflowResult
  real_run current ids = do
    master ← call (create_master current.id current.label)
    entered ← move current switching
    switch_phase master ids entered

  -- `FakePublishWorkflow.execute`
  unfoldable pub execute : PublishJob → List ℕ → Bool → Io World PublishWorkflowResult
  unfolding dry_run real_run
  execute job ids confirmed = do
    raise_if (is_empty ids) precondition
    raise_if (not confirmed) precondition
    current ← enter_publishing job
    if job.dry_run then dry_run current ids else real_run current ids
