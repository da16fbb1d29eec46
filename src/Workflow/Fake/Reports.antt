-- ===== src/Workflow/Fake/Reports.antt =====
-- What a finished run reports (application/publish.py).
use true_nas_controller.Common.{
  is_empty, not, if◌then◌else◌, ℕ, ◌≡◌, refl, ap, ◌∙◌, Bool, true, false, none, some, List, [], ◌∷◌,
  arith, All, map, Text,
}
use true_nas_controller.Domain.Publish.{
  PublishJob, PublishTargetResult, publishing, switching, verifying, transition,
}
use true_nas_controller.Workflow.Outcome.{
  raise_if, ◌>>◌, precondition, enter_publishing, call, move, pure, Io, ◌>>=◌, final_status,
}
use true_nas_controller.Workflow.Fake.{
  StorageAdapter, PublishWorkflowResult, SwitchState, switch_stations, verify_pending, finish,
  collect_verified, verify_phase, switch_phase, collect, dry_run, real_run, execute,
}
use true_nas_controller.Workflow.Outcome.FinalStatus.{final_status_cases}
use true_nas_controller.Workflow.Outcome.Ensures.{
  Ensures, Ensures->>=, Ensures-move, Ensures-enter, Ensures-call, Ensures-guard,
}
use true_nas_controller.Workflow.Fake.Loops.{
  target_station, Covers, stations-Covers, pending-IsKeyed, pending-reached, collect-Ensures,
}

pub All-imp :
    {A : Type 0} {P Q : A → Type 0} (xs : List A) → ((x : A) → P x → Q x) → All P xs → All Q xs
All-imp [] f h = tt
All-imp (x ∷ xs) f h = (f x h.0, All-imp xs f h.1)

pub otherwise :
    {World A : Type 0} (P : A → Type 0) (c : Bool) (m n : Io World A) (w : World)
    → c ≡ false
    → Ensures P (n w).0
    → Ensures P ((if c then m else n) w).0
otherwise P true m n w h p = ground arith
otherwise P false m n w h p = p

-- A report on the stations `ids`: one result for each, in their order, and the job as it was but for
-- its state, which is the one that the results lead to.
abbrev pub IsReport : PublishJob → List ℕ → PublishWorkflowResult → Type 0
IsReport job ids r =
    (map target_station r.targets ≡ ids) × (r.job ≡ record job { status = final_status r.targets })

pub to_switching :
    (job j : PublishJob)
    → j ≡ record job { status = publishing }
    → transition j switching ≡ some (record j { status = switching })
unfolding transition
to_switching job j e = let s = ap (λ (k : PublishJob). k.status) e in ground arith

pub to_verifying :
    (job j : PublishJob)
    → j ≡ record job { status = switching }
    → transition j verifying ≡ some (record j { status = verifying })
unfolding transition
to_verifying job j e = let s = ap (λ (k : PublishJob). k.status) e in ground arith

pub to_final :
    (job j : PublishJob) (rs : List PublishTargetResult)
    → j ≡ record job { status = verifying }
    → transition j (final_status rs) ≡ some (record j { status = final_status rs })
to_final job j rs e = final_status_cases rs j (ap (λ (k : PublishJob). k.status) e)

module _ {World : Type 0} (adapter : StorageAdapter World) where
  abbrev pub begin : SwitchState
  begin = record { clone_mapping = none; results = []; pending = [] }

  finish-Ensures :
      (job checking : PublishJob) (ids : List ℕ) (master : Text)
      (targets : List PublishTargetResult) (w : World)
      → checking ≡ record job { status = verifying }
      → map target_station targets ≡ ids
      → Ensures (IsReport job ids) (finish adapter checking master targets w).0
  finish-Ensures job checking ids master targets w e h =
      Ensures->>= (λ j. j ≡ record checking { status = final_status targets }) (IsReport job ids)
        (move checking (final_status targets))
        (λ finished.
          pure (record { job = finished; master_mapping = some master; targets = targets }))
        w (Ensures-move checking (final_status targets) w (to_final job checking targets e))
        (λ j w' f. (h, f ∙ ap (λ (k : PublishJob). record k { status = final_status targets }) e))

  collect_verified-Ensures :
      (job checking : PublishJob) (ids : List ℕ) (master : Text) (s : SwitchState) (w : World)
      → checking ≡ record job { status = verifying }
      → Covers ids begin s
      → Ensures (IsReport job ids) (collect_verified adapter master ids s checking w).0
  collect_verified-Ensures job checking ids master s w e c =
      let v = verify_pending adapter s.pending s.results w in
      Ensures->>= (λ targets. map target_station targets ≡ ids) (IsReport job ids)
        (collect adapter v.0 ids) (finish adapter checking master) v.1
        (collect-Ensures adapter v.0 ids v.1
          (pending-IsKeyed adapter s.pending s.results w (c.keyed tt))
          (All-imp ids (pending-reached adapter s.pending s.results w) c.every))
        (λ targets w' h. finish-Ensures job checking ids master targets w' e h)

  switch_phase-Ensures :
      (job entered : PublishJob) (ids : List ℕ) (master : Text) (w : World)
      → entered ≡ record job { status = switching }
      → Ensures (IsReport job ids) (switch_phase adapter master ids entered w).0
  switch_phase-Ensures job entered ids master w e =
      Ensures->>= (Covers ids begin) (IsReport job ids) (switch_stations adapter master ids begin)
        (verify_phase adapter master ids entered) w (stations-Covers adapter master ids begin w)
        (λ s w' c.
          Ensures->>= (λ j. j ≡ record entered { status = verifying }) (IsReport job ids)
            (move entered verifying) (collect_verified adapter master ids s) w'
            (Ensures-move entered verifying w' (to_verifying job entered e))
            (λ checking w'' f.
              collect_verified-Ensures job checking ids master s w''
                (f ∙ ap (λ (k : PublishJob). record k { status = verifying }) e) c))

  real_run-Ensures :
      (job current : PublishJob) (ids : List ℕ) (w : World)
      → current ≡ record job { status = publishing }
      → Ensures (IsReport job ids) (real_run adapter current ids w).0
  unfolding real_run
  real_run-Ensures job current ids w e =
      Ensures->>= (λ _. Unit {0}) (IsReport job ids)
        (call (adapter.create_master current.id current.label))
        (λ master. move current switching >>= switch_phase adapter master ids) w
        (Ensures-call (adapter.create_master current.id current.label) w)
        (λ master w' _.
          Ensures->>= (λ j. j ≡ record current { status = switching }) (IsReport job ids)
            (move current switching) (switch_phase adapter master ids) w'
            (Ensures-move current switching w' (to_switching job current e))
            (λ entered w'' f.
              switch_phase-Ensures job entered ids master w''
                (f ∙ ap (λ (k : PublishJob). record k { status = switching }) e)))

  -- Whatever the storage does, a run that writes either ends in a report on exactly the
  -- stations that it was given, in their order, with the job as it was but for its state, and that state
  -- is the one that the results lead to; or it raises, but never for an illegal transition or a station
  -- without a result.
  pub execute-IsReport :
      (job : PublishJob) (ids : List ℕ) (confirmed : Bool) (w : World)
      → job.dry_run ≡ false
      → Ensures (IsReport job ids) (execute adapter job ids confirmed w).0
  unfolding execute
  execute-IsReport job ids confirmed w h =
      let body = λ (current : PublishJob).
        if job.dry_run then dry_run adapter current ids else real_run adapter current ids in
      Ensures-guard (IsReport job ids) (is_empty ids) precondition
        (raise_if (not confirmed) precondition >> (enter_publishing job >>= body)) w refl
        (λ w1.
          Ensures-guard (IsReport job ids) (not confirmed) precondition
            (enter_publishing job >>= body) w1 refl
            (λ w2.
              Ensures->>= (λ j. j ≡ record job { status = publishing }) (IsReport job ids)
                (enter_publishing job) body w2 (Ensures-enter job w2)
                (λ current w3 e.
                  otherwise (IsReport job ids) job.dry_run (dry_run adapter current ids)
                    (real_run adapter current ids) w3 h (real_run-Ensures job current ids w3 e))))
