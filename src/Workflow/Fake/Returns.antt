-- ===== src/Workflow/Fake/Returns.antt =====
-- When a run that writes returns (application/publish.py).
use true_nas_controller.Common.{
  ℕ, ◌≡◌, refl, ap, ◌∙◌, Bool, true, false, ◌||◌, Option, some, List, [], ◌∷◌, arith, All, is_some,
  map, Text, if◌then◌else◌, Option-cases, inl, inr,
}
use true_nas_controller.Domain.Publish.{
  PublishJob, PublishTargetResult, draft, publishing, switching, verifying, status_eq,
}
use true_nas_controller.Workflow.Outcome.{
  Outcome, done, unknown, failed, Run, returned, missing_key, or_raise, call, move, pure, Io, ◌>>=◌,
  enter_publishing, final_status,
}
use true_nas_controller.Workflow.Outcome.Ensures.{
  Ensures, Ensures-move, Ensures-enter, Ensures-call, or_raise-some,
}
use true_nas_controller.Workflow.Outcome.Returns.{
  returns, is_done, returned_value, returns->>=, returns-or_raise, returns-move, returns-enter,
  returns-call,
}
use true_nas_controller.Workflow.Fake.{
  StorageAdapter, PublishWorkflowResult, Results, result_at, SwitchState, recovered, after_switch,
  after_clone, after_read, switch_station, switch_stations, verify_pending, collect, finish,
  collect_verified, verify_phase, switch_phase, dry_run, real_run, execute,
}
use true_nas_controller.Workflow.Fake.Loops.{
  target_station, Covers, stations-Covers, pending-IsKeyed, pending-reached, collect-Ensures,
}
use true_nas_controller.Workflow.Fake.Reports.{
  begin, All-imp, IsReport, to_switching, to_verifying, to_final, execute-IsReport,
}

abbrev pub is_unknown : {A : Type 0} → Outcome A → Bool
is_unknown (unknown m) = true
is_unknown _ = false

-- The storage answers: the mappings can be read, the master can be made, and the outcome of a clone is
-- known. A clone may fail; a switch or a verification may end in any way.
pub record Answers {World : Type 0} (adapter : StorageAdapter World) : Type 0 where
  pub masters :
      (id : ℕ) (label : Text) (w : World) → is_done (adapter.create_master id label w).0 ≡ true
  pub mappings : (id : ℕ) (w : World) → is_done (adapter.read_mapping id w).0 ≡ true
  pub clones : (m : Text) (id : ℕ) (w : World) → is_unknown (adapter.create_clone m id w).0 ≡ false

recovered-returns :
    (id : ℕ) (old : Option Text) (s : SwitchState) (clone : Text) (o : Outcome (Option Text))
    → is_done o ≡ true
    → returns (recovered id old s (some clone) o) ≡ true
recovered-returns id old s clone (done b) h = refl
recovered-returns id old s clone (unknown m) h = h
recovered-returns id old s clone (failed c m) h = h

not_dry :
    {World A : Type 0} (c : Bool) (m n : Io World A) (w : World)
    → c ≡ false
    → returns (n w).0 ≡ true
    → returns ((if c then m else n) w).0 ≡ true
not_dry true m n w h r = absurd cc
not_dry false m n w h r = r

module _ {World : Type 0} (adapter : StorageAdapter World) (answers : Answers adapter) where
  switched :
      (id : ℕ) (old : Option Text) (clone : Text) (s : SwitchState) (o : Outcome (Unit {0}))
      (w : World)
      → returns (after_switch adapter id old clone (record s { clone_mapping = some clone }) o w).0
        ≡ true
  switched id old clone s (done _) w = refl
  switched id old clone s (unknown m) w =
      recovered-returns id old (record s { clone_mapping = some clone }) clone
        (adapter.read_mapping id w).0 (answers.mappings id w)
  switched id old clone s (failed c m) w = refl

  cloned :
      (id : ℕ) (old : Option Text) (s : SwitchState) (o : Outcome Text) (w : World)
      → is_unknown o ≡ false
      → returns (after_clone adapter id old s o w).0 ≡ true
  cloned id old s (done clone) w h =
      let switch = adapter.switch_mapping id clone w in switched id old clone s switch.0 switch.1
  cloned id old s (unknown m) w h = absurd cc
  cloned id old s (failed c m) w h = refl

  read :
      (master : Text) (id : ℕ) (s : SwitchState) (o : Outcome (Option Text)) (w : World)
      → is_done o ≡ true
      → returns (after_read adapter master id s o w).0 ≡ true
  read master id s (done old) w h =
      let clone = adapter.create_clone master id w in
      cloned id old s clone.0 clone.1 (answers.clones master id w)
  read master id s (unknown m) w h = h
  read master id s (failed c m) w h = h

  station_returns :
      (master : Text) (id : ℕ) (s : SwitchState) (w : World)
      → returns (switch_station adapter master id s w).0 ≡ true
  unfolding switch_station
  station_returns master id s w =
      let o = adapter.read_mapping id w in read master id s o.0 o.1 (answers.mappings id w)

  anything : {A : Type 0} (r : Run A) → returns r ≡ true → Ensures (λ _. Unit {0}) r
  anything (returned a) h = tt
  anything (Run.raised e) h = absurd cc

  stations_return :
      (master : Text) (ids : List ℕ) (s : SwitchState) (w : World)
      → returns (switch_stations adapter master ids s w).0 ≡ true
  unfolding switch_stations
  stations_return master [] s w = refl
  stations_return master (id ∷ ids) s w =
      let first = station_returns master id s w in
      returns->>= (λ _. Unit {0}) (switch_station adapter master id s)
        (switch_stations adapter master ids) w first
        (anything (switch_station adapter master id s w).0 first)
        (λ s' w' _. stations_return master ids s' w')

  collect-returns :
      (rs : Results) (ids : List ℕ) (w : World)
      → All (λ id. is_some (result_at id rs) ≡ true) ids
      → returns (collect adapter rs ids w).0 ≡ true
  unfolding collect
  collect-returns rs [] w h = refl
  collect-returns rs (id ∷ ids) w h = elim (Option-cases (result_at id rs)) [
    | inl e ↦ ground arith
    | inr (r, e) ↦
        returns->>= (λ b. b ≡ r) (or_raise (result_at id rs) missing_key)
          (λ b. collect adapter rs ids >>= λ rest. pure (b ∷ rest)) w
          (returns-or_raise (result_at id rs) r missing_key w e)
          (or_raise-some (result_at id rs) r missing_key w e)
          (λ b w' _.
            let rest = collect-returns rs ids w' h.1 in
            returns->>= (λ _. Unit {0}) (collect adapter rs ids) (λ rest. pure (b ∷ rest)) w' rest
              (anything (collect adapter rs ids w').0 rest) (λ _ _ _. refl))
  ]

  finish-returns :
      (job checking : PublishJob) (master : Text) (targets : List PublishTargetResult) (w : World)
      → checking ≡ record job { status = verifying }
      → returns (finish adapter checking master targets w).0 ≡ true
  finish-returns job checking master targets w e =
      let legal = to_final job checking targets e in
      returns->>= (λ j. j ≡ record checking { status = final_status targets })
        (move checking (final_status targets))
        (λ finished.
          pure (record { job = finished; master_mapping = some master; targets = targets }))
        w (returns-move checking (final_status targets) w legal)
        (Ensures-move checking (final_status targets) w legal) (λ _ _ _. refl)

  verified_returns :
      (job checking : PublishJob) (ids : List ℕ) (master : Text) (s : SwitchState) (w : World)
      → checking ≡ record job { status = verifying }
      → Covers ids (begin adapter) s
      → returns (collect_verified adapter master ids s checking w).0 ≡ true
  verified_returns job checking ids master s w e c =
      let v = verify_pending adapter s.pending s.results w in
      let found = All-imp ids (pending-reached adapter s.pending s.results w) c.every in
      returns->>= (λ targets. map target_station targets ≡ ids) (collect adapter v.0 ids)
        (finish adapter checking master) v.1 (collect-returns v.0 ids v.1 found)
        (collect-Ensures adapter v.0 ids v.1
          (pending-IsKeyed adapter s.pending s.results w (c.keyed tt)) found)
        (λ targets w' _. finish-returns job checking master targets w' e)

  switch_phase-returns :
      (job entered : PublishJob) (ids : List ℕ) (master : Text) (w : World)
      → entered ≡ record job { status = switching }
      → returns (switch_phase adapter master ids entered w).0 ≡ true
  switch_phase-returns job entered ids master w e =
      returns->>= (Covers ids (begin adapter)) (switch_stations adapter master ids (begin adapter))
        (verify_phase adapter master ids entered) w (stations_return master ids (begin adapter) w)
        (stations-Covers adapter master ids (begin adapter) w)
        (λ s w' c.
          returns->>= (λ j. j ≡ record entered { status = verifying }) (move entered verifying)
            (collect_verified adapter master ids s) w'
            (returns-move entered verifying w' (to_verifying job entered e))
            (Ensures-move entered verifying w' (to_verifying job entered e))
            (λ checking w'' f.
              verified_returns job checking ids master s w''
                (f ∙ ap (λ (k : PublishJob). record k { status = verifying }) e) c))

  real_run-returns :
      (job current : PublishJob) (ids : List ℕ) (w : World)
      → current ≡ record job { status = publishing }
      → returns (real_run adapter current ids w).0 ≡ true
  unfolding real_run
  real_run-returns job current ids w e =
      let master = adapter.create_master current.id current.label in
      returns->>= (λ _. Unit {0}) (call master)
        (λ m. move current switching >>= switch_phase adapter m ids) w
        (returns-call master w (answers.masters current.id current.label w)) (Ensures-call master w)
        (λ m w' _.
          returns->>= (λ j. j ≡ record current { status = switching }) (move current switching)
            (switch_phase adapter m ids) w'
            (returns-move current switching w' (to_switching job current e))
            (Ensures-move current switching w' (to_switching job current e))
            (λ entered w'' f.
              switch_phase-returns job entered ids m w''
                (f ∙ ap (λ (k : PublishJob). record k { status = switching }) e)))

  -- A run that writes, asked for a confirmed job in state draft or publishing and for at least one
  -- station, returns if the storage answers, and what it returns is a report on those stations.
  pub execute-returns :
      (job : PublishJob) (id : ℕ) (ids : List ℕ) (w : World)
      → job.dry_run ≡ false
      → (status_eq job.status draft || status_eq job.status publishing) ≡ true
      → (r : PublishWorkflowResult) × ((execute adapter job (id ∷ ids) true w).0 ≡ returned r)
        × IsReport job (id ∷ ids) r
  unfolding execute
  execute-returns job id ids w h k =
      let body = λ (current : PublishJob).
        if job.dry_run
        then dry_run adapter current (id ∷ ids)
        else real_run adapter current (id ∷ ids) in
      returned_value (IsReport job (id ∷ ids)) (execute adapter job (id ∷ ids) true w).0
        (returns->>= (λ j. j ≡ record job { status = publishing }) (enter_publishing job) body w
          (returns-enter job w k) (Ensures-enter job w)
          (λ current w' e.
            not_dry job.dry_run (dry_run adapter current (id ∷ ids))
              (real_run adapter current (id ∷ ids)) w' h
              (real_run-returns job current (id ∷ ids) w' e)))
        (execute-IsReport adapter job (id ∷ ids) true w h)
