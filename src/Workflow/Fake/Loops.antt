-- ===== src/Workflow/Fake/Loops.antt =====
-- The two loops of a run that writes (application/publish.py): every station ends up with a result.
use true_nas_controller.Common.{
  ℕ, is_some, ◌||◌, ◌≡◌, refl, Bool, true, false, inl, inr, Option, none, some, List, [], ◌∷◌, ◌++◌,
  arith, All, map, Text, any, ◌==◌, Option-cases,
}
use true_nas_controller.Domain.Publish.{PublishTargetResult}
use true_nas_controller.Workflow.Outcome.{
  Outcome, done, unknown, failed, missing_key, or_raise, pure, ◌>>=◌,
}
use true_nas_controller.Workflow.Fake.{
  StorageAdapter, Results, result_at, SwitchState, record_result, after_switch, after_clone,
  after_read, recovered, read_back_result, failed_result, switch_station, switch_stations,
  verify_result, verify_pending, collect,
}
use true_nas_controller.Workflow.Outcome.Ensures.{Ensures, Ensures-map, Ensures->>=, or_raise-some}

abbrev pub target_station : PublishTargetResult → ℕ
target_station t = t.station_id

-- Every entry is about the station that it stands under.
abbrev pub IsKeyed : Results → Type 0
IsKeyed rs = All (λ (kr : ℕ × PublishTargetResult). kr.1.station_id ≡ kr.0) rs

result_at-id :
    (id : ℕ) (rs : Results) (r : PublishTargetResult)
    → IsKeyed rs
    → result_at id rs ≡ some r
    → r.station_id ≡ id
result_at-id id [] r k h = cc
result_at-id id ((j, q) ∷ rs) r k h = ground (arith, k.0, result_at-id id rs r k.1)

-- A station has a result, or is waiting to be verified.
abbrev pub covered : ℕ → SwitchState → Bool
covered k s =
    is_some (result_at k s.results) || any s.pending (λ (p : ℕ × Option Text × Text). p.0 == k)

-- From `s` to `s'` the results stay keyed, no station is lost, and `id` is covered.
pub record Extends (id : ℕ) (s s' : SwitchState) : Type 0 where
  pub keyed : IsKeyed s.results → IsKeyed s'.results
  pub kept : (k : ℕ) → covered k s ≡ true → covered k s' ≡ true
  pub reached : covered id s' ≡ true

any-snoc :
    {A : Type 0} (p : A → Bool) (xs : List A) (x : A) → any (xs ++ x ∷ []) p ≡ (any xs p || p x)
any-snoc p [] x = ground arith
any-snoc p (y ∷ xs) x = ground (arith, any-snoc p xs x)

-- A recorded result extends the state, whatever `clone_mapping` is.
recorded :
    (id : ℕ) (r : PublishTargetResult) (s : SwitchState) (clone : Option Text)
    → r.station_id ≡ id
    → Extends id s (record_result id r (record s { clone_mapping = clone }))
recorded id r s clone e = record {
  keyed = λ k. (e, k);
  kept = λ k h. ground arith;
  reached = ground arith;
}

-- So does a station that is left to be verified.
queued :
    (id : ℕ) (old : Option Text) (t : Text) (s : SwitchState) (clone : Option Text)
    → Extends id s (record s { clone_mapping = clone; pending = s.pending ++ (id, old, t) ∷ [] })
queued id old t s clone =
    let snoc =
      λ (k : ℕ). any-snoc (λ (p : ℕ × Option Text × Text). p.0 == k) s.pending (id, old, t) in
    record {
      keyed = λ k. k;
      kept = λ k h. ground (arith, snoc k);
      reached = ground (arith, snoc id);
    }

read_back-id :
    (id : ℕ) (old back : Option Text) (clone : Text)
    → (read_back_result id old back clone).station_id ≡ id
read_back-id id old back clone = ground arith

recovered-Extends :
    (id : ℕ) (old : Option Text) (s : SwitchState) (clone : Option Text) (o : Outcome (Option Text))
    → Ensures (Extends id s) (recovered id old (record s { clone_mapping = clone }) clone o)
recovered-Extends id old s none (done b) = refl
recovered-Extends id old s (some c) (done b) =
    recorded id (read_back_result id old b c) s (some c) (read_back-id id old b c)
recovered-Extends id old s none (unknown m) = refl
recovered-Extends id old s none (failed c m) = refl
recovered-Extends id old s (some _) (unknown m) = refl
recovered-Extends id old s (some _) (failed c m) = refl

-- From `s` to `s'` the results stay keyed, no station is lost, and all of `ids` are covered.
pub record Covers (ids : List ℕ) (s s' : SwitchState) : Type 0 where
  pub keyed : IsKeyed s.results → IsKeyed s'.results
  pub kept : (k : ℕ) → covered k s ≡ true → covered k s' ≡ true
  pub every : All (λ id. covered id s' ≡ true) ids

Extends-Covers :
    (id : ℕ) (ids : List ℕ) (s s' s'' : SwitchState)
    → Extends id s s'
    → Covers ids s' s''
    → Covers (id ∷ ids) s s''
Extends-Covers id ids s s' s'' e c = record {
  keyed = λ k. c.keyed (e.keyed k);
  kept = λ k h. c.kept k (e.kept k h);
  every = (c.kept id e.reached, c.every);
}

verify_result-id :
    {World : Type 0} (adapter : StorageAdapter World) (id : ℕ) (old : Option Text) (clone : Text)
    (o : Outcome Bool)
    → (verify_result adapter id old clone o).station_id ≡ id
verify_result-id adapter id old clone (done true) = refl
verify_result-id adapter id old clone (done false) = refl
verify_result-id adapter id old clone (unknown m) = refl
verify_result-id adapter id old clone (failed c m) = refl

module _ {World : Type 0} (adapter : StorageAdapter World) where
  switched :
      (id : ℕ) (old : Option Text) (clone : Text) (s : SwitchState) (o : Outcome (Unit {0}))
      (w : World)
      → Ensures
          (Extends id s)
          (after_switch adapter id old clone (record s { clone_mapping = some clone }) o w).0
  switched id old clone s (done _) w = queued id old clone s (some clone)
  switched id old clone s (unknown m) w =
      recovered-Extends id old s (some clone) (adapter.read_mapping id w).0
  switched id old clone s (failed c m) w = recorded id (failed_result id old m) s (some clone) refl

  cloned :
      (id : ℕ) (old : Option Text) (s : SwitchState) (o : Outcome Text) (w : World)
      → Ensures (Extends id s) (after_clone adapter id old s o w).0
  cloned id old s (done clone) w =
      let switch = adapter.switch_mapping id clone w in switched id old clone s switch.0 switch.1
  cloned id old s (unknown m) w =
      recovered-Extends id old s s.clone_mapping (adapter.read_mapping id w).0
  cloned id old s (failed c m) w = recorded id (failed_result id old m) s s.clone_mapping refl

  read :
      (master : Text) (id : ℕ) (s : SwitchState) (o : Outcome (Option Text)) (w : World)
      → Ensures (Extends id s) (after_read adapter master id s o w).0
  read master id s (done old) w =
      let clone = adapter.create_clone master id w in cloned id old s clone.0 clone.1
  read master id s (unknown m) w = refl
  read master id s (failed c m) w = refl

  station-Extends :
      (master : Text) (id : ℕ) (s : SwitchState) (w : World)
      → Ensures (Extends id s) (switch_station adapter master id s w).0
  unfolding switch_station
  station-Extends master id s w = let o = adapter.read_mapping id w in read master id s o.0 o.1

  pub stations-Covers :
      (master : Text) (ids : List ℕ) (s : SwitchState) (w : World)
      → Ensures (Covers ids s) (switch_stations adapter master ids s w).0
  unfolding switch_stations
  stations-Covers master [] s w = record { keyed = λ k. k; kept = λ k h. h; every = tt }
  stations-Covers master (id ∷ ids) s w =
      Ensures->>= (Extends id s) (Covers (id ∷ ids) s) (switch_station adapter master id s)
        (switch_stations adapter master ids) w (station-Extends master id s w)
        (λ s' w' e.
          Ensures-map (switch_stations adapter master ids s' w').0
            (λ s''. Extends-Covers id ids s s' s'' e) (stations-Covers master ids s' w'))

  -- After the second loop every covered station has a result.
  pub pending-IsKeyed :
      (pending : List (ℕ × Option Text × Text)) (rs : Results) (w : World)
      → IsKeyed rs
      → IsKeyed (verify_pending adapter pending rs w).0
  unfolding verify_pending
  pending-IsKeyed [] rs w k = k
  pending-IsKeyed ((id, old, clone) ∷ rest) rs w k =
      let v = adapter.verify_mapping id clone w in
      pending-IsKeyed rest ((id, verify_result adapter id old clone v.0) ∷ rs) v.1
        (verify_result-id adapter id old clone v.0, k)

  pub pending-reached :
      (pending : List (ℕ × Option Text × Text)) (rs : Results) (w : World) (k : ℕ)
      → (is_some (result_at k rs) || any pending (λ (p : ℕ × Option Text × Text). p.0 == k)) ≡ true
      → is_some (result_at k (verify_pending adapter pending rs w).0) ≡ true
  unfolding verify_pending
  pending-reached [] rs w k h = ground arith
  pending-reached ((id, old, clone) ∷ rest) rs w k h =
      let v = adapter.verify_mapping id clone w in
      pending-reached rest ((id, verify_result adapter id old clone v.0) ∷ rs) v.1 k (ground arith)

  -- The results are read in the order of the stations, and none is missing.
  pub collect-Ensures :
      (rs : Results) (ids : List ℕ) (w : World)
      → IsKeyed rs
      → All (λ id. is_some (result_at id rs) ≡ true) ids
      → Ensures (λ targets. map target_station targets ≡ ids) (collect adapter rs ids w).0
  unfolding collect
  collect-Ensures rs [] w k h = refl
  collect-Ensures rs (id ∷ ids) w k h = elim (Option-cases (result_at id rs)) [
    | inl e ↦ ground arith
    | inr (r, e) ↦
        Ensures->>= (λ b. b ≡ r) (λ targets. map target_station targets ≡ id ∷ ids)
          (or_raise (result_at id rs) missing_key)
          (λ b. collect adapter rs ids >>= λ rest. pure (b ∷ rest)) w
          (or_raise-some (result_at id rs) r missing_key w e)
          (λ b w' eb.
            Ensures->>= (λ rest. map target_station rest ≡ ids)
              (λ targets. map target_station targets ≡ id ∷ ids) (collect adapter rs ids)
              (λ rest. pure (b ∷ rest)) w' (collect-Ensures rs ids w' k h.1)
              (λ rest w'' er. let same = result_at-id id rs r k e in cc))
  ]
