-- ===== src/Application/Mappings/Keys.antt =====
-- The mappings of the stations are a dict: no station stands twice (application/datasets.py).
use mathlib.Core.Path.{subst}
use true_nas_controller.Common.{
  ℕ, ◌≡◌, refl, Bool-cases, false, Option, none, some, List, [], ◌∷◌, Text, arith, lookup, put, map,
  ◌==◌, inl, inr,
}
use true_nas_controller.Domain.Station.{Station}
use true_nas_controller.Workflow.TrueNas.Plan.{
  TrueNasTarget, TrueNasExtent, TrueNasTargetExtent, TrueNasDataset, ReadClient,
}
use true_nas_controller.Workflow.Outcome.{
  Outcome, done, unknown, failed, Run, returned, raised, Io, ◌>>=◌, call, pure,
}
use true_nas_controller.Workflow.Outcome.Ensures.{Ensures, Ensures->>=, Ensures-call}
use true_nas_controller.Store.Session.{Result, ok, err, dataset_storage_sync, true_nas_client}
use true_nas_controller.Application.Mappings.{
  map_from, map_station_mappings, live_path, canonical_mapping, LiveState, query_live,
  canonical_dataset, read_live_state,
}

-- No key stands twice.
abbrev pub DistinctKeys : {V : Type 0} → List (ℕ × V) → Type 0
DistinctKeys [] = Unit
DistinctKeys ((k, v) ∷ items) = (lookup k items ≡ none) × DistinctKeys items

lookup-put_other :
    {V : Type 0} (k key : ℕ) (v : V) (items : List (ℕ × V))
    → (key == k) ≡ false
    → lookup k items ≡ none
    → lookup k (put key v items) ≡ none
lookup-put_other k key v [] e h = rw e refl
lookup-put_other k key v ((k', v') ∷ items) e h = ground (arith, lookup-put_other k key v items e)

DistinctKeys-put :
    {V : Type 0} (key : ℕ) (v : V) (items : List (ℕ × V))
    → DistinctKeys items
    → DistinctKeys (put key v items)
DistinctKeys-put key v [] h = (refl, tt)
DistinctKeys-put key v ((k, v') ∷ items) h = elim (Bool-cases (k == key)) [
  | inl e ↦ rw e h
  | inr e ↦
      rw e (lookup-put_other k key v items (ground arith) h.0, DistinctKeys-put key v items h.1)
]

module _ (targets : List TrueNasTarget) (associations : List TrueNasTargetExtent)
    (extents : List TrueNasExtent) where
  put_path :
      (id : ℕ) (path : Option Text) (items : List (ℕ × Text))
      → DistinctKeys items
      → DistinctKeys
          (elim path [ none ↦ items | some path ↦ put id (canonical_mapping path) items ])
  put_path id none items h = h
  put_path id (some path) items h = DistinctKeys-put id (canonical_mapping path) items h

  map_from-DistinctKeys :
      (stations : List Station) (items : List (ℕ × Text))
      → DistinctKeys items
      → DistinctKeys (map_from targets associations extents stations items)
  map_from-DistinctKeys [] items h = h
  map_from-DistinctKeys (s ∷ stations) items h =
      map_from-DistinctKeys stations _
        (put_path s.station_id (live_path targets associations extents s) items h)

  pub map_station_mappings-DistinctKeys :
      (stations : List Station)
      → DistinctKeys (map_station_mappings targets associations extents stations)
  unfolding map_station_mappings
  map_station_mappings-DistinctKeys stations = map_from-DistinctKeys stations [] tt

module _ {World : Type 0} (client : ReadClient World) (close : World → Outcome (Unit {0}) × World)
    (stations : List Station) where
  abbrev Keyed : LiveState → Type 0
  Keyed live = DistinctKeys live.mappings

  -- A query of the storage before more of them.
  queried :
      {A : Type 0} (query : World → Outcome A × World) (later : A → Io World LiveState) (w : World)
      → ((a : A) (w' : World) → Ensures Keyed (later a w').0)
      → Ensures Keyed ((call query >>= later) w).0
  queried query later w h =
      Ensures->>= (λ _. Unit {0}) Keyed (call query) later w (Ensures-call query w)
        (λ a w' _. h a w')

  -- The queries that are left after the first ones.
  abbrev last :
      List TrueNasDataset → List TrueNasTarget → List TrueNasTargetExtent → Io World LiveState
  last datasets targets associations = call client.query_extents >>= λ extents. pure (record {
    mappings = map_station_mappings targets associations extents stations;
    dataset_names = map (λ (d : TrueNasDataset). canonical_dataset d.name) datasets;
  })

  abbrev last_two : List TrueNasDataset → List TrueNasTarget → Io World LiveState
  last_two datasets targets =
      call client.query_target_extents >>= λ associations. last datasets targets associations

  abbrev last_three : List TrueNasDataset → Io World LiveState
  last_three datasets = call client.query_targets >>= λ targets. last_two datasets targets

  query_live-Keyed : (w : World) → Ensures Keyed (query_live client close stations w).0
  query_live-Keyed w = queried client.query_datasets last_three w (λ datasets w₁.
      queried client.query_targets (last_two datasets) w₁ (λ targets w₂.
        queried client.query_target_extents (last datasets targets) w₂ (λ associations w₃.
          queried client.query_extents
            (λ extents. pure (record {
              mappings = map_station_mappings targets associations extents stations;
              dataset_names = map (λ (d : TrueNasDataset). canonical_dataset d.name) datasets;
            }))
            w₃
            (λ extents w₄.
              map_station_mappings-DistinctKeys targets associations extents stations))))

  closed :
      (r : Run LiveState) (o : Outcome (Unit {0})) (live : LiveState)
      → Ensures Keyed r
      → (elim o as (λ _. Result LiveState) [
        | done _ ↦ elim r [ returned live ↦ ok live | raised _ ↦ err dataset_storage_sync ]
        | _ ↦ err true_nas_client
      ])
        ≡ ok live
      → Keyed live
  closed (returned l) (done _) live k h = let same : l ≡ live = cc in subst Keyed same k
  closed (raised e) (done _) live k h = cc
  closed r (unknown _) live k h = cc
  closed r (failed _ _) live k h = cc

  -- The live state that is read has each station once.
  pub read_live_state-DistinctKeys :
      (w : World) (live : LiveState)
      → (read_live_state client close stations w).0 ≡ ok live
      → DistinctKeys live.mappings
  unfolding read_live_state
  read_live_state-DistinctKeys w live h =
      let read = query_live client close stations w in
      closed read.0 (close read.1).0 live (query_live-Keyed w) h
