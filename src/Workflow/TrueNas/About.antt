-- ===== src/Workflow/TrueNas/About.antt =====
-- The result of each station, and the plan for it, are about that station (application/truenas_publish.py).
use true_nas_controller.Common.{
  ℕ, ◌≡◌, refl, Bool, true, false, some, List, [], ◌∷◌, arith, map, Text, Bool-cases, Option-cases,
  inl, inr, any, text_eq, codes,
}
use mathlib.Core.Path.{ap₂}
use true_nas_controller.Domain.Station.{Station}
use true_nas_controller.Domain.Publish.{PublishJob, PublishTargetResult}
use true_nas_controller.Workflow.Outcome.{Outcome, done, unknown, failed}
use true_nas_controller.Workflow.TrueNas.Plan.{
  TrueNasDataset, TrueNasTarget, TrueNasTargetExtent, TrueNasExtent, ReadClient, WriteClient,
  StationPlan, build_station_plan, plan_all, resolve_station,
}
use true_nas_controller.Workflow.TrueNas.Switch.{
  Attempt, passed, threw, recovery_result, verify_read_back, after_error, after_read_back,
  after_update, switch_extent, after_clone, after_datasets, apply_station, device_eq,
}
use true_nas_controller.Workflow.TrueNas.{apply_stations, station_ids}
use true_nas_controller.Workflow.Fake.Loops.{target_station}

abbrev pub plan_station : StationPlan → ℕ
plan_station p = p.station.station_id

module _ {World : Type 0} (reads : ReadClient World) (writes : WriteClient World)
    (plan : StationPlan) where
  -- The result is about the station of the plan.
  abbrev IsAbout : PublishTargetResult × World → Type 0
  IsAbout r = r.0.station_id ≡ plan.station.station_id

  decided :
      (c : Bool) (class_name message : Text) (a : Attempt)
      → (recovery_result plan c class_name message a).station_id ≡ plan.station.station_id
  decided c class_name message passed = refl
  decided c class_name message (threw _ _) = refl

  errored :
      (b c : Bool) (class_name message : Text) (w : World)
      → IsAbout (after_error reads writes plan b c class_name message w)
  errored false c class_name message w = refl
  errored true c class_name message w =
      decided c class_name message (verify_read_back reads writes plan w).0

  confirmed_back :
      (b : Bool) (a : Attempt) (w : World) → IsAbout (after_read_back reads writes plan b a w)
  confirmed_back b passed w = refl
  confirmed_back b (threw c m) w = errored b true c m w

  updated-IsAbout :
      (o : Outcome (Unit {0})) (w : World) → IsAbout (after_update reads writes plan o w)
  updated-IsAbout (done _) w =
      let a = verify_read_back reads writes plan w in confirmed_back true a.0 a.1
  updated-IsAbout (unknown m) w = errored true true (codes "UnknownStorageOutcome") m w
  updated-IsAbout (failed c m) w = errored true true c m w

  switched-IsAbout : (w : World) → IsAbout (switch_extent reads writes plan w)
  unfolding switch_extent
  switched-IsAbout w =
      elim (Bool-cases (device_eq plan.mapping.old_device plan.destination_device)) [
        | inl e ↦
            let a = verify_read_back reads writes plan w in rw e (confirmed_back false a.0 a.1)
        | inr e ↦
            let u = writes.update_extent_device plan.mapping.extent_id plan.destination_device w in
            rw e (updated-IsAbout u.0 u.1)
      ]

  cloned-IsAbout :
      (o : Outcome (Unit {0})) (w : World) → IsAbout (after_clone reads writes plan o w)
  cloned-IsAbout (done _) w = switched-IsAbout w
  cloned-IsAbout (unknown m) w = errored false false (codes "UnknownStorageOutcome") m w
  cloned-IsAbout (failed c m) w = errored false false c m w

  listed-IsAbout :
      (ref : Text) (o : Outcome (List TrueNasDataset)) (w : World)
      → IsAbout (after_datasets reads writes ref plan o w)
  listed-IsAbout ref (done datasets) w =
      elim (Bool-cases
        (any datasets (λ (d : TrueNasDataset). text_eq d.name plan.destination_dataset))) [
          | inl e ↦ rw e (switched-IsAbout w)
          | inr e ↦
              let clone = writes.clone_snapshot ref plan.destination_dataset w in
              rw e (cloned-IsAbout clone.0 clone.1)
        ]
  listed-IsAbout ref (unknown m) w = errored false false (codes "UnknownStorageOutcome") m w
  listed-IsAbout ref (failed c m) w = errored false false c m w

  station-IsAbout : (ref : Text) (w : World) → IsAbout (apply_station reads writes ref plan w)
  unfolding apply_station
  station-IsAbout ref w = let d = reads.query_datasets w in listed-IsAbout ref d.0 d.1

pub stations_about :
    {World : Type 0} (reads : ReadClient World) (writes : WriteClient World) (ref : Text)
    (plans : List StationPlan) (w : World)
    → map target_station (apply_stations reads writes ref plans w).0 ≡ map plan_station plans
unfolding apply_stations
stations_about reads writes ref [] w = refl
stations_about reads writes ref (p ∷ ps) w =
    let first = apply_station reads writes ref p w in
    let one = station-IsAbout reads writes p ref w in
    let rest = stations_about reads writes ref ps first.1 in ap₂ (λ a b. a ∷ b) one rest

-- The plans follow the stations.
pub plans_about :
    (job : PublishJob) (targets : List TrueNasTarget) (associations : List TrueNasTargetExtent)
    (extents : List TrueNasExtent) (stations : List Station) (plans : List StationPlan)
    → plan_all job targets associations extents stations ≡ some plans
    → map plan_station plans ≡ station_ids stations
unfolding build_station_plan
plans_about job ts links es [] plans h = ground arith
plans_about job ts links es (s ∷ ss) plans h = elim (Option-cases (resolve_station ts links es s)) [
  | inl e ↦ ground arith
  | inr (m, e) ↦ elim (Option-cases (plan_all job ts links es ss)) [
    | inl f ↦ ground arith
    | inr (ps, f) ↦ ground (arith, plans_about job ts links es ss ps f)
  ]
]
