-- ===== src/Workflow/TrueNas/Switch/Safety.antt =====
-- What the result of one station says of the storage (application/truenas_publish.py).
use true_nas_controller.Common.{
  ◌≡◌, refl, sym, ap, ◌∙◌, Bool, true, false, List, arith, Text, any, text_eq, codes, Bool-cases,
  inl, inr,
}
use true_nas_controller.Domain.Publish.{PublishTargetResult, verified, error}
use true_nas_controller.Workflow.Outcome.{Outcome, done, unknown, failed}
use true_nas_controller.Workflow.TrueNas.Plan.{
  TrueNasDataset, TrueNasExtent, TrueNasTargetExtent, ReadClient, WriteClient, StationPlan,
}
use true_nas_controller.Workflow.TrueNas.Switch.{
  Attempt, passed, threw, recovery_result, same_association, points_to_clone, check_extents,
  check_associations, verify_read_back, after_error, after_read_back, after_update, switch_extent,
  after_clone, after_datasets, apply_station, device_eq,
}

-- The documented behaviour of the API that the safety of a switch rests on: a listing of extents or
-- associations is the state at that moment, listings change neither, and a clone leaves the extents.
pub record ApiLaws {World : Type 0} (reads : ReadClient World) (writes : WriteClient World)
    (extents_of : World → List TrueNasExtent) (associations_of : World → List TrueNasTargetExtent)
    : Type 0 where
  pub listed_extents :
      (w : World) (l : List TrueNasExtent) → (reads.query_extents w).0 ≡ done l → l ≡ extents_of w
  pub listed_associations :
      (w : World) (l : List TrueNasTargetExtent)
      → (reads.query_target_extents w).0 ≡ done l
      → l ≡ associations_of w
  pub extents_kept : (w : World) → extents_of (reads.query_extents w).1 ≡ extents_of w
  pub extents_kept_by_associations :
      (w : World) → extents_of (reads.query_target_extents w).1 ≡ extents_of w
  pub extents_kept_by_datasets : (w : World) → extents_of (reads.query_datasets w).1 ≡ extents_of w
  pub extents_kept_by_clone :
      (s d : Text) (w : World) → extents_of (writes.clone_snapshot s d w).1 ≡ extents_of w
  pub associations_kept :
      (w : World) → associations_of (reads.query_extents w).1 ≡ associations_of w
  pub associations_kept_by_associations :
      (w : World) → associations_of (reads.query_target_extents w).1 ≡ associations_of w

module _ {World : Type 0} (reads : ReadClient World) (writes : WriteClient World)
    (extents_of : World → List TrueNasExtent) (associations_of : World → List TrueNasTargetExtent)
    (laws : ApiLaws reads writes extents_of associations_of) (plan : StationPlan) where
  -- The extent points to the clone, over the association that was planned for.
  abbrev pub Confirmed : World → Type 0
  Confirmed w =
      (same_association plan (associations_of w) ≡ true)
      × (points_to_clone plan (extents_of w) ≡ true)

  -- What a result obtained from the world `w₀` says of the world that it leaves.
  abbrev pub Truthful : World → PublishTargetResult × World → Type 0
  Truthful w₀ r =
      (r.0.status ≡ verified → Confirmed r.1)
      × (r.0.status ≡ error → extents_of r.1 ≡ extents_of w₀)
      × (r.0.storage_created ≡ false → r.0.status ≡ error)

  check_extents_passed :
      (w : World) (o : Outcome (List TrueNasExtent))
      → (reads.query_extents w).0 ≡ o
      → check_extents reads writes plan o ≡ passed
      → points_to_clone plan (extents_of w) ≡ true
  check_extents_passed w (done l) e h = rw (← laws.listed_extents w l e) (ground arith)
  check_extents_passed w (unknown m) e h = cc
  check_extents_passed w (failed c m) e h = cc

  -- The listing of the associations matches the plan: the extents decide.
  confirm_extents :
      (w : World)
      → same_association plan (associations_of w) ≡ true
      → check_extents reads writes plan (reads.query_extents w).0 ≡ passed
      → Confirmed (reads.query_extents w).1
  confirm_extents w same h = (
    ap (same_association plan) (laws.associations_kept w) ∙ same,
    ap (points_to_clone plan) (laws.extents_kept w)
        ∙ check_extents_passed w (reads.query_extents w).0 refl h,
  )

  confirm_associations :
      (w : World) (o : Outcome (List TrueNasTargetExtent))
      → (reads.query_target_extents w).0 ≡ o
      → let after = check_associations reads writes plan o (reads.query_target_extents w).1 in
        after.0 ≡ passed → Confirmed after.1
  confirm_associations w (done l) e = elim (Bool-cases (same_association plan l)) [
    | inl s ↦ rw s (
        confirm_extents (reads.query_target_extents w).1 (
          ap (same_association plan)
            (laws.associations_kept_by_associations w ∙ sym (laws.listed_associations w l e))
          ∙ s))
    | inr s ↦ rw s (λ h. cc)
  ]
  confirm_associations w (unknown m) e = λ h. cc
  confirm_associations w (failed c m) e = λ h. cc

  -- A read-back that passes has seen the world that it leaves.
  verify_passed :
      (w : World)
      → (verify_read_back reads writes plan w).0 ≡ passed
      → Confirmed (verify_read_back reads writes plan w).1
  unfolding verify_read_back
  verify_passed w = confirm_associations w (reads.query_target_extents w).0 refl

  associations_keep :
      (o : Outcome (List TrueNasTargetExtent)) (w : World)
      → extents_of (check_associations reads writes plan o w).1 ≡ extents_of w
  associations_keep (done l) w = elim (Bool-cases (same_association plan l)) [
    | inl s ↦ rw s (laws.extents_kept w)
    | inr s ↦ rw s
  ]
  associations_keep (unknown m) w = refl
  associations_keep (failed c m) w = refl

  verify_keeps : (w : World) → extents_of (verify_read_back reads writes plan w).1 ≡ extents_of w
  unfolding verify_read_back
  verify_keeps w =
      associations_keep (reads.query_target_extents w).0 (reads.query_target_extents w).1
      ∙ laws.extents_kept_by_associations w

  recovered_from :
      (w₀ w : World) (c m : Text) (a : Attempt)
      → (a ≡ passed → Confirmed w)
      → Truthful w₀ (recovery_result plan true c m a, w)
  recovered_from w₀ w c m passed h = (λ _. h refl, λ e. cc, λ e. cc)
  recovered_from w₀ w c m (threw _ _) h = (λ e. cc, λ e. cc, λ e. cc)

  -- The result after a write that raised: confirmed by the read-back, or reported for recovery.
  recovered :
      (w₀ w : World) (c m : Text) → Truthful w₀ (after_error reads writes plan true true c m w)
  recovered w₀ w c m =
      let back = verify_read_back reads writes plan w in
      recovered_from w₀ back.1 c m back.0 (verify_passed w)

  failed_before :
      (w₀ w : World) (created : Bool) (c m : Text)
      → extents_of w ≡ extents_of w₀
      → Truthful w₀ (after_error reads writes plan false created c m w)
  failed_before w₀ w created c m kept = (λ e. cc, λ _. kept, λ _. refl)

  read_back_unwritten :
      (w₀ w : World) (a : Attempt)
      → extents_of w ≡ extents_of w₀
      → (a ≡ passed → Confirmed w)
      → Truthful w₀ (after_read_back reads writes plan false a w)
  read_back_unwritten w₀ w passed kept h = (λ _. h refl, λ e. cc, λ e. cc)
  read_back_unwritten w₀ w (threw c m) kept h = failed_before w₀ w true c m kept

  read_back_written :
      (w₀ w : World) (a : Attempt)
      → (a ≡ passed → Confirmed w)
      → Truthful w₀ (after_read_back reads writes plan true a w)
  read_back_written w₀ w passed h = (λ _. h refl, λ e. cc, λ e. cc)
  read_back_written w₀ w (threw c m) h = recovered w₀ w c m

  updated :
      (w₀ w : World) (o : Outcome (Unit {0})) → Truthful w₀ (after_update reads writes plan o w)
  updated w₀ w (done _) =
      let back = verify_read_back reads writes plan w in
      read_back_written w₀ back.1 back.0 (verify_passed w)
  updated w₀ w (unknown m) = recovered w₀ w (codes "UnknownStorageOutcome") m
  updated w₀ w (failed c m) = recovered w₀ w c m

  switched :
      (w₀ w : World)
      → extents_of w ≡ extents_of w₀
      → Truthful w₀ (switch_extent reads writes plan w)
  unfolding switch_extent
  switched w₀ w kept =
      elim (Bool-cases (device_eq plan.mapping.old_device plan.destination_device)) [
        | inl e ↦
            let back = verify_read_back reads writes plan w in
            rw e (read_back_unwritten w₀ back.1 back.0 (verify_keeps w ∙ kept) (verify_passed w))
        | inr e ↦
            let update =
              writes.update_extent_device plan.mapping.extent_id plan.destination_device w in
            rw e (updated w₀ update.1 update.0)
      ]

  cloned :
      (w₀ w : World) (o : Outcome (Unit {0}))
      → extents_of w ≡ extents_of w₀
      → Truthful w₀ (after_clone reads writes plan o w)
  cloned w₀ w (done _) kept = switched w₀ w kept
  cloned w₀ w (unknown m) kept = failed_before w₀ w false (codes "UnknownStorageOutcome") m kept
  cloned w₀ w (failed c m) kept = failed_before w₀ w false c m kept

  listed :
      (ref : Text) (w₀ w : World) (o : Outcome (List TrueNasDataset))
      → extents_of w ≡ extents_of w₀
      → Truthful w₀ (after_datasets reads writes ref plan o w)
  listed ref w₀ w (done datasets) kept =
      elim (Bool-cases
        (any datasets (λ (d : TrueNasDataset). text_eq d.name plan.destination_dataset))) [
          | inl e ↦ rw e (switched w₀ w kept)
          | inr e ↦
              let clone = writes.clone_snapshot ref plan.destination_dataset w in
              rw e (
                cloned w₀ clone.1 clone.0
                  (laws.extents_kept_by_clone ref plan.destination_dataset w ∙ kept))
        ]
  listed ref w₀ w (unknown m) kept = failed_before w₀ w false (codes "UnknownStorageOutcome") m kept
  listed ref w₀ w (failed c m) kept = failed_before w₀ w false c m kept

  -- If the API lists what is there and listing and cloning leave the extents alone, then a station
  -- reported `verified` has its extent on the clone, over the planned association; one reported `error`
  -- has left every extent as it was; and a result without new storage is always an `error`.
  pub apply_station-Truthful :
      (snapshot_ref : Text) (w : World)
      → Truthful w (apply_station reads writes snapshot_ref plan w)
  unfolding apply_station
  apply_station-Truthful snapshot_ref w =
      listed snapshot_ref w (reads.query_datasets w).1 (reads.query_datasets w).0
        (laws.extents_kept_by_datasets w)
