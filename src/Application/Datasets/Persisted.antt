-- ===== src/Application/Datasets/Persisted.antt =====
-- A listing shows the artifacts that it has written (application/datasets.py).
use true_nas_controller.Common.{
  ℕ, ◌≡◌, refl, sym, ap, ◌∙◌, true, not, ◌||◌, Option, none, List, [], ◌∷◌, map, Text, All, arith,
  keep_if, order_by, order_by-map, lookup,
}
use true_nas_controller.Domain.Publish.{PublishArtifact}
use true_nas_controller.Store.Database.{Database}
use true_nas_controller.Store.Session.{ok, Session}
use true_nas_controller.Store.Session.Committed.{session, unit_of_work-commit}
use true_nas_controller.Store.Artifacts.{
  is_deleted, all_artifacts, newest_artifact_first, set_current_artifact,
}
use true_nas_controller.Store.Artifacts.Settled.{Settled}
use true_nas_controller.Application.Mappings.{reconciled, current_ids, reconcile_artifacts}
use true_nas_controller.Application.Mappings.Keys.{DistinctKeys}
use true_nas_controller.Application.Datasets.{set_current_artifacts, persist_current_state}
use true_nas_controller.Application.Datasets.Reconciled.{replay, replay_is_map}

module _ (artifacts : List PublishArtifact) where
  lookup-current_ids :
      (id : ℕ) (mappings : List (ℕ × Text))
      → lookup id mappings ≡ none
      → lookup id (current_ids artifacts mappings) ≡ none
  lookup-current_ids id [] h = refl
  lookup-current_ids id ((k, v) ∷ mappings) h = ground (arith, lookup-current_ids id mappings)

  current_ids-DistinctKeys :
      (mappings : List (ℕ × Text))
      → DistinctKeys mappings
      → DistinctKeys (current_ids artifacts mappings)
  current_ids-DistinctKeys [] d = tt
  current_ids-DistinctKeys ((k, v) ∷ mappings) d =
      (lookup-current_ids k mappings d.0, current_ids-DistinctKeys mappings d.1)

  -- The loop of the unit of work is the replay of its passes.
  set_current_artifacts-replay :
      (mappings : List (ℕ × Text)) (s : Session)
      → set_current_artifacts artifacts mappings s ≡ (
        ok tt,
        record s {
          working = record s.working {
            artifacts = replay (current_ids artifacts mappings) s.working.artifacts;
          };
        },
      )
  unfolding set_current_artifacts set_current_artifact
  set_current_artifacts-replay [] s = refl
  set_current_artifacts-replay ((id, mapping) ∷ mappings) s =
      set_current_artifacts-replay mappings _

  persisted_rows :
      (mappings : List (ℕ × Text)) (db db' : Database)
      → All Settled db.artifacts
      → DistinctKeys mappings
      → persist_current_state artifacts mappings db ≡ (ok tt, db')
      → db'.artifacts ≡ map (reconciled (current_ids artifacts mappings)) db.artifacts
  unfolding persist_current_state
  persisted_rows [] db db' h d e =
      let kept : db'.artifacts ≡ db.artifacts = cc in kept ∙ replay_is_map [] db.artifacts tt h
  persisted_rows (m ∷ mappings) db db' h d e =
      let writes = set_current_artifacts artifacts (m ∷ mappings) in
      let written = set_current_artifacts-replay (m ∷ mappings) (session db) in
      sym (ap (λ (x : Database). x.artifacts) (unit_of_work-commit writes db _ db' written e))
      ∙ replay_is_map (current_ids artifacts (m ∷ mappings)) db.artifacts
          (current_ids-DistinctKeys (m ∷ mappings) d) h

-- The order of the rows does not see what the reconciliation changes.
reconciled-created_at :
    (ids : List (ℕ × Option ℕ)) (a : PublishArtifact) → (reconciled ids a).created_at ≡ a.created_at
reconciled-created_at ids a = ground arith

reconciled-station_id :
    (ids : List (ℕ × Option ℕ)) (a : PublishArtifact) → (reconciled ids a).station_id ≡ a.station_id
reconciled-station_id ids a = ground arith

reconciled_order :
    (ids : List (ℕ × Option ℕ)) (a b : PublishArtifact)
    → newest_artifact_first (reconciled ids a) (reconciled ids b) ≡ newest_artifact_first a b
reconciled_order ids a b =
    rw
      (
        reconciled-created_at ids a,
        reconciled-created_at ids b,
        reconciled-station_id ids a,
        reconciled-station_id ids b,
      )
      refl

all_artifacts_true :
    (rows : List PublishArtifact)
    → keep_if (λ (a : PublishArtifact). true || not (is_deleted a.status)) rows ≡ rows
all_artifacts_true [] = refl
all_artifacts_true (a ∷ rows) = ap (λ rest. a ∷ rest) (all_artifacts_true rows)

-- The artifacts after the mappings are written are the reconciled ones, in the same order.
pub persist_current_state-reconciles :
    (mappings : List (ℕ × Text)) (db db' : Database)
    → All Settled db.artifacts
    → DistinctKeys mappings
    → persist_current_state (all_artifacts true db.artifacts) mappings db ≡ (ok tt, db')
    → all_artifacts true db'.artifacts
      ≡ reconcile_artifacts (all_artifacts true db.artifacts) mappings
unfolding reconcile_artifacts
persist_current_state-reconciles mappings db db' h d e =
    let listed = all_artifacts true db.artifacts in
    let ids = current_ids listed mappings in
    let rows = persisted_rows listed mappings db db' h d e in
    let order = λ (xs : List PublishArtifact). order_by newest_artifact_first xs in
    ap order (all_artifacts_true db'.artifacts ∙ rows)
    ∙ order_by-map newest_artifact_first (reconciled ids) db.artifacts (reconciled_order ids)
    ∙ ap (λ xs. map (reconciled ids) (order xs)) (sym (all_artifacts_true db.artifacts))
