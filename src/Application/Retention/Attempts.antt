-- ===== src/Application/Retention/Attempts.antt =====
-- The attempts of a pass of the clean-up, one after the other (application/dataset_cleanup.py).
use mathlib.Core.Path.{subst}
use true_nas_controller.Common.{
  ℕ, ◌+◌, ◌≡◌, refl, sym, ap, ◌∙◌, Bool, true, false, Option, none, some, List, [], ◌∷◌, Text,
  codes, arith, take, join_words, update_if, find_first-test, ◌==◌, if◌then◌else◌,
}
use true_nas_controller.Domain.Publish.{PublishArtifact, deleted, cleanup_failed}
use true_nas_controller.Store.Database.{Database}
use true_nas_controller.Store.Session.{Result, ok, err, ◌>>◌, commit, unit_of_work}
use true_nas_controller.Store.Session.Committed.{unit_of_work-commit}
use true_nas_controller.Store.Artifacts.{
  find_artifact, write_artifact, mark_deleted, mark_cleanup_failed,
}
use true_nas_controller.Workflow.Outcome.{Outcome, done, unknown, failed}
use true_nas_controller.Application.Retention.{
  remember, counted, delete_all, safe_error_detail, remember_deleted, remember_failed,
}

find_artifact-id :
    (id : ℕ) (db : Database) (row : PublishArtifact) → find_artifact id db ≡ some row → row.id ≡ id
find_artifact-id id db row h =
    let test = find_first-test (λ (r : PublishArtifact). r.id == id) db.artifacts row h in
    ground arith

found_row :
    (f : PublishArtifact → PublishArtifact) (id : ℕ) (o : Option PublishArtifact)
    (db db' : Database)
    → ((row : PublishArtifact) → o ≡ some row → row.id ≡ id)
    → unit_of_work (write_artifact f o >> commit) db ≡ (ok tt, db')
    → db'.artifacts ≡ update_if (λ (r : PublishArtifact). r.id == id) f db.artifacts
unfolding unit_of_work
found_row f id none db db' k h = cc
found_row f id (some row) db db' k h =
    let left = unit_of_work-commit (write_artifact f (some row)) db _ db' refl h in
    ap (λ (d : Database). d.artifacts) (sym left)
    ∙ ap (λ i. update_if (λ (r : PublishArtifact). r.id == i) f db.artifacts) (k row refl)

-- The row of an artifact after the attempt to delete its data set.
abbrev pub row_after : ℕ → Outcome (Unit {0}) → PublishArtifact → PublishArtifact
row_after now (done _) row = record row {
  status = deleted;
  is_current = false;
  deleted_at = some now;
  last_error = none;
}
row_after now (unknown message) row = record row {
  status = cleanup_failed;
  last_error =
      some (take 1000 (join_words (safe_error_detail (codes "UnknownStorageOutcome") message)));
}
row_after now (failed class_name message) row = record row {
  status = cleanup_failed;
  last_error = some (take 1000 (join_words (safe_error_detail class_name message)));
}

abbrev pub is_deletion : Outcome (Unit {0}) → Bool
is_deletion (done _) = true
is_deletion _ = false

-- How many succeeded, and how many did not.
abbrev pub count_deleted : Bool → List (Outcome (Unit {0})) → ℕ
count_deleted kind [] = 0
count_deleted kind (o ∷ os) =
    (if is_deletion o then (if kind then 1 else 0) else if kind then 0 else 1)
    + count_deleted kind os

module _ {World : Type 0} (delete_dataset : Text → World → Outcome (Unit {0}) × World)
    (now : ℕ) where
  recorded :
      (a : PublishArtifact) (o : Outcome (Unit {0})) (db db' : Database)
      → remember delete_dataset a now o db ≡ (ok tt, db')
      → db'.artifacts
        ≡ update_if (λ (r : PublishArtifact). r.id == a.id) (row_after now o) db.artifacts
  unfolding remember_deleted remember_failed mark_deleted mark_cleanup_failed unit_of_work
  recorded a (done _) db db' h =
      found_row (row_after now (done tt)) a.id (find_artifact a.id db) db db'
        (find_artifact-id a.id db) h
  recorded a (unknown m) db db' h =
      found_row (row_after now (unknown m)) a.id (find_artifact a.id db) db db'
        (find_artifact-id a.id db) h
  recorded a (failed c m) db db' h =
      found_row (row_after now (failed c m)) a.id (find_artifact a.id db) db db'
        (find_artifact-id a.id db) h

  -- The deletions in order: the outcomes, and the world and the rows that they leave.
  abbrev pub outcomes : List PublishArtifact → World → List (Outcome (Unit {0}))
  outcomes [] w = []
  outcomes (a ∷ artifacts) w =
      let (o, w') = delete_dataset a.dataset_name w in o ∷ outcomes artifacts w'

  abbrev pub world_after : List PublishArtifact → World → World
  world_after [] w = w
  world_after (a ∷ artifacts) w = world_after artifacts (delete_dataset a.dataset_name w).1

  abbrev pub rows_after : List PublishArtifact → World → List PublishArtifact → List PublishArtifact
  rows_after [] w rows = rows
  rows_after (a ∷ artifacts) w rows =
      let (o, w') = delete_dataset a.dataset_name w in
      rows_after artifacts w'
        (update_if (λ (r : PublishArtifact). r.id == a.id) (row_after now o) rows)

  -- What is left when the artifacts have been attempted.
  pub record Settles (artifacts : List PublishArtifact) (w : World) (rows : List PublishArtifact)
      (counts result : ℕ × ℕ) (w' : World) (db' : Database) : Type 0 where
    pub deletions : result.0 ≡ counts.0 + count_deleted true (outcomes artifacts w)
    pub failures : result.1 ≡ counts.1 + count_deleted false (outcomes artifacts w)
    pub world : w' ≡ world_after artifacts w
    pub table : db'.artifacts ≡ rows_after artifacts w rows

  next_artifact :
      (a : PublishArtifact) (artifacts : List PublishArtifact) (w : World)
      (rows : List PublishArtifact)
      → (counts result : ℕ × ℕ) (w' : World) (db' : Database) (o : Outcome (Unit {0}))
      → (delete_dataset a.dataset_name w).0 ≡ o
      → Settles artifacts
          (delete_dataset a.dataset_name w).1
          (update_if
            (λ (r : PublishArtifact). r.id == a.id)
            (row_after now (delete_dataset a.dataset_name w).0)
            rows)
          (counted delete_dataset o counts)
          result
          w'
          db'
      → Settles (a ∷ artifacts) w rows counts result w' db'
  next_artifact a artifacts w rows (d, f) result w' db' (done _) e h = record {
    deletions = rw e (let x = h.deletions in omega arith);
    failures = rw e (let x = h.failures in omega arith);
    world = h.world;
    table = h.table;
  }
  next_artifact a artifacts w rows (d, f) result w' db' (unknown m) e h = record {
    deletions = rw e (let x = h.deletions in omega arith);
    failures = rw e (let x = h.failures in omega arith);
    world = h.world;
    table = h.table;
  }
  next_artifact a artifacts w rows (d, f) result w' db' (failed c m) e h = record {
    deletions = rw e (let x = h.deletions in omega arith);
    failures = rw e (let x = h.failures in omega arith);
    world = h.world;
    table = h.table;
  }

  after_record :
      (a : PublishArtifact) (artifacts : List PublishArtifact) (w w' : World) (db db' : Database)
      → (counts result : ℕ × ℕ)
      → let called = delete_dataset a.dataset_name w in
        (first : Result (Unit {0}) × Database)
        → remember delete_dataset a now called.0 db ≡ first
        → ((db₁ : Database)
            → delete_all delete_dataset now artifacts
                (counted delete_dataset called.0 counts)
                called.1
                db₁
              ≡ (ok result, w', db')
            → Settles artifacts called.1 db₁.artifacts
                (counted delete_dataset called.0 counts)
                result
                w'
                db')
        → let (x, db₁) = first in
          (elim x as (λ _. Result (ℕ × ℕ) × World × Database) [
            | err e ↦ (err e, called.1, db₁)
            | ok _ ↦
                delete_all delete_dataset now artifacts
                  (counted delete_dataset called.0 counts)
                  called.1
                  db₁
          ])
            ≡ (ok result, w', db')
          → Settles (a ∷ artifacts) w db.artifacts counts result w' db'
  after_record a artifacts w w' db db' counts result (err x, db₁) f k h = cc
  after_record a artifacts w w' db db' counts result (ok _, db₁) f k h =
      let called = delete_dataset a.dataset_name w in
      next_artifact a artifacts w db.artifacts counts result w' db' called.0 refl (
        subst
          (λ rows.
            Settles artifacts called.1 rows (counted delete_dataset called.0 counts) result w' db')
          (recorded a called.0 db db₁ f) (k db₁ h))

  nothing_left :
      (w w' : World) (counts result : ℕ × ℕ) (db db' : Database)
      → delete_all delete_dataset now [] counts w db ≡ (ok result, w', db')
      → Settles [] w db.artifacts counts result w' db'
  unfolding delete_all
  nothing_left w w' counts result db db' h =
      let same : counts ≡ result = cc in
      let d = ap (λ (x : ℕ × ℕ). x.0) same in
      let f = ap (λ (x : ℕ × ℕ). x.1) same in
      record { deletions = omega arith; failures = omega arith; world = cc; table = cc }

  pub delete_all-Settles :
      (artifacts : List PublishArtifact) (counts result : ℕ × ℕ) (w w' : World) (db db' : Database)
      → delete_all delete_dataset now artifacts counts w db ≡ (ok result, w', db')
      → Settles artifacts w db.artifacts counts result w' db'
  unfolding delete_all
  delete_all-Settles [] counts result w w' db db' h = nothing_left w w' counts result db db' h
  delete_all-Settles (a ∷ artifacts) counts result w w' db db' h =
      let called = delete_dataset a.dataset_name w in
      after_record a artifacts w w' db db' counts result (remember delete_dataset a now called.0 db)
        refl
        (λ db₁ k.
          delete_all-Settles artifacts (counted delete_dataset called.0 counts) result called.1 w'
            db₁ db' k)
        h
