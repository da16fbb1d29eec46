-- ===== src/Application/Retention/Safety.antt =====
-- What a pass of the clean-up deletes (application/dataset_cleanup.py).
use mathlib.Core.Path.{subst}
use true_nas_controller.Common.{
  ℕ, ◌-◌, ◌*◌, ◌≡◌, refl, Bool, true, false, not, ◌&&◌, Option, none, some, List, [], ◌∷◌, Text,
  text_eq, text_eq_self, arith, All, All-map, All-keep_if, All-keep_if_where, All-take,
  All-order_by, any, elem, keep_if, take, order_by, ltb, leb, Bool-cases, inl, inr, if◌then◌else◌,
}
use true_nas_controller.Domain.Publish.{PublishArtifact}
use true_nas_controller.Store.Database.{Database}
use true_nas_controller.Store.Session.{Result, ok, err, unit_of_work, overflow_error}
use true_nas_controller.Store.Artifacts.{
  is_removable, is_candidate, list_by_ids, list_cleanup_candidates,
}
use true_nas_controller.Workflow.Outcome.{Outcome}
use true_nas_controller.Application.Retention.{
  CleanupConfig, may_remove, candidates_in, candidates, remember, counted, delete_all, clean,
  clean_datasets, day,
}

abbrev is_unused : PublishArtifact → Bool
is_unused a = not a.is_current && is_removable a.status

-- The data set is recorded for an artifact that is out of use.
abbrev pub is_out_of_use : List PublishArtifact → Text → Bool
is_out_of_use rows name =
    any rows (λ (a : PublishArtifact). text_eq a.dataset_name name && is_unused a)

abbrev OutOfUse : List PublishArtifact → PublishArtifact → Type 0
OutOfUse rows a = is_out_of_use rows a.dataset_name ≡ true

abbrev Covered : List PublishArtifact → PublishArtifact → Type 0
Covered rows a = is_unused a ≡ true → OutOfUse rows a

covered : (rows : List PublishArtifact) → All (Covered rows) rows
covered [] = tt
covered (row ∷ rows) = (
  λ h. let e = text_eq_self row.dataset_name in rw e (rw h refl),
  All-map (Covered rows) (Covered (row ∷ rows)) rows (λ a k h. let e = k h in ground arith)
      (covered rows),
)

module _ {World : Type 0} (delete_dataset : Text → World → Outcome (Unit {0}) × World)
    (I : World → Type 0) (rows : List PublishArtifact)
    (keep : (name : Text) (w : World)
      → is_out_of_use rows name ≡ true
      → I w
      → I (delete_dataset name w).1) where
  after_delete :
      (now : ℕ) (artifacts : List PublishArtifact) (counts : ℕ × ℕ) (w : World)
      → (r : Result (Unit {0}) × Database) → I w
      → ((db : Database) → I (delete_all delete_dataset now artifacts counts w db).1)
      → let (o, db') = r in
        I
          (elim o as (λ _. Result (ℕ × ℕ) × World × Database) [
            | err e ↦ (err e, w, db')
            | ok _ ↦ delete_all delete_dataset now artifacts counts w db'
          ]).1
  after_delete now artifacts counts w (err e, db) h k = h
  after_delete now artifacts counts w (ok _, db) h k = k db

  -- What every permitted deletion keeps of the storage, the loop keeps.
  delete_all-keeps :
      (now : ℕ) (artifacts : List PublishArtifact) (counts : ℕ × ℕ) (w : World) (db : Database)
      → All (OutOfUse rows) artifacts
      → I w
      → I (delete_all delete_dataset now artifacts counts w db).1
  unfolding delete_all
  delete_all-keeps now [] counts w db a h = h
  delete_all-keeps now (artifact ∷ artifacts) counts w db a h =
      let called = delete_dataset artifact.dataset_name w in
      after_delete now artifacts (counted delete_dataset called.0 counts) called.1
        (remember delete_dataset artifact now called.0 db) (keep artifact.dataset_name w a.0 h)
        (λ db'.
          delete_all-keeps now artifacts (counted delete_dataset called.0 counts) called.1 db' a.1
            (keep artifact.dataset_name w a.0 h))

module _ (db : Database) where
  candidates_in-OutOfUse :
      (ids : Option (List ℕ)) (cutoff batch_size : ℕ) (r : List PublishArtifact)
      → (unit_of_work (candidates_in ids cutoff batch_size) db).0 ≡ ok r
      → All (OutOfUse db.artifacts) r
  unfolding unit_of_work candidates_in list_by_ids list_cleanup_candidates
  candidates_in-OutOfUse none cutoff batch_size r h =
      let kept = keep_if (is_candidate cutoff) db.artifacts in
      let le = λ (a b : PublishArtifact). leb a.created_at b.created_at in
      let e : take batch_size (order_by le kept) ≡ r = cc in
      let safe =
        All-keep_if_where (Covered db.artifacts) (OutOfUse db.artifacts) (is_candidate cutoff)
          db.artifacts (λ a y k. k (ground arith)) (covered db.artifacts) in
      subst (All (OutOfUse db.artifacts)) e (
        All-take (OutOfUse db.artifacts) batch_size (order_by le kept)
          (All-order_by (OutOfUse db.artifacts) le kept safe))
  candidates_in-OutOfUse (some ids) cutoff batch_size r h =
      let chosen = λ (a : PublishArtifact). elem a.id ids in
      let selected = keep_if chosen db.artifacts in
      let e : keep_if may_remove selected ≡ r = cc in
      subst (All (OutOfUse db.artifacts)) e (
        All-keep_if_where (Covered db.artifacts) (OutOfUse db.artifacts) may_remove selected
          (λ a y k. k (ground arith))
          (All-keep_if (Covered db.artifacts) chosen db.artifacts (covered db.artifacts)))

not_refused :
    {A : Type 0} (c : Bool) (x : Result A) (r : A)
    → (if c then err overflow_error else x) ≡ ok r
    → x ≡ ok r
not_refused true x r h = cc
not_refused false x r h = h

candidates_from :
    (db : Database) (config : CleanupConfig) (ids : Option (List ℕ)) (now : ℕ)
    (r : List PublishArtifact)
    → candidates config ids now db ≡ ok r
    → All (OutOfUse db.artifacts) r
unfolding candidates
candidates_from db config ids now r h =
    let span = config.retention_days * day in
    let found = (unit_of_work (candidates_in ids (now - span) config.batch_size) db).0 in
    candidates_in-OutOfUse db ids (now - span) config.batch_size r
      (not_refused (ltb now span) found r h)

-- A client that notes each name that it is called with.
abbrev pub noted :
    {World : Type 0}
    → (Text → World → Outcome (Unit {0}) × World)
    → Text
    → World × List Text
    → Outcome (Unit {0}) × (World × List Text)
noted delete_dataset name (w, names) =
    let (o, w') = delete_dataset name w in (o, (w', name ∷ names))

module _ {World : Type 0} (delete_dataset : Text → World → Outcome (Unit {0}) × World) where
  all_noted :
      (config : CleanupConfig) (has_client : Bool) (now : ℕ) (w : World) (db : Database)
      → (found : Result (List PublishArtifact))
      → ((r : List PublishArtifact) → found ≡ ok r → All (OutOfUse db.artifacts) r)
      → All
          (λ name. is_out_of_use db.artifacts name ≡ true)
          (clean (noted delete_dataset) config has_client now (w, []) db found).1.1
  all_noted config has_client now w db (err e) h = tt
  all_noted config has_client now w db (ok artifacts) h = elim (Bool-cases config.apply_enabled) [
    | inr e ↦ rw e tt
    | inl e ↦ rw e (elim (Bool-cases has_client) [
      | inr x ↦ rw x tt
      | inl x ↦ rw x (
          delete_all-keeps (noted delete_dataset)
            (λ (p : World × List Text). All (λ name. is_out_of_use db.artifacts name ≡ true) p.1)
            db.artifacts (λ name p y k. (y, k)) now artifacts (0, 0) (w, []) db (h artifacts refl)
            tt)
    ])
  ]

  -- Whether it takes the artifacts of the retention rule or those that were named, a pass calls the
  -- deletion only for data sets recorded for an artifact that is not current and is retired or was
  -- kept back by a failed deletion.
  pub clean_datasets_out_of_use :
      (config : CleanupConfig) (has_client : Bool) (ids : Option (List ℕ)) (now : ℕ) (w : World)
      (db : Database)
      → All
          (λ name. is_out_of_use db.artifacts name ≡ true)
          (clean_datasets (noted delete_dataset) config has_client ids now (w, []) db).1.1
  unfolding clean_datasets
  clean_datasets_out_of_use config has_client ids now w db =
      all_noted config has_client now w db (candidates config ids now db)
        (λ r h. candidates_from db config ids now r h)
