-- ===== src/Application/Executor/Inventory/Written.antt =====
-- Writes to the artifacts that are there (repository/publish_artifacts.py).
use true_nas_controller.Common.{
  ℕ, ◌≤◌, ◌≡◌, refl, sym, ap, ◌∙◌, Bool, true, false, Option, none, some, List, [], ◌∷◌, arith, All,
  All-update_if, count, count-update_if, update_if, ◌==◌, Bool-cases, inl, inr, if◌then◌else◌,
}
use true_nas_controller.Domain.Publish.{
  PublishArtifact, StorageArtifactStatus, current, retired, deleted, cleanup_failed,
}
use true_nas_controller.Store.Artifacts.{marked, is_same_id, is_deleted, retired_if_current}
use true_nas_controller.Application.Executor.Inventory.{has_id, is_current_of, IsDated, IsInventory}

count_nothing : (rows : List PublishArtifact) → count (λ _. false) rows ≤ 0
count_nothing [] = ground arith
count_nothing (row ∷ rows) = let rest = count_nothing rows in omega arith

is_deleted-retired_if_current :
    (status : StorageArtifactStatus) → is_deleted (retired_if_current status) ≡ is_deleted status
is_deleted-retired_if_current current = refl
is_deleted-retired_if_current retired = refl
is_deleted-retired_if_current deleted = refl
is_deleted-retired_if_current cleanup_failed = refl

marked-IsDated : (e : Option ℕ) (a : PublishArtifact) → IsDated a → IsDated (marked e a)
marked-IsDated e a h = elim (Bool-cases (is_deleted a.status)) [
  | inl x ↦ rw x (record { dated = λ _. h.dated x; in_use = λ p. cc })
  | inr x ↦ rw x (elim (Bool-cases (is_same_id a.id e)) [
    | inl y ↦ rw y (record { dated = λ p. cc; in_use = λ p. refl })
    | inr y ↦
        let kept = is_deleted-retired_if_current a.status in
        rw y (record { dated = λ p. cc; in_use = λ p. cc })
  ])
]

module _ (rows : List PublishArtifact) (inv : IsInventory rows) where
  one_id : (e : Option ℕ) → count (λ (a : PublishArtifact). is_same_id a.id e) rows ≤ 1
  one_id none = let h = count_nothing rows in omega arith
  one_id (some id) = inv.distinct id

  module _ (station_id : ℕ) (e : Option ℕ) where
    abbrev pub of_station : PublishArtifact → Bool
    of_station row = row.station_id == station_id

    marked_ids :
        (id : ℕ) → count (has_id id) (update_if of_station (marked e) rows) ≤ count (has_id id) rows
    marked_ids id =
        count-update_if (has_id id) (has_id id) of_station (marked e) rows (λ x h. ground arith)

    -- Only the artifact that is named is current in the station, whatever the others have been.
    marked_here :
        (s : ℕ)
        → (s == station_id) ≡ true
        → count (is_current_of s) (update_if of_station (marked e) rows)
          ≤ count (λ (a : PublishArtifact). is_same_id a.id e) rows
    marked_here s y =
        count-update_if (is_current_of s) (λ a. is_same_id a.id e) of_station (marked e) rows
          (λ x h. ground arith)

    marked_elsewhere :
        (s : ℕ)
        → (s == station_id) ≡ false
        → count (is_current_of s) (update_if of_station (marked e) rows)
          ≤ count (is_current_of s) rows
    marked_elsewhere s y =
        count-update_if (is_current_of s) (is_current_of s) of_station (marked e) rows
          (λ x h. ground arith)

    -- The passes of `set_current_artifact`.
    pub IsInventory-marked : IsInventory (update_if of_station (marked e) rows)
    IsInventory-marked = record {
      dated = All-update_if IsDated of_station (marked e) rows (marked-IsDated e) inv.dated;
      distinct = λ id. let kept = marked_ids id in let known = inv.distinct id in omega arith;
      one_current = λ s. elim (Bool-cases (s == station_id)) [
        | inl y ↦ let kept = marked_here s y in let known = one_id e in omega arith
        | inr y ↦ let kept = marked_elsewhere s y in let known = inv.one_current s in omega arith
      ];
    }

  -- A write to the row of one identifier, which keeps its identifier and makes nothing current.
  module _ (k : ℕ) (f : PublishArtifact → PublishArtifact)
      (same : (x : PublishArtifact) → (f x).id ≡ x.id)
      (less : (s : ℕ) (x : PublishArtifact)
        → is_current_of s (f x) ≡ true
        → is_current_of s x ≡ true) where
    written_id :
        (id : ℕ) (x : PublishArtifact)
        → has_id id (if has_id k x then f x else x) ≡ true
        → has_id id x ≡ true
    written_id id x h = elim (Bool-cases (has_id k x)) [
      | inl e ↦ let y = same x in ground arith
      | inr e ↦ ground arith
    ]

    written_current :
        (s : ℕ) (x : PublishArtifact)
        → is_current_of s (if has_id k x then f x else x) ≡ true
        → is_current_of s x ≡ true
    written_current s x h = elim (Bool-cases (has_id k x)) [
      | inl e ↦ less s x (ap (λ b. is_current_of s (if b then f x else x)) (sym e) ∙ h)
      | inr e ↦ ap (λ b. is_current_of s (if b then f x else x)) (sym e) ∙ h
    ]

    pub IsInventory-written :
        All IsDated (update_if (has_id k) f rows) → IsInventory (update_if (has_id k) f rows)
    IsInventory-written h = record {
      dated = h;
      distinct = λ id.
          let kept = count-update_if (has_id id) (has_id id) (has_id k) f rows (written_id id) in
          let known = inv.distinct id in omega arith;
      one_current = λ s.
          let kept =
            count-update_if (is_current_of s) (is_current_of s) (has_id k) f rows
              (written_current s) in
          let known = inv.one_current s in omega arith;
    }
