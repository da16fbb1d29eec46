-- ===== src/Application/Executor/Inventory/Recorded.antt =====
-- A new artifact in the table (application/publish_executor.py).
use true_nas_controller.Common.{
  ℕ, ◌+◌, ◌≤◌, ◌≡◌, refl, sym, Bool, true, false, not, ◌&&◌, Option, List, [], ◌∷◌, Text, arith,
  All, All-update_where, count, count-update_if, update_if, ◌==◌, Bool-cases, inl, inr,
  if◌then◌else◌,
}
use true_nas_controller.Domain.Publish.{PublishJob, PublishTargetResult, PublishArtifact}
use true_nas_controller.Store.Artifacts.{saved, same_slot, retire}
use true_nas_controller.Workflow.Outcome.{is_verified}
use true_nas_controller.Application.Executor.{build_artifact}
use true_nas_controller.Application.Executor.Inventory.{has_id, is_current_of, IsDated, IsInventory}

module _ (a : PublishArtifact) where
  IsDated-saved :
      (rows : List PublishArtifact) → IsDated a → All IsDated rows → All IsDated (saved a rows)
  IsDated-saved [] h k = (h, tt)
  IsDated-saved (row ∷ rows) h k = elim (Bool-cases (same_slot a row)) [
    | inl e ↦ rw e (record { dated = h.dated; in_use = h.in_use }, k.1)
    | inr e ↦ rw e (k.0, IsDated-saved rows h k.1)
  ]

  -- A saved artifact counts once more at most.
  distinct-saved :
      (id : ℕ) (rows : List PublishArtifact)
      → count (has_id id) (saved a rows) ≤ (if has_id id a then 1 else 0) + count (has_id id) rows
  distinct-saved id [] = ground arith
  distinct-saved id (row ∷ rows) =
      let rest = distinct-saved id rows in
      elim (Bool-cases (same_slot a row)) [
        | inl e ↦ rw e (omega arith)
        | inr e ↦ rw e (omega arith)
      ]

  one_current-saved :
      (s : ℕ) (rows : List PublishArtifact)
      → count (is_current_of s) (saved a rows)
        ≤ (if is_current_of s a then 1 else 0) + count (is_current_of s) rows
  one_current-saved s [] = ground arith
  one_current-saved s (row ∷ rows) =
      let rest = one_current-saved s rows in
      elim (Bool-cases (same_slot a row)) [
        | inl e ↦
            let same : row.station_id ≡ a.station_id = ground arith in rw e (rw same (omega arith))
        | inr e ↦ rw e (omega arith)
      ]

-- The rows of the other artifacts of the station, before the new one is saved.
abbrev pub retired_rows : ℕ → ℕ → List PublishArtifact → List PublishArtifact
retired_rows station_id id rows =
    update_if
      (λ (row : PublishArtifact).
        row.station_id == station_id && not (row.id == id) && row.is_current)
      retire rows

retire-IsDated : (a : PublishArtifact) → IsDated (retire a)
retire-IsDated a = record { dated = λ h. cc; in_use = λ h. cc }

at_most_one : (b : Bool) → (if b then 1 else 0) ≤ 1
at_most_one true = ground arith
at_most_one false = ground arith

not_counted : (b : Bool) → b ≡ false → (if b then 1 else 0) ≤ 0
not_counted true h = cc
not_counted false h = ground arith

module _ (rows : List PublishArtifact) (inv : IsInventory rows) (a : PublishArtifact)
    (fresh : count (has_id a.id) rows ≡ 0) (ok_a : IsDated a) where
  abbrev pub before : List PublishArtifact
  before = retired_rows a.station_id a.id rows

  -- After the retirement the station has no current artifact.
  none_current : count (is_current_of a.station_id) before ≤ count (has_id a.id) rows
  none_current =
      count-update_if (is_current_of a.station_id) (has_id a.id) _ retire rows (λ x h. ground arith)

  kept_current : (s : ℕ) → count (is_current_of s) before ≤ count (is_current_of s) rows
  kept_current s =
      count-update_if (is_current_of s) (is_current_of s) _ retire rows (λ x h. ground arith)

  kept_ids : (id : ℕ) → count (has_id id) before ≤ count (has_id id) rows
  kept_ids id = count-update_if (has_id id) (has_id id) _ retire rows (λ x h. ground arith)

  IsDated-before : All IsDated before
  IsDated-before =
      All-update_where IsDated IsDated _ retire rows (λ x e h. retire-IsDated x) (λ x h. h)
        inv.dated

  one_current-after : (s : ℕ) → count (is_current_of s) (saved a before) ≤ 1
  one_current-after s =
      let more = one_current-saved a s before in
      let kept = kept_current s in
      let none_here = none_current in
      let known = inv.one_current s in
      elim (Bool-cases (a.station_id == s)) [
        | inl e ↦
            let same : s ≡ a.station_id = ground arith in
            let clear : count (is_current_of s) before ≤ 0 = rw same (rw (sym fresh) none_here) in
            let one = at_most_one (is_current_of s a) in omega arith
        | inr e ↦ let other = not_counted (is_current_of s a) (ground arith) in omega arith
      ]

  pub IsInventory-recorded : IsInventory (saved a before)
  IsInventory-recorded = record {
    dated = IsDated-saved a before ok_a IsDated-before;
    distinct = λ id.
        let more = distinct-saved a id before in
        let kept = kept_ids id in
        let known = inv.distinct id in
        elim (Bool-cases (a.id == id)) [
          | inl e ↦
              let same : id ≡ a.id = ground arith in
              let clear : count (has_id id) rows ≡ 0 = rw same fresh in
              let one = at_most_one (has_id id a) in omega arith
          | inr e ↦ let other = not_counted (has_id id a) e in omega arith
        ];
    one_current = one_current-after;
  }

pub build_artifact-IsDated :
    (id now : ℕ) (job : PublishJob) (r : PublishTargetResult) (ref : Option Text)
    → IsDated (build_artifact id now job r ref)
unfolding build_artifact
build_artifact-IsDated id now job r ref = elim (Bool-cases (is_verified r.status)) [
  | inl e ↦ rw e (record { dated = λ p. cc; in_use = λ p. refl })
  | inr e ↦ rw e (record { dated = λ p. cc; in_use = λ p. refl })
]
