-- ===== src/Store/Artifacts/Settled.antt =====
-- Rows that agree with themselves about their deletion (repository/publish_artifacts.py).
use true_nas_controller.Common.{
  ℕ, ◌≡◌, refl, ◌∙◌, true, false, Option, is_some, Bool-cases, inl, inr,
}
use true_nas_controller.Domain.Publish.{
  PublishArtifact, StorageArtifactStatus, current, retired, deleted, cleanup_failed,
}
use true_nas_controller.Store.Artifacts.{is_deleted, is_same_id, retired_if_current, marked}

-- A row says in its state and in its time whether its data set is deleted, and no deleted one is current.
pub record Settled (a : PublishArtifact) : Type 0 where
  pub agree : is_deleted a.status ≡ is_some a.deleted_at
  pub unused : is_deleted a.status ≡ true → a.is_current ≡ false

is_deleted-retired_if_current :
    (status : StorageArtifactStatus) → is_deleted (retired_if_current status) ≡ is_deleted status
is_deleted-retired_if_current current = refl
is_deleted-retired_if_current retired = refl
is_deleted-retired_if_current deleted = refl
is_deleted-retired_if_current cleanup_failed = refl

pub marked-Settled : (e : Option ℕ) (a : PublishArtifact) → Settled a → Settled (marked e a)
marked-Settled e a h = elim (Bool-cases (is_deleted a.status)) [
  | inl x ↦ rw x (record { agree = h.agree; unused = λ _. refl })
  | inr x ↦ rw x (elim (Bool-cases (is_same_id a.id e)) [
    | inl y ↦ rw y (record { agree = refl; unused = λ p. cc })
    | inr y ↦
        rw y
          (record { agree = is_deleted-retired_if_current a.status ∙ h.agree; unused = λ _. refl })
  ])
]
