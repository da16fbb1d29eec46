-- ===== src/Store/Artifacts/Cleanup.antt =====
-- What the cleanup may be offered (repository/artifacts.py).
use true_nas_controller.Common.{
  ℕ, ◌≡◌, true, false, ◌&&◌, some, List, [], ◌∷◌, arith, All, All-take, All-order_by, update_if,
  take, keep_if, order_by, leb, ◌==◌, Bool-cases, inl, inr,
}
use mathlib.Core.Path.{subst}
use true_nas_controller.Domain.Publish.{PublishArtifact}
use true_nas_controller.Store.Session.{Session, ◌>>◌, ok}
use true_nas_controller.Store.Artifacts.{
  is_candidate, list_cleanup_candidates, set_current_artifact, marked,
}

-- A row that is not the artifact `id` of the station.
abbrev pub IsOther : ℕ → ℕ → PublishArtifact → Type 0
IsOther station_id id row = (row.station_id == station_id && row.id == id) ≡ false

-- A candidate among rows of which every one that the cleanup may take satisfies `P`.
candidates :
    (P : PublishArtifact → Type 0) (before : ℕ) (rows : List PublishArtifact)
    → All (λ row. is_candidate before row ≡ true → P row) rows
    → All P (keep_if (is_candidate before) rows)
candidates P before [] h = tt
candidates P before (row ∷ rows) h = elim (Bool-cases (is_candidate before row)) [
  | inl e ↦ rw e (h.0 e, candidates P before rows h.1)
  | inr e ↦ rw e (candidates P before rows h.1)
]

marked-IsOther :
    (station_id id before : ℕ) (row : PublishArtifact)
    → is_candidate before (marked (some id) row) ≡ true
    → IsOther station_id id (marked (some id) row)
marked-IsOther station_id id before row h = ground arith

updated-IsOther :
    (station_id id before : ℕ) (rows : List PublishArtifact)
    → All
        (λ row. is_candidate before row ≡ true → IsOther station_id id row)
        (update_if
          (λ (row : PublishArtifact). row.station_id == station_id)
          (marked (some id))
          rows)
updated-IsOther station_id id before [] = tt
updated-IsOther station_id id before (row ∷ rows) =
    elim (Bool-cases (row.station_id == station_id)) [
      | inl e ↦ rw e (
        λ h. marked-IsOther station_id id before row h,
        updated-IsOther station_id id before rows,
      )
      | inr e ↦ rw e (λ h. ground arith, updated-IsOther station_id id before rows)
    ]

-- Once an artifact has been made the current one of its station, the cleanup is not offered it, whatever
-- the cut-off time and the limit.
pub current_not_offered :
    (station_id id before limit : ℕ) (s : Session)
    → (r : List PublishArtifact) → (s' : Session)
    → (set_current_artifact station_id (some id) >> list_cleanup_candidates before limit) s
      ≡ (ok r, s')
    → All (IsOther station_id id) r
unfolding set_current_artifact list_cleanup_candidates
current_not_offered station_id id before limit s r s' h =
    let rows =
      update_if (λ (row : PublishArtifact). row.station_id == station_id) (marked (some id))
        s.working.artifacts in
    let kept = keep_if (is_candidate before) rows in
    let sorted = order_by (λ (a b : PublishArtifact). leb a.created_at b.created_at) kept in
    let safe =
      candidates (IsOther station_id id) before rows
        (updated-IsOther station_id id before s.working.artifacts) in
    let all_sorted =
      All-order_by (IsOther station_id id)
        (λ (a b : PublishArtifact). leb a.created_at b.created_at) kept safe in
    let e : take limit sorted ≡ r = cc in
    subst (All (IsOther station_id id)) e (All-take (IsOther station_id id) limit sorted all_sorted)
