-- ===== src/Application/Datasets/Reconciled.antt =====
-- One row of the artifacts: what is written and what is shown (application/datasets.py).
use true_nas_controller.Common.{
  ℕ, ◌≡◌, refl, sym, ap, ◌∙◌, true, false, Option, none, some, List, [], ◌∷◌, map, arith, All,
  All-update_if, update_if, lookup, is_some, ◌==◌, Bool-cases, inl, inr,
}
use true_nas_controller.Domain.Publish.{PublishArtifact, current}
use true_nas_controller.Store.Artifacts.{marked, is_deleted, is_same_id}
use true_nas_controller.Store.Artifacts.Settled.{Settled, marked-Settled}
use true_nas_controller.Application.Mappings.{reconciled, reconciled_to}
use true_nas_controller.Application.Mappings.Keys.{DistinctKeys}

is_none : {A : Type 0} (o : Option A) → is_some o ≡ false → none ≡ o
is_none none h = refl
is_none (some a) h = cc

module _ (e : Option ℕ) (a : PublishArtifact) where
  marked-station_id : (marked e a).station_id ≡ a.station_id
  marked-station_id = ground arith

  -- The row that is written and the artifact that is shown.
  marked_is_reconciled : Settled a → marked e a ≡ reconciled_to e a
  marked_is_reconciled h = elim (Bool-cases (is_deleted a.status)) [
    | inl x ↦
        let y : is_some a.deleted_at ≡ true = sym h.agree ∙ x in
        rw x (rw y (ap (λ c. record a { is_current = c }) (sym (h.unused x))))
    | inr x ↦
        let y : is_some a.deleted_at ≡ false = sym h.agree ∙ x in
        rw x (
          rw y (elim (Bool-cases (is_same_id a.id e)) [
            | inl z ↦ rw z (
                ap
                  (λ d. record a {
                    status = current;
                    is_current = true;
                    deleted_at = d;
                    last_error = none;
                  })
                  (is_none a.deleted_at y))
            | inr z ↦ rw z refl
          ]))
  ]

-- The rows after the passes of the loop, one for each station.
abbrev pub replay : List (ℕ × Option ℕ) → List PublishArtifact → List PublishArtifact
replay [] rows = rows
replay ((id, e) ∷ ids) rows =
    replay ids (update_if (λ (r : PublishArtifact). r.station_id == id) (marked e) rows)

-- A row of the station in question, and a row of another one.
reconciled_first :
    (id : ℕ) (e : Option ℕ) (ids : List (ℕ × Option ℕ)) (a : PublishArtifact)
    → Settled a
    → lookup id ids ≡ none
    → (a.station_id == id) ≡ true
    → reconciled ids (marked e a) ≡ reconciled ((id, e) ∷ ids) a
reconciled_first id e ids a h n x =
    let y : (id == a.station_id) ≡ true = ground arith in
    let z : lookup (marked e a).station_id ids ≡ none =
      ap (λ k. lookup k ids) (marked-station_id e a ∙ ground arith) ∙ n in
    rw (reconciled, y) (rw (reconciled, z) (marked_is_reconciled e a h))

reconciled_other :
    (id : ℕ) (e : Option ℕ) (ids : List (ℕ × Option ℕ)) (a : PublishArtifact)
    → (a.station_id == id) ≡ false
    → reconciled ids a ≡ reconciled ((id, e) ∷ ids) a
reconciled_other id e ids a x =
    let y : (id == a.station_id) ≡ false = ground arith in rw (reconciled, y) refl

reconciled_rows :
    (id : ℕ) (e : Option ℕ) (ids : List (ℕ × Option ℕ)) (rows : List PublishArtifact)
    → lookup id ids ≡ none
    → All Settled rows
    → map (reconciled ids) (update_if (λ (r : PublishArtifact). r.station_id == id) (marked e) rows)
      ≡ map (reconciled ((id, e) ∷ ids)) rows
reconciled_rows id e ids [] n h = refl
reconciled_rows id e ids (a ∷ rows) n h =
    let rest = reconciled_rows id e ids rows n h.1 in
    elim (Bool-cases (a.station_id == id)) [
      | inl x ↦ let first = reconciled_first id e ids a h.0 n x in rw x cc
      | inr x ↦ let first = reconciled_other id e ids a x in rw x cc
    ]

map_all :
    (f : PublishArtifact → PublishArtifact) (rows : List PublishArtifact)
    → ((a : PublishArtifact) → f a ≡ a)
    → map f rows ≡ rows
map_all f [] h = refl
map_all f (a ∷ rows) h = let first = h a in let rest = map_all f rows h in cc

pub replay_is_map :
    (ids : List (ℕ × Option ℕ)) (rows : List PublishArtifact)
    → DistinctKeys ids
    → All Settled rows
    → replay ids rows ≡ map (reconciled ids) rows
replay_is_map [] rows d h = sym (map_all (reconciled []) rows (λ a. refl))
replay_is_map ((id, e) ∷ ids) rows d h =
    let of_station = λ (r : PublishArtifact). r.station_id == id in
    replay_is_map ids (update_if of_station (marked e) rows) d.1
      (All-update_if Settled of_station (marked e) rows (marked-Settled e) h)
    ∙ reconciled_rows id e ids rows d.0 h
