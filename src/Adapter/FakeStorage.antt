-- ===== src/Adapter/FakeStorage.antt =====
-- truenas_adapter/mock_client.py: the storage adapter in memory.
pub mod Runs
use true_nas_controller.Common.{
  ℕ, suc, Bool, false, not, ◌&&◌, Option, none, some, List, [], ◌∷◌, ◌++◌, Text, codes, text_eq,
  uuid_text, parse_uuid, elem, keep_if, lookup, put, ◌==◌, if◌then◌else◌,
}
use true_nas_controller.Workflow.Outcome.{Outcome, done, unknown, failed}
use true_nas_controller.Workflow.Fake.{StorageAdapter}

pub record FakeStorage : Type 0 where
  pub masters : List (ℕ × Text)
  pub clones : List ((ℕ × ℕ) × Text)
  pub mappings : List (ℕ × Text)
  pub fail_clone_for : List ℕ
  pub fail_switch_for : List ℕ
  pub unknown_switch_for : List ℕ
  pub fail_verify_for : List ℕ
  pub create_master_calls : ℕ
  pub create_clone_calls : ℕ

abbrev text_or : Option Text → Text → Text
text_or none other = other
text_or (some s) other = s

-- `create_master`
unfoldable pub fake_create_master : ℕ → Text → FakeStorage → Outcome Text × FakeStorage
fake_create_master job_id label w =
    let made = codes "master:" ++ uuid_text job_id in
    let counted : FakeStorage = record w { create_master_calls = suc w.create_master_calls } in
    elim (lookup job_id w.masters) [
      | some master ↦ (done master, counted)
      | none ↦ (done made, record counted { masters = put job_id made w.masters })
    ]

-- `value.split(":", maxsplit=1)[1]`: `none` without a separator.
unfoldable pub after_colon : Text → Option Text
after_colon [] = none
after_colon (c ∷ s) = let rest = after_colon s in if c == b':' then some s else rest

abbrev pub clone_at : ℕ → ℕ → List ((ℕ × ℕ) × Text) → Option Text
clone_at job_id station_id [] = none
clone_at job_id station_id (((j, s), clone) ∷ clones) =
    let rest = clone_at job_id station_id clones in
    if j == job_id && s == station_id then some clone else rest

abbrev pub clone_of : ℕ → ℕ → FakeStorage → Outcome Text × FakeStorage
clone_of job_id station_id w =
    let made = codes "clone:" ++ uuid_text job_id ++ codes ":" ++ uuid_text station_id in
    elim (clone_at job_id station_id w.clones) [
      | some clone ↦ (done clone, w)
      | none ↦ (done made, record w { clones = w.clones ++ ((job_id, station_id), made) ∷ [] })
    ]

abbrev pub cloned : Option Text → ℕ → FakeStorage → Outcome Text × FakeStorage
cloned none station_id w = (failed (codes "IndexError") (codes "list index out of range"), w)
cloned (some name) station_id w = elim (parse_uuid name) [
  | none ↦ (failed (codes "ValueError") (codes "badly formed hexadecimal UUID string"), w)
  | some job_id ↦ clone_of job_id station_id w
]

-- `create_clone`
unfoldable pub fake_create_clone : Text → ℕ → FakeStorage → Outcome Text × FakeStorage
fake_create_clone master_mapping station_id w =
    let counted : FakeStorage = record w { create_clone_calls = suc w.create_clone_calls } in
    if elem station_id w.fail_clone_for
    then (failed (codes "RuntimeError") (codes "injected clone failure"), counted)
    else cloned (after_colon master_mapping) station_id counted

-- `read_mapping`
unfoldable pub fake_read_mapping : ℕ → FakeStorage → Outcome (Option Text) × FakeStorage
fake_read_mapping station_id w =
    (done (some (text_or (lookup station_id w.mappings) (codes "old:" ++ uuid_text station_id))), w)

-- `switch_mapping`
unfoldable pub fake_switch_mapping : ℕ → Text → FakeStorage → Outcome (Unit {0}) × FakeStorage
fake_switch_mapping station_id clone_mapping w =
    let switched : FakeStorage = record w { mappings = put station_id clone_mapping w.mappings } in
    if elem station_id w.fail_switch_for
    then (failed (codes "RuntimeError") (codes "injected switch failure"), w)
    else if elem station_id w.unknown_switch_for
    then (
      unknown (codes "switch request outcome is unknown"),
      record switched {
        unknown_switch_for = keep_if (λ id. not (id == station_id)) w.unknown_switch_for;
      },
    )
    else (done tt, switched)

abbrev is_mapped : Option Text → Text → Bool
is_mapped none clone = false
is_mapped (some mapping) clone = text_eq mapping clone

-- `verify_mapping`
unfoldable pub fake_verify_mapping : ℕ → Text → FakeStorage → Outcome Bool × FakeStorage
fake_verify_mapping station_id clone_mapping w =
    if elem station_id w.fail_verify_for
    then (done false, w)
    else (done (is_mapped (lookup station_id w.mappings) clone_mapping), w)

-- `FakePublishStorageAdapter`
unfoldable pub fake_storage : StorageAdapter FakeStorage
fake_storage = record {
  create_master = fake_create_master;
  read_mapping = fake_read_mapping;
  create_clone = fake_create_clone;
  switch_mapping = fake_switch_mapping;
  verify_mapping = fake_verify_mapping;
}
