-- ===== src/Adapter/FakeWrite.antt =====
-- truenas_adapter/write_fake.py: an API in memory, which notes its calls.

use true_nas_controller.Common.{
  ℕ, Bool, false, not, Option, none, some, List, [], ◌∷◌, ◌++◌, map, Text, codes, text_eq, any,
  keep_if, put, removeprefix, if◌then◌else◌,
}
use true_nas_controller.Workflow.Outcome.{Outcome, done}
use true_nas_controller.Workflow.TrueNas.Plan.{
  TrueNasDataset, TrueNasSnapshot, TrueNasTarget, TrueNasExtent, TrueNasTargetExtent, ReadClient,
  WriteClient,
}

-- A dict with texts as keys.
abbrev pub Named : Type 0 → Type 0
Named V = List (Text × V)

abbrev pub has_key : {V : Type 0} → Text → Named V → Bool
has_key key items = any items (λ item. text_eq item.0 key)

-- `items.setdefault(key, value)`
abbrev pub set_default : {V : Type 0} → Text → V → Named V → Named V
set_default key value items = if has_key key items then items else items ++ (key, value) ∷ []

abbrev get_or : {V : Type 0} → Text → V → Named V → V
get_or key value [] = value
get_or key value ((k, v) ∷ items) =
    let rest = get_or key value items in if text_eq k key then v else rest

-- The state; a call is noted with its texts, and an extent also by its number.
pub record FakeNas : Type 0 where
  pub calls : List (Text × List Text × Option ℕ)
  pub datasets : Named TrueNasDataset
  pub snapshots : Named TrueNasSnapshot
  pub clones : List (Text × Text)
  pub targets : List (ℕ × TrueNasTarget)
  pub target_extents : List TrueNasTargetExtent
  pub extents : List (ℕ × TrueNasExtent)
  pub extent_devices : List (ℕ × Text)

abbrev noted : Text → List Text → Option ℕ → FakeNas → FakeNas
noted name texts number w = record w { calls = w.calls ++ (name, texts, number) ∷ [] }

abbrev values : {K V : Type 0} → List (K × V) → List V
values items = map (λ item. item.1) items

abbrev queried : {A : Type 0} → Text → (FakeNas → List A) → FakeNas → Outcome (List A) × FakeNas
queried name of w = (done (of w), noted name [] none w)

abbrev pub extents_of : FakeNas → List TrueNasExtent
extents_of w = values w.extents

abbrev pub associations_of : FakeNas → List TrueNasTargetExtent
associations_of w = w.target_extents

-- The read methods of `FakeTrueNASWriteClient`.
unfoldable pub fake_reads : ReadClient FakeNas
fake_reads = record {
  query_datasets = queried (codes "query_datasets") (λ w. values w.datasets);
  query_snapshots = queried (codes "query_snapshots") (λ w. values w.snapshots);
  query_targets = queried (codes "query_targets") (λ w. values w.targets);
  query_extents = queried (codes "query_extents") extents_of;
  query_target_extents = queried (codes "query_target_extents") associations_of;
}

-- A data set under its own name.
abbrev plain : Text → TrueNasDataset
plain name = record { id = name; name = name }

unfoldable pub fake_create_snapshot : Text → Text → FakeNas → Outcome TrueNasSnapshot × FakeNas
fake_create_snapshot dataset snapshot_name w =
    let full_name = dataset ++ codes "@" ++ snapshot_name in
    let made : TrueNasSnapshot = record { name = full_name; dataset = dataset } in
    (
      done (get_or full_name made w.snapshots),
      record (noted (codes "create_snapshot") (dataset ∷ snapshot_name ∷ []) none w) {
        snapshots = set_default full_name made w.snapshots;
        datasets = set_default dataset (plain dataset) w.datasets;
      },
    )

-- `self.clones.add(clone)`
abbrev add_clone : Text → Text → List (Text × Text) → List (Text × Text)
add_clone snapshot dataset clones =
    if any clones (λ c. if text_eq c.0 snapshot then text_eq c.1 dataset else false)
    then clones
    else clones ++ (snapshot, dataset) ∷ []

unfoldable pub fake_clone_snapshot : Text → Text → FakeNas → Outcome (Unit {0}) × FakeNas
fake_clone_snapshot snapshot dataset_dst w = (
  done tt,
  record (noted (codes "clone_snapshot") (snapshot ∷ dataset_dst ∷ []) none w) {
    clones = add_clone snapshot dataset_dst w.clones;
    datasets = set_default dataset_dst (plain dataset_dst) w.datasets;
  },
)

unfoldable pub fake_update_extent_device : ℕ → Text → FakeNas → Outcome (Unit {0}) × FakeNas
fake_update_extent_device extent_id device w = (
  done tt,
  record (noted (codes "update_extent_device") (device ∷ []) (some extent_id) w) {
    extent_devices = put extent_id device w.extent_devices;
    extents =
        put extent_id (record { id = extent_id; path = some (removeprefix device (codes "/dev/")) })
          w.extents;
  },
)

unfoldable pub fake_delete_dataset : Text → FakeNas → Outcome (Unit {0}) × FakeNas
fake_delete_dataset dataset w = (
  done tt,
  record (noted (codes "delete_dataset") (dataset ∷ []) none w) {
    datasets = keep_if (λ item. not (text_eq item.0 dataset)) w.datasets;
  },
)

-- The write methods of `FakeTrueNASWriteClient` that the workflow calls.
unfoldable pub fake_writes : WriteClient FakeNas
fake_writes = record {
  create_snapshot = fake_create_snapshot;
  clone_snapshot = fake_clone_snapshot;
  update_extent_device = fake_update_extent_device;
}
