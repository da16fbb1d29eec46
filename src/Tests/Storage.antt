-- ===== src/Tests/Storage.antt =====
-- A small storage, and the API over it.
use true_nas_controller.Common.{true, some, List, [], ◌∷◌, ◌++◌, refl, Text, codes, update_if, ◌==◌}
use true_nas_controller.Workflow.Outcome.{done, unknown}
use true_nas_controller.Workflow.Fake.{StorageAdapter}
use true_nas_controller.Workflow.TrueNas.Plan.{
  TrueNasDataset, TrueNasExtent, TrueNasTargetExtent, ReadClient, WriteClient, StationPlan,
}
use true_nas_controller.Workflow.TrueNas.Switch.Safety.{ApiLaws}
use true_nas_controller.Workflow.Fake.Returns.{Answers}
use true_nas_controller.Tests.Data.{station_a}

-- What the storage holds.
pub record Nas : Type 0 where
  pub datasets : List TrueNasDataset
  pub extents : List TrueNasExtent
  pub associations : List TrueNasTargetExtent

abbrev pub nas_a : Nas
nas_a = record {
  datasets = record { id = codes "tank/master"; name = codes "tank/master" } ∷ [];
  extents = record { id = 4; path = some (codes "zvol/old") } ∷ [];
  associations = record { target_id = 3; extent_id = 4; lun_id = 0 } ∷ [];
}

-- Every call succeeds.
abbrev pub reads_a : ReadClient Nas
reads_a = record {
  query_datasets = λ w. (done w.datasets, w);
  query_snapshots = λ w. (done [], w);
  query_targets = λ w. (done (record { id = 3; name = codes "hall-a" } ∷ []), w);
  query_extents = λ w. (done w.extents, w);
  query_target_extents = λ w. (done w.associations, w);
}

abbrev pub writes_a : WriteClient Nas
writes_a = record {
  create_snapshot = λ dataset name w.
      (done (record { name = dataset ++ codes "@" ++ name; dataset = dataset }), w);
  clone_snapshot = λ snapshot name w.
      (done tt, record w { datasets = record { id = name; name = name } ∷ w.datasets });
  update_extent_device = λ id device w. (
    done tt,
    record w {
      extents =
          update_if (λ (e : TrueNasExtent). e.id == id)
            (λ (e : TrueNasExtent). record e { path = some device }) w.extents;
    },
  );
}

-- No write succeeds.
abbrev pub writes_none : WriteClient Nas
writes_none = record {
  create_snapshot = λ dataset name w. (unknown (codes "down"), w);
  clone_snapshot = λ snapshot name w. (unknown (codes "down"), w);
  update_extent_device = λ id device w. (unknown (codes "down"), w);
}

pub laws_a : ApiLaws reads_a writes_a (λ w. w.extents) (λ w. w.associations)
laws_a = record {
  listed_extents = λ w l h. cc;
  listed_associations = λ w l h. cc;
  extents_kept = λ w. refl;
  extents_kept_by_associations = λ w. refl;
  extents_kept_by_datasets = λ w. refl;
  extents_kept_by_clone = λ s d w. refl;
  associations_kept = λ w. refl;
  associations_kept_by_associations = λ w. refl;
}

abbrev pub plan_a : StationPlan
plan_a = record {
  station = station_a;
  mapping = record {
    station_id = 21;
    target_id = 3;
    extent_id = 4;
    lun_id = 0;
    old_device = some (codes "zvol/old");
  };
  destination_dataset = codes "tank/master-a";
  destination_device = codes "zvol/tank/master-a";
}

-- One mapping for every station: the world is the mapping.
abbrev pub adapter_a : StorageAdapter Text
adapter_a = record {
  create_master = λ job_id label w. (done (codes "master"), w);
  read_mapping = λ id w. (done (some w), w);
  create_clone = λ master id w. (done (codes "clone"), w);
  switch_mapping = λ id clone w. (done tt, clone);
  verify_mapping = λ id clone w. (done true, w);
}

-- The same, where the outcome of a clone is unknown.
abbrev pub adapter_unknown : StorageAdapter Text
adapter_unknown = record adapter_a { create_clone = λ master id w. (unknown (codes "lost"), w) }

abbrev pub answers_a : Answers adapter_a
answers_a = record {
  masters = λ id label w. refl;
  mappings = λ id w. refl;
  clones = λ m id w. refl;
}
