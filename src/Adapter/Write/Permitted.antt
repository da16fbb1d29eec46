-- ===== src/Adapter/Write/Permitted.antt =====
-- What the write adapter can send (truenas_adapter/write.py, truenas_adapter/registry.py).
use mathlib.Core.Path.{subst}
use true_nas_controller.Common.{
  ℕ, ◌≡◌, refl, sym, Bool, true, false, not, ◌||◌, Option, none, some, List, ◌∷◌, ◌++◌, Text, codes,
  All, arith, ◌==◌, Bool-cases, inl, inr,
}
use true_nas_controller.Workflow.Outcome.{Outcome, done, unknown, failed}
use true_nas_controller.Adapter.Calls.{
  object, text, boolean, field, end, cons, nil, Items, Api, Transport, ◌>>=◌, ◌>>◌, pure, refuse,
  require,
}
use true_nas_controller.Adapter.Registry.{TrueNasMethodRegistry, resolve}
use true_nas_controller.Adapter.ReadOnly.{map_extent, adapter_error}
use true_nas_controller.Adapter.Write.Quiet.{
  Quiet, Quiet->>=, Quiet-map_extent, Quiet-mapping_result, Quiet-snapshot_of,
}
use true_nas_controller.Adapter.Write.{
  is_safe_dataset, is_safe_snapshot_name, is_safe_device, partition_at, canonical_disk_device,
  create_snapshot, clone_snapshot, update_extent_device, delete_dataset, snapshot_params,
  clone_params, extent_params, delete_params, send, validate_parts, clone_to, mapping_result,
  snapshot_of, is_true_json, is_null, value_error,
}

-- A deletion that is neither recursive nor forced.
abbrev deletion_params : Text → Items
deletion_params dataset =
    let recursive = field (codes "recursive") (boolean false) in
    let force = field (codes "force") (boolean false) in
    cons (text dataset) (cons (object (recursive (force end))) nil)

-- A request that the adapter may make: one of four methods, with names that were checked. A deletion is
-- neither recursive nor forced.
pub data Permitted : Text × Items → Type 0 where
  snapshot :
      (dataset name : Text)
      → is_safe_dataset dataset ≡ true
      → is_safe_snapshot_name name ≡ true
      → Permitted (codes "pool.snapshot.create", snapshot_params dataset name)
  clone :
      (source dataset name target : Text)
      → partition_at source ≡ some (dataset, name)
      → is_safe_dataset dataset ≡ true
      → is_safe_snapshot_name name ≡ true
      → is_safe_dataset target ≡ true
      → Permitted (codes "pool.snapshot.clone", clone_params source target)
  extent :
      (id : ℕ) (device : Text)
      → (id == 0) ≡ false
      → is_safe_device device ≡ true
      → Permitted (codes "iscsi.extent.update", extent_params id device)
  deletion :
      (dataset : Text)
      → is_safe_dataset dataset ≡ true
      → Permitted (codes "pool.dataset.delete", deletion_params dataset)

-- The world with the requests made so far, the latest first.
abbrev pub Noted : Type 0 → Type 0
Noted World = World × List (Text × Items)

abbrev pub noted : {World : Type 0} → Transport World → Transport (Noted World)
noted request name params (w, log) =
    let (o, w') = request name params w in (o, (w', (name, params) ∷ log))

-- Code that makes permitted requests only.
abbrev pub Permits : {World A : Type 0} → Api (Noted World) A → Type 0
Permits {World} m = (w : Noted World) → All Permitted w.1 → All Permitted (m w).1.1

module _ {World : Type 0} where
  Permits-after :
      {A B : Type 0} (first : Outcome A × Noted World) (k : A → Api (Noted World) B)
      (w : Noted World)
      → All Permitted first.1.1
      → ((a : A) → Permits (k a))
      → All Permitted (((λ _. first) >>= k) w).1.1
  Permits-after (done a, w') k w h c = c a w' h
  Permits-after (unknown m, w') k w h c = h
  Permits-after (failed n m, w') k w h c = h

  Permits->>= :
      {A B : Type 0} (m : Api (Noted World) A) (k : A → Api (Noted World) B)
      → Permits m
      → ((a : A) → Permits (k a))
      → Permits (m >>= k)
  Permits->>= m k h c w p = Permits-after (m w) k w (h w p) c

  Permits-Quiet : {A : Type 0} (m : Api (Noted World) A) → Quiet m → Permits m
  Permits-Quiet m q w p = subst (λ (x : Noted World). All Permitted x.1) (sym (q w)) p

  Permits-require :
      {A : Type 0} (c : Bool) (n m : Text) (k : Api (Noted World) A)
      → (c ≡ true → Permits k)
      → Permits (require c n m >> k)
  Permits-require true n m k h w p = h refl w p
  Permits-require false n m k h w p = p

  Permits-parts :
      {A : Type 0} (o : Option (Text × Text)) (k : Api (Noted World) A)
      → ((dataset name : Text)
          → o ≡ some (dataset, name)
          → is_safe_dataset dataset ≡ true
          → is_safe_snapshot_name name ≡ true
          → Permits k)
      → Permits (validate_parts o >> k)
  Permits-parts none k h w p = p
  Permits-parts (some (dataset, name)) k h w p = elim (Bool-cases (is_safe_dataset dataset)) [
    | inr e ↦ rw e p
    | inl e ↦ rw e (elim (Bool-cases (is_safe_snapshot_name name)) [
      | inr x ↦ rw x p
      | inl x ↦ rw x (h dataset name refl e x w p)
    ])
  ]

-- What a name of the registry resolves to.
abbrev pub Resolves : TrueNasMethodRegistry → Text → Text → Type 0
Resolves registry operation name =
    (found : Text) → resolve registry operation ≡ some found → found ≡ name

module _ {World : Type 0} (request : Transport World) (registry : TrueNasMethodRegistry) where
  Permits-noted :
      (name : Text) (params : Items)
      → Permitted (name, params)
      → Permits (noted request name params)
  Permits-noted name params h (w, log) p = (h, p)

  Permits-found :
      (operation name : Text) (params : Items) (o : Option Text)
      → ((found : Text) → o ≡ some found → found ≡ name)
      → Permitted (name, params)
      → Permits (
          (elim o as (λ _. Api (Noted World) Text) [
            | some found ↦ pure found
            | none ↦
                refuse
                  (codes "UnsupportedTrueNASOperation")
                  (codes "unsupported TrueNAS read-only operation: " ++ operation)
          ])
          >>= λ found. noted request found params)
  Permits-found operation name params none e h w p = p
  Permits-found operation name params (some found) e h w p =
      Permits-noted found params (subst (λ n. Permitted (n, params)) (sym (e found refl)) h) w p

  Permits-send :
      (operation name : Text) (params : Items)
      → Resolves registry operation name
      → Permitted (name, params)
      → Permits (send (noted request) registry operation params)
  Permits-send operation name params e h =
      Permits-found operation name params (resolve registry operation) e h

  module _ (snapshots : Resolves registry (codes "create_snapshot") (codes "pool.snapshot.create"))
      (clones : Resolves registry (codes "clone_snapshot") (codes "pool.snapshot.clone"))
      (updates : Resolves registry (codes "update_extent_device") (codes "iscsi.extent.update"))
      (deletes : Resolves registry (codes "delete_dataset") (codes "pool.dataset.delete")) where
    pub Permits-delete_dataset :
        (dataset : Text) → Permits (delete_dataset (noted request) registry dataset)
    unfolding delete_dataset
    Permits-delete_dataset dataset =
        Permits-require (is_safe_dataset dataset) value_error _ _ (λ safe.
          Permits->>=
            (send (noted request) registry (codes "delete_dataset") (delete_params dataset))
            (λ result.
              require (is_true_json result || is_null result) adapter_error
                (codes "TrueNAS dataset delete returned an unexpected result"))
            (Permits-send (codes "delete_dataset") _ (delete_params dataset) deletes
              (deletion dataset safe))
            (λ result w p. p))

    pub Permits-clone_snapshot :
        (source target : Text) → Permits (clone_snapshot (noted request) registry source target)
    unfolding clone_snapshot
    Permits-clone_snapshot source target =
        Permits-parts (partition_at source) (clone_to (noted request) registry source target)
          (λ dataset name parts safe named.
            Permits-require (is_safe_dataset target) value_error _ _ (λ safe_target.
              Permits->>=
                (send (noted request) registry (codes "clone_snapshot")
                  (clone_params source target))
                (λ result.
                  require (is_true_json result) adapter_error
                    (codes "TrueNAS snapshot clone returned an unexpected result"))
                (Permits-send (codes "clone_snapshot") _ (clone_params source target) clones
                  (clone source dataset name target parts safe named safe_target))
                (λ result w p. p)))

    pub Permits-create_snapshot :
        (dataset name : Text) → Permits (create_snapshot (noted request) registry dataset name)
    unfolding create_snapshot
    Permits-create_snapshot dataset name =
        Permits-require (is_safe_dataset dataset) value_error _ _ (λ safe.
          Permits-require (is_safe_snapshot_name name) value_error _ _ (λ safe_name.
            Permits->>=
              (send (noted request) registry (codes "create_snapshot")
                (snapshot_params dataset name))
              (λ result. mapping_result result (codes "snapshot create") >>= snapshot_of dataset)
              (Permits-send (codes "create_snapshot") _ (snapshot_params dataset name) snapshots
                (snapshot dataset name safe safe_name))
              (λ result.
                Permits-Quiet
                  (mapping_result result (codes "snapshot create") >>= snapshot_of dataset)
                  (Quiet->>= (mapping_result result (codes "snapshot create")) (snapshot_of dataset)
                    (Quiet-mapping_result result (codes "snapshot create"))
                    (Quiet-snapshot_of dataset)))))

    pub Permits-update_extent_device :
        (id : ℕ) (device : Text) → Permits (update_extent_device (noted request) registry id device)
    unfolding update_extent_device
    Permits-update_extent_device id device =
        let disk = canonical_disk_device device in
        Permits-require (not (id == 0)) value_error _ _ (λ positive.
          Permits-require (is_safe_device disk) value_error _ _ (λ safe.
            Permits->>=
              (send (noted request) registry (codes "update_extent_device") (extent_params id disk))
              (λ result. mapping_result result (codes "extent update") >>= map_extent)
              (Permits-send (codes "update_extent_device") _ (extent_params id disk) updates
                (extent id disk (ground arith) safe))
              (λ result.
                Permits-Quiet (mapping_result result (codes "extent update") >>= map_extent) (
                  Quiet->>= (mapping_result result (codes "extent update")) map_extent
                    (Quiet-mapping_result result (codes "extent update")) Quiet-map_extent))))
