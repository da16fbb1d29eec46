-- ===== src/Adapter/ReadOnly.antt =====
-- truenas_adapter/read_only.py: the read methods of the API and the mapping of their records. The fields
-- of application/truenas.py that no workflow reads (path, type and alias) are checked and dropped.
use true_nas_controller.Common.{
  ℕ, Bool, true, false, Option, none, some, List, [], ◌∷◌, ◌++◌, Text, codes, text_eq, removeprefix,
  if◌then◌else◌,
}
use true_nas_controller.Workflow.TrueNas.Plan.{
  TrueNasDataset, TrueNasSnapshot, TrueNasTarget, TrueNasExtent, TrueNasTargetExtent, ReadClient,
}
use true_nas_controller.Adapter.Calls.{
  Json, null, text, integer, boolean, array, object, Items, nil, cons, Fields, member, Api,
  Transport, ◌>>=◌, pure, refuse, each,
}
use true_nas_controller.Adapter.Registry.{TrueNasMethodRegistry, resolve}

abbrev pub adapter_error : Text
adapter_error = codes "TrueNASAdapterError"

abbrev join_keys : Text → List Text → Text
join_keys key [] = key
join_keys key (next ∷ keys) = key ++ codes ", " ++ join_keys next keys

abbrev pub is_file : Option Text → Bool
is_file none = false
is_file (some s) = text_eq s (codes "FILE")

-- `_canonical_disk_path`
abbrev pub canonical_disk_path : Option Text → Bool → Option Text
canonical_disk_path none file = none
canonical_disk_path (some value) true = some value
canonical_disk_path (some value) false = some (removeprefix value (codes "/dev/"))

module _ {World : Type 0} where
  abbrev malformed : {A : Type 0} → Text → Text → Api World A
  malformed key what =
      refuse adapter_error (codes "TrueNAS field '" ++ key ++ codes "' must be " ++ what)

  abbrev pub required_value : Text → Option Json → Api World Text
  required_value key (some (text (c ∷ s))) = pure (c ∷ s)
  required_value key _ = malformed key (codes "a non-empty string")

  -- `_required_text`
  unfoldable pub required_text : Fields → Text → Api World Text
  required_text fields key = required_value key (member key fields)

  abbrev pub optional_value : Text → Option Json → Api World (Option Text)
  optional_value key none = pure none
  optional_value key (some null) = pure none
  optional_value key (some (text s)) = pure (some s)
  optional_value key _ = malformed key (codes "a string or null")

  -- `_optional_text`
  unfoldable pub optional_text : Fields → Text → Api World (Option Text)
  optional_text fields key = optional_value key (member key fields)

  abbrev pub int_or : Option Json → Api World ℕ → Api World ℕ
  int_or (some (integer n)) other = pure n
  int_or _ other = other

  -- `_required_int`
  abbrev pub first_int : Text → Fields → List Text → Api World ℕ
  first_int names fields [] =
      refuse adapter_error (codes "TrueNAS field " ++ names ++ codes " must be an integer")
  first_int names fields (key ∷ keys) = int_or (member key fields) (first_int names fields keys)

  unfoldable pub required_int : Fields → Text → List Text → Api World ℕ
  required_int fields key keys = first_int (join_keys key keys) fields (key ∷ keys)

  -- `optional or other`
  abbrev pub or_else : Option Text → Api World (Option Text) → Api World (Option Text)
  or_else none other = other
  or_else (some []) other = other
  or_else (some (c ∷ s)) other = pure (some (c ∷ s))

  unfoldable pub map_dataset : Fields → Api World TrueNasDataset
  map_dataset fields = do
    id ← required_text fields (codes "id")
    name ← required_text fields (codes "name")
    _ ← optional_text fields (codes "path")
    _ ← optional_text fields (codes "type")
    pure (record { id = id; name = name })

  unfoldable pub map_snapshot : Fields → Api World TrueNasSnapshot
  map_snapshot fields = do
    _ ← required_text fields (codes "id")
    name ← required_text fields (codes "name")
    dataset ← required_text fields (codes "dataset")
    pure (record { name = name; dataset = dataset })

  unfoldable pub map_target : Fields → Api World TrueNasTarget
  map_target fields = do
    id ← required_int fields (codes "id") []
    name ← required_text fields (codes "name")
    _ ← optional_text fields (codes "alias")
    pure (record { id = id; name = name })

  -- The field that holds the backing of an extent goes by its type.
  abbrev pub backing_path : Bool → Fields → Api World (Option Text)
  backing_path file fields = do
    first ← optional_text fields (if file then codes "path" else codes "disk")
    or_else first (optional_text fields (if file then codes "disk" else codes "path"))

  -- The identifier, the name, and the path in its canonical form.
  abbrev pub extent_at : Fields → Option Text → Option Text → Api World TrueNasExtent
  extent_at fields extent_type path = do
    id ← required_int fields (codes "id") []
    _ ← required_text fields (codes "name")
    pure (record { id = id; path = canonical_disk_path path (is_file extent_type) })

  unfoldable pub map_extent : Fields → Api World TrueNasExtent
  map_extent fields = do
    extent_type ← optional_text fields (codes "type")
    path ← backing_path (is_file extent_type) fields
    extent_at fields extent_type path

  unfoldable pub map_target_extent : Fields → Api World TrueNasTargetExtent
  map_target_extent fields = do
    target_id ← required_int fields (codes "target") (codes "target_id" ∷ [])
    extent_id ← required_int fields (codes "extent") (codes "extent_id" ∷ [])
    lun_id ← required_int fields (codes "lunid") (codes "lun_id" ∷ [])
    pure (record { target_id = target_id; extent_id = extent_id; lun_id = lun_id })

  abbrev records_of : Text → Items → Api World (List Fields)
  records_of operation nil = pure []
  records_of operation (cons (object fields) items) = do
    rest ← records_of operation items
    pure (fields ∷ rest)
  records_of operation (cons _ _) =
      refuse adapter_error (codes "TrueNAS " ++ operation ++ codes " contains a malformed record")

  abbrev list_of : Text → Json → Api World (List Fields)
  list_of operation (array items) = records_of operation items
  list_of operation _ =
      refuse adapter_error (codes "TrueNAS " ++ operation ++ codes " result is not a list")

  -- `self._registry.resolve(operation)`
  abbrev pub method : TrueNasMethodRegistry → Text → Api World Text
  method registry operation = elim (resolve registry operation) [
    | some name ↦ pure name
    | none ↦
        refuse (codes "UnsupportedTrueNASOperation")
          (codes "unsupported TrueNAS read-only operation: " ++ operation)
  ]

module _ {World : Type 0} (request : Transport World) (registry : TrueNasMethodRegistry) where
  -- `_query`
  unfoldable pub query : Text → Api World (List Fields)
  query operation = do
    name ← method registry operation
    result ← request name nil
    list_of operation result

  abbrev is_pong : Json → Bool
  is_pong (boolean b) = b
  is_pong (text s) = text_eq s (codes "pong")
  is_pong _ = false

  -- `ping`
  unfoldable pub ping : Api World (Unit {0})
  ping = do
    name ← method registry (codes "ping")
    result ← request name nil
    if is_pong result
        then pure tt
        else refuse adapter_error (codes "TrueNAS ping returned an unexpected result")

  -- `TrueNASReadOnlyAdapter` as the client of the workflow.
  unfoldable pub read_adapter : ReadClient World
  read_adapter = record {
    query_datasets = query (codes "query_datasets") >>= each map_dataset;
    query_snapshots = query (codes "query_snapshots") >>= each map_snapshot;
    query_targets = query (codes "query_targets") >>= each map_target;
    query_extents = query (codes "query_extents") >>= each map_extent;
    query_target_extents = query (codes "query_target_extents") >>= each map_target_extent;
  }
