-- ===== src/Adapter/Write.antt =====
-- truenas_adapter/write.py: the write methods of the API, and what they check of their arguments.
pub mod Quiet
pub mod Permitted
pub mod Requests
use true_nas_controller.Common.{
  ℕ, Bool, true, false, not, ◌&&◌, ◌||◌, Option, none, some, [], ◌∷◌, ◌++◌, Text, codes, text_eq,
  any, all, leb, starts_with, removeprefix, ◌==◌, if◌then◌else◌,
}
use true_nas_controller.Workflow.TrueNas.Plan.{TrueNasSnapshot, TrueNasExtent, WriteClient}
use true_nas_controller.Adapter.Calls.{
  Json, null, text, integer, boolean, object, Items, nil, cons, Fields, end, field, member, Api,
  Transport, ◌>>=◌, ◌>>◌, pure, refuse, require,
}
use true_nas_controller.Adapter.Registry.{TrueNasMethodRegistry, split}
use true_nas_controller.Adapter.ReadOnly.{adapter_error, map_extent, method}

-- `[A-Za-z0-9]`
abbrev is_alphanumeric : ℕ → Bool
is_alphanumeric c =
    (leb b'A' c && leb c b'Z') || (leb b'a' c && leb c b'z') || (leb b'0' c && leb c b'9')

-- `[A-Za-z0-9._-]`
abbrev is_snapshot_char : ℕ → Bool
is_snapshot_char c = is_alphanumeric c || c == b'.' || c == b'_' || c == b'-'

-- A first character and those after it, as in both patterns.
abbrev full_match : (ℕ → Bool) → (ℕ → Bool) → Text → Bool
full_match first rest [] = false
full_match first rest (c ∷ s) = first c && all s rest

-- `".." in value.split("/")`
abbrev pub has_traversal : Text → Bool
has_traversal value = any (split b'/' value) (λ part. text_eq part (codes ".."))

-- The test of `_validate_dataset`.
unfoldable pub is_safe_dataset : Text → Bool
is_safe_dataset value =
    full_match is_alphanumeric (λ c. is_snapshot_char c || c == b'/') value
    && not (has_traversal value)

-- The test of `_validate_snapshot_name`.
unfoldable pub is_safe_snapshot_name : Text → Bool
is_safe_snapshot_name value = full_match is_alphanumeric is_snapshot_char value

-- `value.partition("@")`: what stands before and after the first separator.
unfoldable pub partition_at : Text → Option (Text × Text)
partition_at [] = none
partition_at (c ∷ s) = let rest = partition_at s in if c == b'@' then some ([], s) else ahead c rest
  where
    ahead : ℕ → Option (Text × Text) → Option (Text × Text)
    ahead c none = none
    ahead c (some (before, after)) = some (c ∷ before, after)

abbrev pub value_error : Text
value_error = codes "ValueError"

-- `_canonical_disk_device`
unfoldable pub canonical_disk_device : Text → Text
canonical_disk_device value =
    if starts_with value (codes "/dev/zvol/") then removeprefix value (codes "/dev/") else value

-- The test of the device in `update_extent_device`.
unfoldable pub is_safe_device : Text → Bool
is_safe_device device = starts_with device (codes "zvol/") && not (has_traversal device)

module _ {World : Type 0} where
  -- `_validate_dataset`
  abbrev pub validate_dataset : Text → Api World (Unit {0})
  validate_dataset value =
      require (is_safe_dataset value) value_error
        (codes "dataset must be a safe TrueNAS dataset name")

  -- `_validate_snapshot_name`
  abbrev pub validate_snapshot_name : Text → Api World (Unit {0})
  validate_snapshot_name value =
      require (is_safe_snapshot_name value) value_error
        (codes "snapshot name contains unsupported characters")

  abbrev pub validate_parts : Option (Text × Text) → Api World (Unit {0})
  validate_parts none = refuse value_error (codes "snapshot must use dataset@snapshot format")
  validate_parts (some (dataset, name)) = validate_dataset dataset >> validate_snapshot_name name

  -- `_validate_snapshot`
  abbrev pub validate_snapshot : Text → Api World (Unit {0})
  validate_snapshot value = validate_parts (partition_at value)

  -- `_mapping_result`
  abbrev pub mapping_result : Json → Text → Api World Fields
  mapping_result (object fields) operation = pure fields
  mapping_result _ operation =
      refuse adapter_error (codes "TrueNAS " ++ operation ++ codes " returned a malformed object")

  abbrev pub text_or : Option Json → Api World Text → Api World Text
  text_or (some (text (c ∷ s))) other = pure (c ∷ s)
  text_or _ other = other

  -- `_required_text` with its fallback
  abbrev pub either_text : Fields → Text → Text → Api World Text
  either_text fields key fallback = text_or (member key fields) (
      text_or (member fallback fields) (
        refuse adapter_error
          (codes "TrueNAS field '" ++ key ++ codes "' must be a non-empty string")))

  -- The names of a created snapshot, from its identifier where its name is missing.
  abbrev pub named_snapshot : Text → Fields → Api World TrueNasSnapshot
  named_snapshot dataset fields = do
    _ ← either_text fields (codes "id") (codes "name")
    name ← either_text fields (codes "name") (codes "id")
    pure (record { name = name; dataset = dataset })

  abbrev pub snapshot_of : Text → Fields → Api World TrueNasSnapshot
  snapshot_of dataset fields = do
    of_dataset ← text_or (member (codes "dataset") fields) (pure dataset)
    named_snapshot of_dataset fields

abbrev pub is_true_json : Json → Bool
is_true_json (boolean b) = b
is_true_json _ = false

abbrev pub is_null : Json → Bool
is_null null = true
is_null _ = false

-- `TrueNASWriteAdapter.__init__`
unfoldable pub may_write : TrueNasMethodRegistry → Bool
may_write registry = registry.allow_writes

-- The JSON parameters of the four calls.
abbrev pub snapshot_params : Text → Text → Items
snapshot_params dataset name =
    cons (object (field (codes "dataset") (text dataset) (field (codes "name") (text name) end)))
      nil

abbrev pub clone_params : Text → Text → Items
clone_params snapshot dataset_dst =
    cons
      (object (
        field (codes "snapshot") (text snapshot)
          (field (codes "dataset_dst") (text dataset_dst) end)))
      nil

abbrev pub extent_params : ℕ → Text → Items
extent_params extent_id device =
    cons (integer extent_id) (cons (object (field (codes "disk") (text device) end)) nil)

abbrev pub delete_params : Text → Items
delete_params dataset = cons (text dataset) (
    cons
      (object
        (field (codes "recursive") (boolean false) (field (codes "force") (boolean false) end)))
      nil)

module _ {World : Type 0} (request : Transport World) (registry : TrueNasMethodRegistry) where
  -- `self._transport.request(self._registry.resolve(operation), params)`
  abbrev pub send : Text → Items → Api World Json
  send operation params = do name ← method registry operation; request name params

  -- `create_snapshot`
  unfoldable pub create_snapshot : Text → Text → Api World TrueNasSnapshot
  create_snapshot dataset snapshot_name = do
    validate_dataset dataset
    validate_snapshot_name snapshot_name
    result ← send (codes "create_snapshot") (snapshot_params dataset snapshot_name)
    fields ← mapping_result result (codes "snapshot create")
    snapshot_of dataset fields

  -- A clone of a snapshot that was validated.
  abbrev pub clone_to : Text → Text → Api World (Unit {0})
  clone_to snapshot dataset_dst = do
    validate_dataset dataset_dst
    result ← send (codes "clone_snapshot") (clone_params snapshot dataset_dst)
    require (is_true_json result) adapter_error
        (codes "TrueNAS snapshot clone returned an unexpected result")

  -- `clone_snapshot`
  unfoldable pub clone_snapshot : Text → Text → Api World (Unit {0})
  clone_snapshot snapshot dataset_dst = validate_snapshot snapshot >> clone_to snapshot dataset_dst

  -- `update_extent_device`
  unfoldable pub update_extent_device : ℕ → Text → Api World TrueNasExtent
  update_extent_device extent_id device = do
    require (not (extent_id == 0)) value_error (codes "extent_id must be positive")
    require (is_safe_device (canonical_disk_device device)) value_error
        (codes "device must be a zvol/ path without traversal")
    result ←
        send (codes "update_extent_device") (extent_params extent_id (canonical_disk_device device))
    fields ← mapping_result result (codes "extent update")
    map_extent fields

  -- `delete_dataset`
  unfoldable pub delete_dataset : Text → Api World (Unit {0})
  delete_dataset dataset = do
    validate_dataset dataset
    result ← send (codes "delete_dataset") (delete_params dataset)
    require (is_true_json result || is_null result) adapter_error
        (codes "TrueNAS dataset delete returned an unexpected result")

  -- `TrueNASWriteAdapter` as the client of the workflow, which drops the extent that an update returns.
  unfoldable pub write_adapter : WriteClient World
  write_adapter = record {
    create_snapshot = create_snapshot;
    clone_snapshot = clone_snapshot;
    update_extent_device = λ id device. update_extent_device id device >>= λ _. pure tt;
  }
