-- ===== src/Adapter/Registry.antt =====
-- truenas_adapter/registry.py: the methods of the API that a registry allows.
use true_nas_controller.Common.{
  ℕ, ◌≡◌, refl, Bool, Option, none, some, List, [], ◌∷◌, ◌++◌, Text, codes, text_eq, strip, take,
  ◌==◌, if◌then◌else◌,
}

-- `value.split(separator)` for one separator
unfoldable pub split : ℕ → Text → List Text
split separator [] = [] ∷ []
split separator (c ∷ s) =
    let rest = split separator s in if c == separator then [] ∷ rest else onto c rest
  where
    onto : ℕ → List Text → List Text
    onto c [] = (c ∷ []) ∷ []
    onto c (word ∷ words) = (c ∷ word) ∷ words

-- `".".join(words)`
abbrev join_dots : List Text → Text
join_dots [] = []
join_dots (word ∷ []) = word
join_dots (word ∷ (next ∷ words)) = word ++ b'.' ∷ join_dots (next ∷ words)

-- The family of a version: its first two parts.
unfoldable pub family_of : Text → Text
family_of version = join_dots (take 2 (split b'.' (strip version)))

-- Operations and their methods.
abbrev pub Methods : Type 0
Methods = List (Text × Text)

-- `_METHODS_BY_VERSION["25.10"]`
abbrev pub read_methods : Methods
read_methods =
    (codes "authenticate", codes "auth.login_with_api_key")
    ∷ (codes "ping", codes "core.ping")
    ∷ (codes "query_datasets", codes "pool.dataset.query")
    ∷ (codes "query_snapshots", codes "pool.snapshot.query")
    ∷ (codes "query_targets", codes "iscsi.target.query")
    ∷ (codes "query_extents", codes "iscsi.extent.query")
    ∷ (codes "query_target_extents", codes "iscsi.targetextent.query")
    ∷ []

-- What a registry for writing has besides.
abbrev pub write_methods : Methods
write_methods =
    (codes "create_snapshot", codes "pool.snapshot.create")
    ∷ (codes "clone_snapshot", codes "pool.snapshot.clone")
    ∷ (codes "update_extent_device", codes "iscsi.extent.update")
    ∷ (codes "delete_dataset", codes "pool.dataset.delete")
    ∷ []

pub record TrueNasMethodRegistry : Type 0 where
  pub version : Text
  pub methods : Methods
  pub allow_writes : Bool

-- `TrueNASMethodRegistry.__init__`: `none` for `UnsupportedTrueNASVersion`.
unfoldable pub new_registry : Text → Bool → Option TrueNasMethodRegistry
new_registry version allow_writes =
    if text_eq (family_of version) (codes "25.10")
    then some (record {
      version = strip version;
      methods = if allow_writes then read_methods ++ write_methods else read_methods;
      allow_writes = allow_writes;
    })
    else none

abbrev pub method_at : Text → Methods → Option Text
method_at operation [] = none
method_at operation ((name, method) ∷ methods) =
    let rest = method_at operation methods in if text_eq name operation then some method else rest

-- `resolve`: `none` for `UnsupportedTrueNASOperation`.
unfoldable pub resolve : TrueNasMethodRegistry → Text → Option Text
resolve registry operation = method_at operation registry.methods

family_of_test : family_of (codes " 25.10.3 ") ≡ codes "25.10"
unfolding family_of split strip
family_of_test = refl
