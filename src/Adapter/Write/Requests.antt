-- ===== src/Adapter/Write/Requests.antt =====
-- Any run of the write adapter over a registry of truenas_adapter/registry.py.
use true_nas_controller.Common.{
  ℕ, ◌≡◌, refl, sym, ap, Bool, true, false, none, some, List, [], ◌∷◌, ◌++◌, Text, codes, text_eq,
  All, if◌then◌else◌,
}
use true_nas_controller.Adapter.Calls.{Transport}
use true_nas_controller.Adapter.Registry.{
  TrueNasMethodRegistry, new_registry, resolve, method_at, read_methods, write_methods, family_of,
}
use true_nas_controller.Adapter.Write.{
  create_snapshot, clone_snapshot, update_extent_device, delete_dataset,
}
use true_nas_controller.Adapter.Write.Permitted.{
  Permitted, Noted, noted, Resolves, Permits-create_snapshot, Permits-clone_snapshot,
  Permits-update_extent_device, Permits-delete_dataset,
}

-- One call of the write adapter.
pub data WriteCall : Type 0 where
  create clone : Text → Text → WriteCall
  update : ℕ → Text → WriteCall
  delete : Text → WriteCall

module _ {World : Type 0} (request : Transport World) (registry : TrueNasMethodRegistry) where
  -- The world after a call, whatever its outcome.
  abbrev after_call : WriteCall → World → World
  after_call (create dataset name) w = (create_snapshot request registry dataset name w).1
  after_call (clone snapshot dataset) w = (clone_snapshot request registry snapshot dataset w).1
  after_call (update id device) w = (update_extent_device request registry id device w).1
  after_call (delete dataset) w = (delete_dataset request registry dataset w).1

  abbrev pub after_calls : List WriteCall → World → World
  after_calls [] w = w
  after_calls (c ∷ calls) w = after_calls calls (after_call c w)

accepted : (c : Bool) (r x : TrueNasMethodRegistry) → (if c then some r else none) ≡ some x → r ≡ x
accepted true r x h = cc
accepted false r x h = cc

-- The methods of a registry that a version was accepted for.
new_registry-methods :
    (version : Text) (allow_writes : Bool) (registry : TrueNasMethodRegistry)
    → new_registry version allow_writes ≡ some registry
    → registry.methods ≡ (if allow_writes then read_methods ++ write_methods else read_methods)
unfolding new_registry
new_registry-methods version allow_writes registry h = sym (
    ap (λ (r : TrueNasMethodRegistry). r.methods)
      (accepted (text_eq (family_of version) (codes "25.10")) _ registry h))

-- An operation that only a registry for writing has.
resolves :
    (allow_writes : Bool) (registry : TrueNasMethodRegistry) (operation name : Text)
    → registry.methods ≡ (if allow_writes then read_methods ++ write_methods else read_methods)
    → method_at operation (read_methods ++ write_methods) ≡ some name
    → method_at operation read_methods ≡ none
    → Resolves registry operation name
unfolding resolve
resolves true registry operation name m known unknown found h =
    let e = ap (method_at operation) m in cc
resolves false registry operation name m known unknown found h =
    let e = ap (method_at operation) m in cc

-- Whatever is called, in whatever order and with whatever answers, every request that reaches the
-- transport is one of the four permitted ones: names are checked, and a deletion is neither recursive
-- nor forced.
pub after_calls-Permitted :
    {World : Type 0} (request : Transport World) (version : Text) (allow_writes : Bool)
    (registry : TrueNasMethodRegistry) (calls : List WriteCall) (w : World)
    → new_registry version allow_writes ≡ some registry
    → All Permitted (after_calls (noted request) registry calls (w, [])).1
after_calls-Permitted {World} request version allow_writes registry calls w h =
    kept calls (w, []) tt
  where
    m : registry.methods ≡ (if allow_writes then read_methods ++ write_methods else read_methods)
    m = new_registry-methods version allow_writes registry h

    snapshots : Resolves registry (codes "create_snapshot") (codes "pool.snapshot.create")
    snapshots = resolves allow_writes registry _ _ m refl refl

    clones : Resolves registry (codes "clone_snapshot") (codes "pool.snapshot.clone")
    clones = resolves allow_writes registry _ _ m refl refl

    updates : Resolves registry (codes "update_extent_device") (codes "iscsi.extent.update")
    updates = resolves allow_writes registry _ _ m refl refl

    deletes : Resolves registry (codes "delete_dataset") (codes "pool.dataset.delete")
    deletes = resolves allow_writes registry _ _ m refl refl

    kept :
        (calls : List WriteCall) (w : Noted World)
        → All Permitted w.1
        → All Permitted (after_calls (noted request) registry calls w).1
    kept [] w p = p
    kept (create d n ∷ calls) w p =
        kept calls _
          (Permits-create_snapshot request registry snapshots clones updates deletes d n w p)
    kept (clone s d ∷ calls) w p =
        kept calls _
          (Permits-clone_snapshot request registry snapshots clones updates deletes s d w p)
    kept (update id d ∷ calls) w p =
        kept calls _
          (Permits-update_extent_device request registry snapshots clones updates deletes id d w p)
    kept (delete d ∷ calls) w p =
        kept calls _
          (Permits-delete_dataset request registry snapshots clones updates deletes d w p)
