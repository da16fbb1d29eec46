-- ===== src/Adapter/Write/Quiet.antt =====
-- The mapping of a response makes no request (truenas_adapter/read_only.py, truenas_adapter/write.py).
use true_nas_controller.Common.{
  ℕ, ◌≡◌, refl, ◌∙◌, Bool, Option, none, some, List, [], ◌∷◌, Text, codes, if◌then◌else◌,
}
use true_nas_controller.Workflow.Outcome.{Outcome, done, unknown, failed}
use true_nas_controller.Workflow.TrueNas.Plan.{TrueNasExtent, TrueNasSnapshot}
use true_nas_controller.Adapter.Calls.{
  Json, null, number, negative, boolean, integer, text, array, object, Fields, member, Api, ◌>>=◌,
  ◌>>◌, pure,
}
use true_nas_controller.Adapter.ReadOnly.{
  required_value, required_text, optional_value, optional_text, int_or, first_int, required_int,
  or_else, backing_path, extent_at, canonical_disk_path, map_extent, is_file,
}
use true_nas_controller.Adapter.Write.{
  mapping_result, text_or, either_text, named_snapshot, snapshot_of,
}

module _ {World : Type 0} where
  -- Code that leaves the world alone.
  abbrev pub Quiet : {A : Type 0} → Api World A → Type 0
  Quiet m = (w : World) → (m w).1 ≡ w

  Quiet-then :
      {A B : Type 0} (first : Outcome A × World) (k : A → Api World B) (w : World)
      → first.1 ≡ w
      → ((a : A) → Quiet (k a))
      → (((λ _. first) >>= k) w).1 ≡ w
  Quiet-then (done a, w') k w h c = c a w' ∙ h
  Quiet-then (unknown m, w') k w h c = h
  Quiet-then (failed n m, w') k w h c = h

  pub Quiet->>= :
      {A B : Type 0} (m : Api World A) (k : A → Api World B)
      → Quiet m
      → ((a : A) → Quiet (k a))
      → Quiet (m >>= k)
  Quiet->>= m k h c w = Quiet-then (m w) k w (h w) c

  Quiet-required_value : (key : Text) (o : Option Json) → Quiet (required_value key o)
  Quiet-required_value key none w = refl
  Quiet-required_value key (some null) w = refl
  Quiet-required_value key (some (number n)) w = refl
  Quiet-required_value key (some (negative n)) w = refl
  Quiet-required_value key (some (boolean b)) w = refl
  Quiet-required_value key (some (integer n)) w = refl
  Quiet-required_value key (some (text [])) w = refl
  Quiet-required_value key (some (text (c ∷ s))) w = refl
  Quiet-required_value key (some (array _)) w = refl
  Quiet-required_value key (some (object _)) w = refl

  Quiet-optional_value : (key : Text) (o : Option Json) → Quiet (optional_value key o)
  Quiet-optional_value key none w = refl
  Quiet-optional_value key (some null) w = refl
  Quiet-optional_value key (some (number n)) w = refl
  Quiet-optional_value key (some (negative n)) w = refl
  Quiet-optional_value key (some (boolean b)) w = refl
  Quiet-optional_value key (some (integer n)) w = refl
  Quiet-optional_value key (some (text s)) w = refl
  Quiet-optional_value key (some (array _)) w = refl
  Quiet-optional_value key (some (object _)) w = refl

  Quiet-int_or : (o : Option Json) (other : Api World ℕ) → Quiet other → Quiet (int_or o other)
  Quiet-int_or none other h w = h w
  Quiet-int_or (some null) other h w = h w
  Quiet-int_or (some (number n)) other h w = h w
  Quiet-int_or (some (negative n)) other h w = h w
  Quiet-int_or (some (boolean b)) other h w = h w
  Quiet-int_or (some (integer n)) other h w = refl
  Quiet-int_or (some (text s)) other h w = h w
  Quiet-int_or (some (array _)) other h w = h w
  Quiet-int_or (some (object _)) other h w = h w

  Quiet-first_int :
      (names : Text) (fields : Fields) (keys : List Text) → Quiet (first_int names fields keys)
  Quiet-first_int names fields [] = λ w. refl
  Quiet-first_int names fields (key ∷ keys) =
      Quiet-int_or (member key fields) (first_int names fields keys)
        (Quiet-first_int names fields keys)

  Quiet-or_else :
      (o : Option Text) (other : Api World (Option Text)) → Quiet other → Quiet (or_else o other)
  Quiet-or_else none other h w = h w
  Quiet-or_else (some []) other h w = h w
  Quiet-or_else (some (c ∷ s)) other h w = refl

  Quiet-required_text : (fields : Fields) (key : Text) → Quiet (required_text fields key)
  unfolding required_text
  Quiet-required_text fields key = Quiet-required_value key (member key fields)

  Quiet-optional_text : (fields : Fields) (key : Text) → Quiet (optional_text fields key)
  unfolding optional_text
  Quiet-optional_text fields key = Quiet-optional_value key (member key fields)

  Quiet-required_int :
      (fields : Fields) (key : Text) (keys : List Text) → Quiet (required_int fields key keys)
  unfolding required_int
  Quiet-required_int fields key keys = Quiet-first_int _ fields (key ∷ keys)

  Quiet-backing_path : (file : Bool) (fields : Fields) → Quiet (backing_path file fields)
  Quiet-backing_path file fields =
      let other = optional_text fields (if file then codes "disk" else codes "path") in
      Quiet->>= (optional_text fields (if file then codes "path" else codes "disk"))
        (λ first. or_else first other)
        (Quiet-optional_text fields (if file then codes "path" else codes "disk"))
        (λ first.
          Quiet-or_else first other
            (Quiet-optional_text fields (if file then codes "disk" else codes "path")))

  Quiet-extent_at : (fields : Fields) (t path : Option Text) → Quiet (extent_at fields t path)
  Quiet-extent_at fields t path =
      let extent : ℕ → TrueNasExtent =
        λ id. record { id = id; path = canonical_disk_path path (is_file t) } in
      let named = λ (id : ℕ). required_text fields (codes "name") >> pure (extent id) in
      Quiet->>= (required_int fields (codes "id") []) named
        (Quiet-required_int fields (codes "id") [])
        (λ id.
          Quiet->>= (required_text fields (codes "name")) (λ _. pure (extent id))
            (Quiet-required_text fields (codes "name")) (λ _ w. refl))

  pub Quiet-map_extent : (fields : Fields) → Quiet (map_extent fields)
  unfolding map_extent
  Quiet-map_extent fields =
      Quiet->>= (optional_text fields (codes "type"))
        (λ t. backing_path (is_file t) fields >>= extent_at fields t)
        (Quiet-optional_text fields (codes "type"))
        (λ t.
          Quiet->>= (backing_path (is_file t) fields) (extent_at fields t)
            (Quiet-backing_path (is_file t) fields) (Quiet-extent_at fields t))

  pub Quiet-mapping_result :
      (result : Json) (operation : Text) → Quiet (mapping_result result operation)
  Quiet-mapping_result null operation w = refl
  Quiet-mapping_result (number n) operation w = refl
  Quiet-mapping_result (negative n) operation w = refl
  Quiet-mapping_result (boolean b) operation w = refl
  Quiet-mapping_result (integer n) operation w = refl
  Quiet-mapping_result (text s) operation w = refl
  Quiet-mapping_result (array _) operation w = refl
  Quiet-mapping_result (object _) operation w = refl

  Quiet-text_or : (o : Option Json) (other : Api World Text) → Quiet other → Quiet (text_or o other)
  Quiet-text_or none other h w = h w
  Quiet-text_or (some null) other h w = h w
  Quiet-text_or (some (number n)) other h w = h w
  Quiet-text_or (some (negative n)) other h w = h w
  Quiet-text_or (some (boolean b)) other h w = h w
  Quiet-text_or (some (integer n)) other h w = h w
  Quiet-text_or (some (text [])) other h w = h w
  Quiet-text_or (some (text (c ∷ s))) other h w = refl
  Quiet-text_or (some (array _)) other h w = h w
  Quiet-text_or (some (object _)) other h w = h w

  Quiet-either_text :
      (fields : Fields) (key fallback : Text) → Quiet (either_text fields key fallback)
  Quiet-either_text fields key fallback =
      Quiet-text_or (member key fields) _ (Quiet-text_or (member fallback fields) _ (λ w. refl))

  Quiet-named_snapshot : (dataset : Text) (fields : Fields) → Quiet (named_snapshot dataset fields)
  Quiet-named_snapshot dataset fields =
      let snapshot : Text → TrueNasSnapshot = λ name. record { name = name; dataset = dataset } in
      let name = either_text fields (codes "name") (codes "id") in
      Quiet->>= (either_text fields (codes "id") (codes "name"))
        (λ _. name >>= λ n. pure (snapshot n))
        (Quiet-either_text fields (codes "id") (codes "name"))
        (λ _.
          Quiet->>= name (λ n. pure (snapshot n))
            (Quiet-either_text fields (codes "name") (codes "id")) (λ n w. refl))

  pub Quiet-snapshot_of : (dataset : Text) (fields : Fields) → Quiet (snapshot_of dataset fields)
  Quiet-snapshot_of dataset fields =
      Quiet->>= (text_or (member (codes "dataset") fields) (pure dataset))
        (λ d. named_snapshot d fields)
        (Quiet-text_or (member (codes "dataset") fields) (pure dataset) (λ w. refl))
        (λ d. Quiet-named_snapshot d fields)
