-- ===== src/Adapter/Calls.antt =====
-- truenas_adapter/transport.py: calls of the API, and the JSON values that they pass. The transport is a
-- parameter: it takes a method with its parameters, and answers with a result or an exception.
use true_nas_controller.Common.{
  ℕ, Bool, Option, none, some, List, [], ◌∷◌, Text, text_eq, if◌then◌else◌,
}
use true_nas_controller.Workflow.Outcome.{Outcome, done, unknown, failed}

-- What `json.loads` returns. `integer n` is the integer n, `negative n` the integer -1-n; `number` is a
-- floating-point number, with the whole number from 0 on that it equals, if it equals one.
mutual
  pub data Json : Type 0 where
    null : Json
    number : Option ℕ → Json
    negative : ℕ → Json
    boolean : Bool → Json
    integer : ℕ → Json
    text : Text → Json
    array : Items → Json
    object : Fields → Json

  pub data Items : Type 0 where
    nil : Items
    cons : Json → Items → Items

  pub data Fields : Type 0 where
    end : Fields
    field : Text → Json → Fields → Fields

-- `record.get(key)`
abbrev pub member : Text → Fields → Option Json
member key end = none
member key (field k v fields) =
    let rest = member key fields in if text_eq k key then some v else rest

-- Code that calls the API.
abbrev pub Api : Type 0 → Type 0 → Type 0
Api World A = World → Outcome A × World

-- `TrueNASJsonRpcTransport.request`
abbrev pub Transport : Type 0 → Type 0
Transport World = Text → Items → Api World Json

module _ {World : Type 0} where
  infixl 5 ◌>>=◌ ◌>>◌
  abbrev pub ◌>>=◌ : {A B : Type 0} → Api World A → (A → Api World B) → Api World B
  ◌>>=◌ m f w =
      let (o, w') = m w in
      elim o [
        | done a ↦ f a w'
        | unknown message ↦ (unknown message, w')
        | failed class_name message ↦ (failed class_name message, w')
      ]

  abbrev pub ◌>>◌ : {A B : Type 0} → Api World A → Api World B → Api World B
  m >> k = m >>= λ _. k

  abbrev pub pure : {A : Type 0} → A → Api World A
  pure a w = (done a, w)

  abbrev pub refuse : {A : Type 0} → Text → Text → Api World A
  refuse class_name message w = (failed class_name message, w)

  abbrev pub require : Bool → Text → Text → Api World (Unit {0})
  require c class_name message w = (if c then done tt else failed class_name message, w)

  -- `tuple(f(x) for x in xs)`
  abbrev pub each : {A B : Type 0} → (A → Api World B) → List A → Api World (List B)
  each f [] = pure []
  each f (x ∷ xs) = do y ← f x; ys ← each f xs; pure (y ∷ ys)
