-- ===== src/Store/Rules.antt =====
-- repository/rules.py: the editable process rules.
use true_nas_controller.Common.{
  ℕ, Bool, true, false, not, ◌&&◌, ◌||◌, Option, none, some, List, [], ◌∷◌, ◌++◌, text_eq, text_leb,
  count, keep_if, order_by, leb, ◌==◌,
}
use true_nas_controller.Domain.Station.{StationRole}
use true_nas_controller.Domain.Preflight.{ProcessRule, applies_to_role}
use true_nas_controller.Store.Session.{Tx, ◌>>=◌, ◌>>◌, pure, gets, modify}

abbrev id_leb : Option ℕ → Option ℕ → Bool
id_leb none other = true
id_leb (some a) none = false
id_leb (some a) (some b) = leb a b

-- `ORDER BY name, id`, with names compared by code points
abbrev pub rule_order : ProcessRule → ProcessRule → Bool
rule_order a b = text_leb a.name b.name && (not (text_eq a.name b.name) || id_leb a.id b.id)

-- `list_all`
unfoldable pub list_rules : Tx (List ProcessRule)
list_rules = gets (λ db. order_by rule_order db.rules)

-- The `WHERE` of `list_for_role`.
abbrev pub is_for_role : StationRole → ProcessRule → Bool
is_for_role role rule = rule.enabled && applies_to_role rule.role role

-- `list_for_role`
unfoldable pub list_for_role : StationRole → Tx (List ProcessRule)
list_for_role role = gets (λ db. order_by rule_order (keep_if (is_for_role role) db.rules))

-- `add`
unfoldable pub add_rule : ProcessRule → Tx (Unit {0})
add_rule rule = modify (λ db. record db { rules = db.rules ++ rule ∷ [] })

abbrev pub is_rule : ℕ → ProcessRule → Bool
is_rule id rule = elim (rule.id) [ none ↦ false | some other ↦ other == id ]

-- `delete`: whether one row was deleted.
unfoldable pub delete_rule : ℕ → Tx Bool
delete_rule rule_id = do
  rows ← gets (λ db. db.rules)
  modify (λ db. record db { rules = keep_if (λ rule. not (is_rule rule_id rule)) db.rules })
  pure (count (is_rule rule_id) rows == 1)
