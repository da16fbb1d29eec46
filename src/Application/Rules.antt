-- ===== src/Application/Rules.antt =====
-- application/process_rules.py: the operator's commands on the process rules.
use true_nas_controller.Common.{ℕ, Bool, Option, some, List, Text, strip, is_empty, if◌then◌else◌}
use true_nas_controller.Domain.Station.{StationRole}
use true_nas_controller.Domain.Preflight.{ProcessRule, RuleSeverity}
use true_nas_controller.Store.Database.{Database}
use true_nas_controller.Store.Session.{
  Result, err, value_error, Tx, ◌>>=◌, ◌>>◌, pure, commit, unit_of_work,
}
use true_nas_controller.Store.Rules.{list_rules, add_rule, delete_rule}

-- `ListProcessRulesUseCase.execute`
unfoldable pub list_process_rules : Database → Result (List ProcessRule) × Database
list_process_rules db = unit_of_work list_rules db

pub record RuleRequest : Type 0 where
  pub name : Text
  pub role : Option StationRole
  pub required_closed : Bool
  pub severity : RuleSeverity
  pub enabled : Bool
  pub persistent_policy : Bool

abbrev pub new_rule : ℕ → RuleRequest → ProcessRule
new_rule id request = record {
  name = strip request.name;
  role = request.role;
  required_closed = request.required_closed;
  severity = request.severity;
  enabled = request.enabled;
  persistent_policy = request.persistent_policy;
  id = some id;
}

-- `CreateProcessRuleUseCase.execute`; `id` is what `uuid4()` returns.
unfoldable pub create_process_rule : ℕ → RuleRequest → Database → Result ProcessRule × Database
create_process_rule id request db =
    if is_empty (strip request.name)
    then (err value_error, db)
    else unit_of_work (add_rule (new_rule id request) >> commit >> pure (new_rule id request)) db

abbrev commit_if : Bool → Tx (Unit {0})
commit_if c = if c then commit else pure tt

-- `DeleteProcessRuleUseCase.execute`
unfoldable pub delete_process_rule : ℕ → Database → Result Bool × Database
delete_process_rule rule_id db =
    unit_of_work (do deleted ← delete_rule rule_id; commit_if deleted; pure deleted) db
