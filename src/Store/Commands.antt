-- ===== src/Store/Commands.antt =====
-- repository/agent_commands.py: signed commands leased to an agent.
use true_nas_controller.Common.{
  ℕ, ◌+◌, Bool, true, false, not, ◌&&◌, ◌||◌, Option, none, some, List, [], ◌∷◌, ◌++◌, ltb, leb,
  any, find_first, keep_if, update_if, order_by, take, map, ◌==◌, if◌then◌else◌,
}
use true_nas_controller.Domain.Command.{
  AgentCommand, pending, leased, acknowledged, expired, command_status_eq,
}
use true_nas_controller.Store.Database.{Database, CommandRow}
use true_nas_controller.Store.Session.{value_error, Tx, ◌>>=◌, ◌>>◌, pure, raise_if, gets, modify}

-- `add`; `now` is the column default of `created_at`
unfoldable pub add_command : ℕ → AgentCommand → Tx (Unit {0})
add_command now command = modify (λ db. record db {
  commands =
      db.commands ++ record { command = command; created_at = now; acknowledged_at = none } ∷ [];
})

-- `lease_until <= now`, false on NULL
abbrev lease_ended : Option ℕ → ℕ → Bool
lease_ended none now = false
lease_ended (some t) now = leb t now

-- The `WHERE` of `claim_for_agent`.
unfoldable pub offered : ℕ → ℕ → CommandRow → Bool
offered agent_id now row =
    row.command.agent_id == agent_id
    && ltb now row.command.expires_at
    && (command_status_eq row.command.status pending
        || (command_status_eq row.command.status leased && lease_ended row.command.lease_until now))

unfoldable pub leased_until : ℕ → CommandRow → CommandRow
leased_until lease_until row = record row {
  command = record row.command {
    status = leased;
    lease_until = some lease_until;
    attempts = row.command.attempts + 1;
  };
}

-- The rows that one claim takes.
unfoldable pub offers : ℕ → ℕ → ℕ → List CommandRow → List CommandRow
offers agent_id now limit rows = take limit (
    order_by (λ (a b : CommandRow). leb a.created_at b.created_at)
      (keep_if (offered agent_id now) rows))

-- `claim_for_agent`
unfoldable pub claim_for_agent : ℕ → ℕ → ℕ → ℕ → Tx (List AgentCommand)
claim_for_agent agent_id now lease_for limit = do
  raise_if (ltb limit 1) value_error
  raise_if (ltb lease_for 1) value_error
  taken ← gets (λ db. offers agent_id now limit db.commands)
  modify (λ db. record db {
    commands =
        update_if
          (λ (row : CommandRow). any taken (λ (t : CommandRow). t.command.id == row.command.id))
          (leased_until (now + lease_for)) db.commands;
  })
  pure (map (λ (row : CommandRow). (leased_until (now + lease_for) row).command) taken)

abbrev set_command : CommandRow → (CommandRow → CommandRow) → Tx (Unit {0})
set_command found f = modify (λ db. record db {
  commands = update_if (λ (r : CommandRow). r.command.id == found.command.id) f db.commands;
})

abbrev pub lease_lapsed : Option ℕ → ℕ → Bool
lease_lapsed none now = false
lease_lapsed (some t) now = ltb t now

abbrev mark_expired : CommandRow → Tx Bool
mark_expired row = do
  set_command row
      (λ r. record r { command = record r.command { status = expired; lease_until = none } })
  pure false

abbrev mark_acknowledged : CommandRow → ℕ → Tx Bool
mark_acknowledged row now = do
  set_command row (λ r. record r {
    command = record r.command { status = acknowledged; lease_until = none };
    acknowledged_at = some now;
  })
  pure true

abbrev pub acknowledge_row : ℕ → Option CommandRow → Tx Bool
acknowledge_row now none = pure false
acknowledge_row now (some row) =
    if command_status_eq row.command.status acknowledged
    then pure true
    else if leb row.command.expires_at now
    then mark_expired row
    else if not (command_status_eq row.command.status leased)
    then pure false
    else if lease_lapsed row.command.lease_until now
    then pure false
    else mark_acknowledged row now

abbrev pub find_command : ℕ → ℕ → Database → Option CommandRow
find_command agent_id command_id db =
    find_first (λ (r : CommandRow). r.command.id == command_id && r.command.agent_id == agent_id)
      db.commands

-- `acknowledge`
unfoldable pub acknowledge : ℕ → ℕ → ℕ → Tx Bool
acknowledge agent_id command_id now = do
  found ← gets (find_command agent_id command_id)
  acknowledge_row now found
