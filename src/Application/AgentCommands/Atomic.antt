-- ===== src/Application/AgentCommands/Atomic.antt =====
-- An acknowledgement that is refused leaves no trace (application/agent_commands.py).
use true_nas_controller.Common.{
  ℕ, ◌≡◌, refl, Bool, not, Option, none, some, Text, Bool-cases, inl, inr, leb,
}
use true_nas_controller.Domain.Command.{acknowledged, leased, command_status_eq}
use true_nas_controller.Domain.Token.{AgentBinding, can_accept_heartbeat}
use true_nas_controller.Store.Database.{Database, AgentRow, StationRow, CommandRow}
use true_nas_controller.Store.Session.{
  Error, err, agent_command_unauthorized, agent_command_acknowledgement_rejected, ◌>>◌, ◌>>=◌,
  one_or_none, raise_if, commit,
}
use true_nas_controller.Store.Session.Atomic.{
  Keeps, Atomic, Keeps->>=, Keeps-one_or_none, Atomic->>=, Atomic-commit_last, unit_of_work-Atomic,
}
use true_nas_controller.Store.Agents.{
  get_by_credential_hash, optional_binding, joined_agents, has_credential,
}
use true_nas_controller.Store.Commands.{acknowledge, acknowledge_row, find_command, lease_lapsed}
use true_nas_controller.Application.AgentCommands.{
  require_active, acknowledge_in, acknowledge_agent_command,
}

Keeps-optional_binding : (o : Option (AgentRow × StationRow)) → Keeps (optional_binding o)
Keeps-optional_binding none s = refl
Keeps-optional_binding (some r) s = refl

Keeps-get_by_credential_hash : (hash : Text) → Keeps (get_by_credential_hash hash)
unfolding get_by_credential_hash
Keeps-get_by_credential_hash hash s =
    let rows = joined_agents (λ r. has_credential hash r.0.credential_hash) s.working in
    Keeps->>= (one_or_none rows) optional_binding (Keeps-one_or_none rows) Keeps-optional_binding s

Keeps-require_active : (e : Error) (o : Option AgentBinding) → Keeps (require_active e o)
Keeps-require_active e none s = refl
Keeps-require_active e (some agent) s = elim (Bool-cases (can_accept_heartbeat agent)) [
  | inl h ↦ rw h refl
  | inr h ↦ rw h refl
]

Keeps-acknowledge_row : (now : ℕ) (o : Option CommandRow) → Keeps (acknowledge_row now o)
Keeps-acknowledge_row now none s = refl
Keeps-acknowledge_row now (some row) s =
    elim (Bool-cases (command_status_eq row.command.status acknowledged)) [
      | inl a ↦ rw a refl
      | inr a ↦ rw a (elim (Bool-cases (leb row.command.expires_at now)) [
        | inl b ↦ rw b refl
        | inr b ↦ rw b (elim (Bool-cases (command_status_eq row.command.status leased)) [
          | inr c ↦ rw c refl
          | inl c ↦ rw c (elim (Bool-cases (lease_lapsed row.command.lease_until now)) [
            | inl d ↦ rw d refl
            | inr d ↦ rw d refl
          ])
        ])
      ])
    ]

module _ (hash_secret : Text → Text) where
  Atomic-acknowledge_in :
      (credential : Text) (command_id now : ℕ)
      → Atomic (acknowledge_in hash_secret credential command_id now)
  unfolding acknowledge_in acknowledge
  Atomic-acknowledge_in credential command_id now =
      let finish =
        λ (done : Bool). raise_if (not done) agent_command_acknowledgement_rejected >> commit in
      Atomic->>= (get_by_credential_hash (hash_secret credential))
        (λ found. require_active agent_command_unauthorized found >>= λ agent.
          acknowledge agent.id command_id now >>= finish)
        (Keeps-get_by_credential_hash (hash_secret credential))
        (λ found.
          Atomic->>= (require_active agent_command_unauthorized found)
            (λ agent. acknowledge agent.id command_id now >>= finish)
            (Keeps-require_active agent_command_unauthorized found)
            (λ agent.
              Atomic->>= (acknowledge agent.id command_id now) finish
                (λ s. Keeps-acknowledge_row now (find_command agent.id command_id s.working) s)
                (λ done.
                  Atomic->>= (raise_if (not done) agent_command_acknowledgement_rejected)
                    (λ _. commit) (λ s. refl) (λ _. Atomic-commit_last))))

  -- An acknowledgement that is refused leaves the database as it was. This holds for an expired command
  -- too: the state EXPIRED that the repository writes for it is dropped with the rest.
  pub acknowledge_atomic :
      (credential : Text) (command_id now : ℕ) (db : Database) (e : Error)
      → (acknowledge_agent_command hash_secret credential command_id now db).0 ≡ err e
      → (acknowledge_agent_command hash_secret credential command_id now db).1 ≡ db
  unfolding acknowledge_agent_command
  acknowledge_atomic credential command_id now db e h =
      unit_of_work-Atomic (acknowledge_in hash_secret credential command_id now) db e
        (Atomic-acknowledge_in credential command_id now) h
