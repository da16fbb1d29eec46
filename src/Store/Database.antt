-- ===== src/Store/Database.antt =====
-- repository/models.py: the tables, as lists of rows, and the constraints that a commit checks.
-- Column lengths, the audit columns `created_at`/`updated_at` that no query reads, foreign keys and the
-- primary key that a snapshot's row is given at random are not modelled; each repository looks a station up
-- itself before it inserts a reference.
use true_nas_controller.Common.{
  ℕ, Bool, true, false, not, ◌&&◌, Option, some, List, [], ◌∷◌, Text, any, text_eq, ◌==◌,
}
use true_nas_controller.Domain.Station.{Station}
use true_nas_controller.Domain.Snapshot.{ProcessSnapshot}
use true_nas_controller.Domain.Preflight.{ProcessRule}
use true_nas_controller.Domain.Publish.{PublishJob, PublishTarget, PublishArtifact}
use true_nas_controller.Domain.Token.{ProvisioningToken}
use true_nas_controller.Domain.Command.{AgentCommand}
use true_nas_controller.Domain.Outbox.{OutboxEventStatus, PayloadValue}

-- `StationRecord`; `station.id` is the primary key, `station.station_id` the stable identifier.
pub record StationRow : Type 0 where
  pub station : Station
  pub state_reason : Option Text

-- `AgentRecord`; `station_pk` refers to `StationRecord.id`.
pub record AgentRow : Type 0 where
  pub id : ℕ
  pub station_pk : ℕ
  pub agent_uuid : ℕ
  pub agent_version : Text
  pub credential_hash : Option Text
  pub credential_created_at : ℕ
  pub revoked_at : Option ℕ
  pub last_ip_addresses : List Text
  pub last_mac_addresses : List Text
  pub status : Text
  pub last_seen_at : Option ℕ
  pub last_heartbeat_at : Option ℕ
  pub last_process_snapshot_at : Option ℕ
  pub last_drive_snapshot_at : Option ℕ

-- `AgentCommandRecord`
pub record CommandRow : Type 0 where
  pub command : AgentCommand
  pub created_at : ℕ
  pub acknowledged_at : Option ℕ

-- `EnrollmentTokenRecord`
pub record EnrollmentRow : Type 0 where
  pub id : ℕ
  pub station_pk : ℕ
  pub token_hash : Text
  pub expires_at : ℕ
  pub used_at : Option ℕ
  pub revoked_at : Option ℕ

-- `ProcessSnapshotRecord`
pub record SnapshotRow : Type 0 where
  pub station_pk : ℕ
  pub snapshot : ProcessSnapshot
  pub received_at : ℕ

-- `PublishTargetRecord`; the stable station id is read through `station_pk`.
pub record TargetRow : Type 0 where
  pub target : PublishTarget
  pub station_pk : ℕ
  pub selected_at : Option ℕ
  pub deselected_at : Option ℕ

-- `OutboxEventRecord`
pub record OutboxRow : Type 0 where
  pub id : ℕ
  pub aggregate_id : ℕ
  pub event_type : Text
  pub payload : List (Text × PayloadValue)
  pub correlation_id : ℕ
  pub status : OutboxEventStatus
  pub attempts : ℕ
  pub available_at : ℕ
  pub locked_at : Option ℕ
  pub locked_by : Option Text
  pub lease_expires_at : Option ℕ
  pub dispatched_at : Option ℕ
  pub last_error : Option Text
  pub created_at : ℕ

pub record Database : Type 0 where
  pub stations : List StationRow
  pub agents : List AgentRow
  pub commands : List CommandRow
  pub enrollment_tokens : List EnrollmentRow
  pub provisioning_tokens : List ProvisioningToken
  pub snapshots : List SnapshotRow
  pub rules : List ProcessRule
  pub jobs : List PublishJob
  pub targets : List TargetRow
  pub artifacts : List PublishArtifact
  pub outbox : List OutboxRow

abbrev pub empty_database : Database
empty_database = record {
  stations = [];
  agents = [];
  commands = [];
  enrollment_tokens = [];
  provisioning_tokens = [];
  snapshots = [];
  rules = [];
  jobs = [];
  targets = [];
  artifacts = [];
  outbox = [];
}

-- No two rows agree by `same`.
pub unique {ℓ} : {A : Type ℓ} → (A → A → Bool) → List A → Bool
unique same [] = true
unique same (x ∷ xs) = not (any xs (same x)) && unique same xs

-- A rule that is stored has an identifier.
abbrev is_same_key : Option ℕ → Option ℕ → Bool
is_same_key (some a) (some b) = a == b
is_same_key _ _ = false

-- The primary keys and the unique columns of the tables.
unfoldable pub constraints_hold : Database → Bool
unfolding unique
constraints_hold db =
    unique (λ (a b : StationRow). a.station.id == b.station.id) db.stations
    && unique (λ (a b : StationRow). a.station.station_id == b.station.station_id) db.stations
    && unique (λ (a b : AgentRow). a.id == b.id) db.agents
    && unique (λ (a b : AgentRow). a.station_pk == b.station_pk) db.agents
    && unique (λ (a b : AgentRow). a.agent_uuid == b.agent_uuid) db.agents
    && unique (λ (a b : CommandRow). a.command.id == b.command.id) db.commands
    && unique (λ (a b : EnrollmentRow). a.id == b.id) db.enrollment_tokens
    && unique (λ (a b : EnrollmentRow). text_eq a.token_hash b.token_hash) db.enrollment_tokens
    && unique (λ (a b : ProvisioningToken). a.id == b.id) db.provisioning_tokens
    && unique (λ (a b : ProvisioningToken). text_eq a.token_hash b.token_hash)
        db.provisioning_tokens
    && unique (λ (a b : PublishJob). a.id == b.id) db.jobs
    && unique (λ (a b : PublishJob). text_eq a.idempotency_key b.idempotency_key) db.jobs
    && unique (λ (a b : TargetRow). a.target.id == b.target.id) db.targets
    && unique
        (λ (a b : TargetRow). a.target.job_id == b.target.job_id && a.station_pk == b.station_pk)
        db.targets
    && unique (λ (a b : PublishArtifact). a.id == b.id) db.artifacts
    && unique (λ (a b : PublishArtifact). a.job_id == b.job_id && a.station_id == b.station_id)
        db.artifacts
    && unique (λ (a b : OutboxRow). a.id == b.id) db.outbox
    && unique (λ (a b : ProcessRule). is_same_key a.id b.id) db.rules
