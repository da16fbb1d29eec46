-- ===== src/Tests/Jobs.antt =====
-- Jobs, tokens and commands over the database.
use true_nas_controller.Common.{
  ◌≡◌, refl, ◌↔◌, ◌⊎◌, true, false, none, some, [], ◌∷◌, codes, All, order_by,
}
use true_nas_controller.Domain.Publish.{
  PublishJob, PublishArtifact, retired, draft, preflight, awaiting_confirmation, publishing,
  transition,
}
use true_nas_controller.Domain.Wizard.{evaluate_wizard_gate}
use true_nas_controller.Domain.Wizard.Gate.{IsPrepared}
use true_nas_controller.Domain.Token.{ProvisioningToken, provisioning_usable}
use true_nas_controller.Store.Database.{Database, empty_database, constraints_hold}
use true_nas_controller.Store.Session.{
  Session, ok, err, publish_draft_validation, publish_dispatch_state, publish_job_not_found,
  agent_command_unauthorized, ◌>>◌, commit, unit_of_work,
}
use true_nas_controller.Store.Jobs.{get_job, update_job}
use true_nas_controller.Store.Targets.{list_for_job}
use true_nas_controller.Store.Outbox.{add_event}
use true_nas_controller.Store.Agents.{get_by_credential_hash}
use true_nas_controller.Store.Tokens.{consume_provisioning}
use true_nas_controller.Store.Tokens.OneTime.{consume_once}
use true_nas_controller.Store.Artifacts.{set_current_artifact, list_cleanup_candidates}
use true_nas_controller.Store.Artifacts.Cleanup.{current_not_offered, IsOther}
use true_nas_controller.Application.Dispatch.{dispatch_publish_job}
use true_nas_controller.Application.Dispatch.Guarantees.{
  Dispatched, dispatch-ok_iff, dispatch_atomic, dispatch_once,
}
use true_nas_controller.Application.Draft.{
  PublishRequest, Fresh, create_publish_job, invalid_request,
}
use true_nas_controller.Application.Draft.Atomic.{create_publish_job_atomic}
use true_nas_controller.Application.Confirmation.{confirm_job, accepts_preflight}
use true_nas_controller.Application.Confirmation.Gate.{confirm_job_waits}
use true_nas_controller.Application.AgentCommands.{acknowledge_agent_command}
use true_nas_controller.Application.AgentCommands.Atomic.{acknowledge_atomic}
use true_nas_controller.Tests.Data.{waiting_db, unconfirmed_input, job_in}

-- The job of `waiting_db` once it has been dispatched, and the database then.
abbrev sent_job : PublishJob
sent_job = job_in publishing false (some true)

abbrev sent_db : Database
sent_db = (dispatch_publish_job 7 61 31 waiting_db).1

dispatched_now : dispatch_publish_job 7 61 31 waiting_db ≡ (ok sent_job, sent_db)
unfolding dispatch_publish_job get_job list_for_job update_job add_event transition commit
    constraints_hold order_by unit_of_work
dispatched_now = refl

dispatch-ok_iff_example :
    (dispatch_publish_job 7 61 31 waiting_db ≡ (ok sent_job, sent_db))
    ↔ Dispatched 7 61 31 waiting_db sent_job sent_db
dispatch-ok_iff_example = dispatch-ok_iff 7 61 31 waiting_db sent_db sent_job

dispatch_atomic_example : (dispatch_publish_job 7 61 99 waiting_db).1 ≡ waiting_db
unfolding dispatch_publish_job get_job unit_of_work
dispatch_atomic_example = dispatch_atomic 7 61 99 waiting_db publish_job_not_found refl

dispatch_once_example : dispatch_publish_job 8 62 31 sent_db ≡ (err publish_dispatch_state, sent_db)
dispatch_once_example = dispatch_once 7 61 31 waiting_db sent_db sent_job dispatched_now 8 62

abbrev session_of : Database → Session
session_of db = record { working = db; durable = db }

abbrev token_a : ProvisioningToken
token_a = record {
  id = 71;
  token_hash = codes "h";
  expires_at = 100;
  used_at = none;
  revoked_at = none;
}

abbrev token_session : Session
token_session = session_of (record empty_database { provisioning_tokens = token_a ∷ [] })

consumed :
    consume_provisioning (codes "h") 5 token_session
    ≡ (ok (some token_a), (consume_provisioning (codes "h") 5 token_session).1)
unfolding consume_provisioning provisioning_usable
consumed = refl

consume_once_example :
    consume_provisioning (codes "h") 6 (consume_provisioning (codes "h") 5 token_session).1
    ≡ (ok none, (consume_provisioning (codes "h") 5 token_session).1)
consume_once_example =
    consume_once (codes "h") 5 6 token_session (consume_provisioning (codes "h") 5 token_session).1
      token_a consumed

abbrev artifact_a : PublishArtifact
artifact_a = record {
  id = 81;
  job_id = 31;
  station_id = 21;
  source_dataset = codes "tank/master";
  dataset_name = codes "tank/master-a";
  snapshot_ref = codes "tank/master@s";
  mapping_ref = codes "zvol/tank/master-a";
  created_at = 1;
  status = retired;
  is_current = false;
  deleted_at = none;
  last_error = none;
}

abbrev artifact_session : Session
artifact_session = session_of (record empty_database {
  artifacts = artifact_a ∷ record artifact_a { id = 82; job_id = 32 } ∷ [];
})

offered_now :
    (set_current_artifact 21 (some 81) >> list_cleanup_candidates 9 5) artifact_session ≡ (
      ok (record artifact_a { id = 82; job_id = 32 } ∷ []),
      (set_current_artifact 21 (some 81) artifact_session).1,
    )
unfolding set_current_artifact list_cleanup_candidates order_by
offered_now = refl

current_not_offered_example : All (IsOther 21 81) (record artifact_a { id = 82; job_id = 32 } ∷ [])
current_not_offered_example =
    current_not_offered 21 81 9 5 artifact_session (record artifact_a { id = 82; job_id = 32 } ∷ [])
      (set_current_artifact 21 (some 81) artifact_session).1 offered_now

abbrev blank_request : PublishRequest
blank_request = record {
  label = codes "  ";
  source_dataset = codes "tank/master";
  station_ids = 21 ∷ [];
  idempotency_key = codes "k";
  correlation_id = 41;
  description = none;
  dry_run = true;
  allow_hot_switch = false;
  operator_id = none;
}

abbrev fresh_a : Fresh
fresh_a = record { job_id = 32; target_id = λ n. n; now = 7; clock = λ n. n }

create_publish_job_atomic_example :
    (create_publish_job blank_request fresh_a waiting_db).1 ≡ waiting_db
unfolding create_publish_job invalid_request
create_publish_job_atomic_example =
    create_publish_job_atomic blank_request fresh_a waiting_db publish_draft_validation refl

confirm_job_waits_example :
    (j : PublishJob) × (confirm_job 7
        (evaluate_wizard_gate unconfirmed_input)
        none
        (job_in draft false none)
        (session_of waiting_db)
      ≡ (ok j, session_of waiting_db))
    × ((j.status ≡ awaiting_confirmation)
        ↔ ((draft ≡ awaiting_confirmation) ⊎ IsPrepared unconfirmed_input))
    × ((j.status ≡ awaiting_confirmation) ⊎ (j.status ≡ preflight))
unfolding accepts_preflight
confirm_job_waits_example =
    confirm_job_waits 7 unconfirmed_input none (job_in draft false none) (session_of waiting_db)
      refl

acknowledge_atomic_example :
    (acknowledge_agent_command (λ secret. secret) (codes "x") 5 7 waiting_db).1 ≡ waiting_db
unfolding acknowledge_agent_command get_by_credential_hash unit_of_work
acknowledge_atomic_example =
    acknowledge_atomic (λ secret. secret) (codes "x") 5 7 waiting_db agent_command_unauthorized refl
