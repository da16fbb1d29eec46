-- ===== src/Tests/Domain.antt =====
-- The rules of the domain, and the relay's delivery.
use true_nas_controller.Common.{
  ◌+◌, ◌*◌, ◌≤◌, ◌<◌, ◌≡◌, ◌≢◌, refl, ◌↔◌, true, false, none, some, List, [], ◌∷◌, codes, All, any,
  arith, length, order_by, uuid_text, parse_uuid, parse_uuid-uuid_text,
}
use true_nas_controller.Domain.Preflight.{can_publish, evaluate_preflight}
use true_nas_controller.Domain.Preflight.Readiness.{IsReady, evaluate_preflight_iff}
use true_nas_controller.Domain.Wizard.{can_advance, evaluate_wizard_gate}
use true_nas_controller.Domain.Wizard.Gate.{IsPrepared, can_advance_iff}
use true_nas_controller.Domain.Publish.{
  PublishJob, PublishJobStatus, PublishTargetResult, draft, preflight, awaiting_confirmation,
  publishing, switching, completed, partial_failure, verified, transition,
}
use true_nas_controller.Domain.Publish.Machine.{
  stage, visits, run_transitions, run_confirmed, run_bounded, run_final, transition_forward,
}
use true_nas_controller.Domain.Outbox.{OutboxEvent, OutboxEventStatus, pending}
use true_nas_controller.Store.Database.{Database, OutboxRow, empty_database, constraints_hold}
use true_nas_controller.Store.Session.{ok, commit, unit_of_work}
use true_nas_controller.Store.Outbox.{
  to_event, event_row, claimed, claimable, claim_pending, lease, mark_failed,
}
use true_nas_controller.Worker.Relay.Polls.{event_in, polls_apart}
use true_nas_controller.Workflow.Outcome.{is_verified, final_status}
use true_nas_controller.Workflow.Outcome.FinalStatus.{final_status_iff}
use true_nas_controller.Application.Dispatch.{dispatch_event}
use true_nas_controller.Worker.Relay.{
  claim_in, RelayConfig, OutboxRelayResult, message_of, run_once, record_outcome, retry_delay,
  second,
}
use true_nas_controller.Worker.Relay.Delivery.{payload_of, message_of-dispatch_event}
use true_nas_controller.Worker.Relay.Counts.{Settles, run_once-Settles}
use true_nas_controller.Worker.Relay.Retries.{fail_times, fail_times_status, retry_delay_bounds}
use true_nas_controller.Tests.Data.{
  station_a, snapshot_a, policy_a, unconfirmed_input, job_in, waiting_job,
}

evaluate_preflight_iff_example :
    (can_publish (evaluate_preflight (λ t. t) station_a (some snapshot_a) [] policy_a 1030) ≡ true)
    ↔ IsReady (λ t. t) station_a snapshot_a [] policy_a 1030
evaluate_preflight_iff_example =
    evaluate_preflight_iff (λ t. t) station_a snapshot_a [] policy_a 1030

can_advance_iff_example :
    (can_advance (evaluate_wizard_gate unconfirmed_input) ≡ true)
    ↔ (IsPrepared unconfirmed_input × (unconfirmed_input.confirmation ≡ some true))
can_advance_iff_example = can_advance_iff unconfirmed_input

abbrev path_to_switching : List PublishJobStatus
path_to_switching = preflight ∷ awaiting_confirmation ∷ publishing ∷ switching ∷ []

abbrev draft_job : PublishJob
draft_job = job_in draft false none

ran : run_transitions path_to_switching draft_job ≡ some (job_in switching false none)
unfolding run_transitions transition
ran = refl

run_confirmed_example :
    (visits awaiting_confirmation path_to_switching ≡ true)
    × (visits publishing path_to_switching ≡ true)
run_confirmed_example =
    run_confirmed path_to_switching draft_job (job_in switching false none) ran (omega arith)
      (omega arith)

run_bounded_example : stage draft + length path_to_switching ≤ 6
run_bounded_example = run_bounded path_to_switching draft_job (job_in switching false none) ran

run_final_example : run_transitions (publishing ∷ []) (job_in partial_failure false none) ≡ none
run_final_example = run_final (job_in partial_failure false none) publishing [] refl

transition_forward_example :
    (stage draft < stage preflight) × (job_in preflight false none ≡ job_in preflight false none)
unfolding transition
transition_forward_example =
    transition_forward draft_job preflight (job_in preflight false none) refl

parse_uuid-uuid_text_example : parse_uuid (uuid_text 4660) ≡ some 4660
parse_uuid-uuid_text_example = parse_uuid-uuid_text 4660 (omega arith)

abbrev verified_a : PublishTargetResult
verified_a = record {
  station_id = 21;
  status = verified;
  old_mapping = none;
  new_mapping = some (codes "zvol/a");
  error_code = none;
  error_message = none;
  storage_created = true;
}

final_status_iff_example :
    ((final_status (verified_a ∷ []) ≡ completed)
      ↔ All (λ (t : PublishTargetResult). is_verified t.status ≡ true) (verified_a ∷ []))
    × ((final_status (verified_a ∷ []) ≡ PublishJobStatus.failed)
        ↔ All (λ (t : PublishTargetResult). is_verified t.status ≡ false) (verified_a ∷ []))
    × ((final_status (verified_a ∷ []) ≡ partial_failure) ↔ (
        (final_status (verified_a ∷ []) ≢ completed)
        × (final_status (verified_a ∷ []) ≢ PublishJobStatus.failed)))
final_status_iff_example = final_status_iff verified_a []

abbrev row_a : OutboxRow
row_a = event_row 7 (dispatch_event 61 waiting_job)

message_of-dispatch_event_example : message_of (to_event row_a) ≡ some (payload_of waiting_job)
message_of-dispatch_event_example =
    message_of-dispatch_event 7 61 waiting_job (omega arith) (omega arith)

abbrev config_a : RelayConfig
config_a = record { worker_id = codes "w"; batch_size = 5; max_attempts = 3; lease_seconds = 30 }

-- An event of a kind that the relay does not send.
abbrev strange_db : Database
strange_db = record empty_database { outbox = record row_a { event_type = codes "other" } ∷ [] }

abbrev refused_result : OutboxRelayResult
refused_result = record { claimed = 1; dispatched = 0; failed = 1 }

relayed :
    run_once config_a 9 (λ n. true) strange_db
    ≡ (ok refused_result, (run_once config_a 9 (λ n. true) strange_db).1)
unfolding run_once claim_pending claimed claimable record_outcome mark_failed commit
    constraints_hold unit_of_work order_by message_of dispatch_event lease
relayed = refl

abbrev strange_event : OutboxEvent
strange_event = to_event (record row_a { event_type = codes "other" })

-- The database after the first transaction of a poll.
abbrev leased_db : Database
leased_db = record strange_db {
  outbox = lease (codes "w") 9 (30 * second) (record row_a { event_type = codes "other" }) ∷ [];
}

claimed_first : unit_of_work (claim_in config_a 9) strange_db ≡ (ok (strange_event ∷ []), leased_db)
unfolding unit_of_work claim_in claim_pending commit constraints_hold claimed lease order_by
    claimable dispatch_event
claimed_first = refl

run_once-Settles_example :
    Settles config_a 9
      (λ n. true)
      0
      (strange_event ∷ [])
      leased_db.outbox
      (record { claimed = 1; dispatched = 0; failed = 0 })
      refused_result
      (run_once config_a 9 (λ n. true) strange_db).1
run_once-Settles_example =
    run_once-Settles config_a 9 (λ n. true) strange_db leased_db
      (run_once config_a 9 (λ n. true) strange_db).1 (strange_event ∷ []) refused_result
      claimed_first relayed

-- The same relay polls again before the lease has ended.
claimed_second : unit_of_work (claim_in config_a 10) leased_db ≡ (ok [], leased_db)
unfolding unit_of_work claim_in claim_pending commit constraints_hold claimed lease order_by
    claimable dispatch_event
claimed_second = refl

polls_apart_example : any [] (event_in (strange_event ∷ [])) ≡ false
polls_apart_example =
    polls_apart config_a config_a 9 10 strange_db leased_db leased_db (strange_event ∷ []) []
      claimed_first (omega arith) claimed_second

retry_delay_bounds_example : (2 * second ≤ retry_delay 3) × (retry_delay 3 ≤ 256 * second)
retry_delay_bounds_example = retry_delay_bounds 3

fail_times_status_example :
    (2 < 3 → (fail_times (codes "m") (λ n. n) 3 2 row_a).status ≡ pending)
    × (3 ≤ 2 → (fail_times (codes "m") (λ n. n) 3 2 row_a).status ≡ OutboxEventStatus.failed)
unfolding dispatch_event
fail_times_status_example = fail_times_status (codes "m") (λ n. n) 3 2 row_a refl refl (omega arith)
