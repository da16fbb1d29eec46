-- ===== src/Tests/Data.antt =====
-- Sample stations, jobs and databases.
use true_nas_controller.Common.{Bool, true, false, Option, none, some, [], ◌∷◌, codes}
use true_nas_controller.Domain.Station.{Station, client, online}
use true_nas_controller.Domain.Snapshot.{ProcessSnapshot}
use true_nas_controller.Domain.Preflight.{PreflightReport, PreflightPolicy, pass}
use true_nas_controller.Domain.Publish.{
  PublishJob, PublishJobStatus, PublishTarget, awaiting_confirmation,
}
use true_nas_controller.Domain.Wizard.{WizardGateInput}
use true_nas_controller.Store.Database.{Database, empty_database}

abbrev pub station_a : Station
station_a = record {
  id = 11;
  station_id = 21;
  display_name = codes "Hall A";
  hostname = codes "hall-a";
  role = client;
  status = online;
  enabled = true;
  deleted_at = none;
  target_name = some (codes "hall-a");
  target_iqn = none;
  initiator_iqn = none;
  last_update_at = none;
}

abbrev pub snapshot_a : ProcessSnapshot
snapshot_a = record {
  station_id = 21;
  captured_at = 1000;
  agent_version = codes "1.0";
  processes = [];
  drives = record { letter = codes "D:"; present = true; free_bytes = some 500 } ∷ [];
  received_at = some 1000;
}

abbrev pub policy_a : PreflightPolicy
policy_a = record {
  max_snapshot_age = 60;
  required_drive_letter = codes "D:";
  min_free_bytes = 100;
}

abbrev pub passing_report : PreflightReport
passing_report = record { station_id = 21; status = pass; checks = []; evaluated_at = 1000 }

-- The operator has not confirmed yet.
abbrev pub unconfirmed_input : WizardGateInput
unconfirmed_input = record {
  admin_report = none;
  client_reports = (21, passing_report) ∷ [];
  selected_station_ids = 21 ∷ [];
  confirmation = none;
}

-- A job in a given state.
abbrev pub job_in : PublishJobStatus → Bool → Option Bool → PublishJob
job_in status dry confirmed = record {
  id = 31;
  idempotency_key = codes "key";
  correlation_id = 41;
  label = codes "v1";
  source_dataset = codes "tank/master";
  dry_run = dry;
  allow_hot_switch = false;
  status = status;
  description = none;
  status_reason = none;
  operator_id = none;
  client_confirmation = confirmed;
  client_confirmation_at = none;
  created_at = some 1;
  started_at = none;
  completed_at = none;
}

abbrev pub waiting_job : PublishJob
waiting_job = job_in awaiting_confirmation false (some true)

abbrev pub target_a : PublishTarget
target_a = record {
  id = 51;
  job_id = 31;
  station_id = 21;
  selected = true;
  preflight_status = some (codes "pass");
  preflight_result = none;
  old_version_id = none;
  new_version_id = none;
  old_mapping = none;
  new_mapping = none;
  switch_status = none;
  verify_status = none;
  error_code = none;
  error_message = none;
  progress_percent = 0;
}

-- A confirmed job that waits to be dispatched to one station.
abbrev pub waiting_db : Database
waiting_db = record empty_database {
  stations = record { station = station_a; state_reason = none } ∷ [];
  jobs = waiting_job ∷ [];
  targets =
      record { target = target_a; station_pk = 11; selected_at = some 1; deselected_at = none }
      ∷ [];
}
