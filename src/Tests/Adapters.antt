-- ===== src/Tests/Adapters.antt =====
-- The adapters and the stored preflight at concrete inputs.
use true_nas_controller.Store.Agents.{latest_snapshot}
use true_nas_controller.Store.Stations.{get_station}
use true_nas_controller.Adapter.Write.{
  canonical_disk_device, clone_snapshot, delete_dataset, is_safe_dataset, is_safe_device,
  is_safe_snapshot_name, partition_at, update_extent_device,
}
use true_nas_controller.Common.{
  ℕ, ◌+◌, ◌≡◌, ◌↔◌, refl, true, false, none, some, List, [], ◌∷◌, ◌++◌, codes, All, order_by, strip,
}
use true_nas_controller.Domain.Publish.{draft}
use true_nas_controller.Domain.Station.{station_error}
use true_nas_controller.Domain.Preflight.{PreflightReport, can_publish, blocking}
use true_nas_controller.Domain.Preflight.Readiness.{IsReady}
use true_nas_controller.Store.Database.{Database}
use true_nas_controller.Store.Session.{ok}
use true_nas_controller.Workflow.Outcome.{done, returned}
use true_nas_controller.Workflow.Fake.{PublishWorkflowResult, execute}
use true_nas_controller.Workflow.Fake.Reports.{IsReport}
use true_nas_controller.Application.PreflightQuery.{evaluate_station_preflight}
use true_nas_controller.Application.PreflightQuery.Policy.{evaluate_station_preflight-IsReady}
use true_nas_controller.Adapter.Calls.{boolean, Transport}
use true_nas_controller.Adapter.Registry.{
  TrueNasMethodRegistry, new_registry, read_methods, write_methods, family_of, resolve, split,
}
use true_nas_controller.Adapter.Write.Permitted.{Permitted, noted}
use true_nas_controller.Adapter.Write.Requests.{WriteCall, after_calls, after_calls-Permitted}
use true_nas_controller.Adapter.Write.Requests.WriteCall.{clone, update, delete}
use true_nas_controller.Adapter.FakeStorage.{FakeStorage, fake_storage}
use true_nas_controller.Adapter.FakeStorage.Runs.{fake_run-returns}
use true_nas_controller.Tests.Data.{station_a, snapshot_a, policy_a, job_in, waiting_db}

abbrev registry_a : TrueNasMethodRegistry
registry_a = record {
  version = codes "25.10.1";
  methods = read_methods ++ write_methods;
  allow_writes = true;
}

-- A server that accepts everything, and counts.
abbrev server_a : Transport ℕ
server_a method params n = (done (boolean true), 1 + n)

-- The second call is refused before it is sent.
abbrev calls_a : List WriteCall
calls_a =
    clone (codes "tank/master@v1") (codes "tank/a")
    ∷ delete (codes "tank/../boot")
    ∷ delete (codes "tank/a")
    ∷ update 4 (codes "/dev/zvol/tank/a")
    ∷ []

after_calls-Permitted_example :
    All Permitted (after_calls (noted server_a) registry_a calls_a (0, [])).1
unfolding new_registry family_of split strip
after_calls-Permitted_example =
    after_calls-Permitted server_a (codes "25.10.1") true registry_a calls_a 0 refl

-- Three of the four calls reach the server.
sent_test : (after_calls (noted server_a) registry_a calls_a (0, [])).0 ≡ 3
unfolding update_extent_device is_safe_device canonical_disk_device split resolve delete_dataset
    is_safe_dataset clone_snapshot partition_at is_safe_snapshot_name
sent_test = refl

-- The switch of the first station is lost, the clone of the second fails.
abbrev storage_a : FakeStorage
storage_a = record {
  masters = [];
  clones = [];
  mappings = [];
  fail_clone_for = 22 ∷ [];
  fail_switch_for = [];
  unknown_switch_for = 21 ∷ [];
  fail_verify_for = [];
  create_master_calls = 0;
  create_clone_calls = 0;
}

fake_run-returns_example :
    (r : PublishWorkflowResult) × ((execute fake_storage
        (job_in draft false none)
        (21 ∷ 22 ∷ [])
        true
        storage_a).0
      ≡ returned r)
    × IsReport (job_in draft false none) (21 ∷ 22 ∷ []) r
fake_run-returns_example =
    fake_run-returns (job_in draft false none) 21 (22 ∷ []) storage_a refl refl

-- The station with a snapshot, and a rule that it does not violate.
abbrev checked_db : Database
checked_db = record waiting_db {
  snapshots = record { station_pk = 11; snapshot = snapshot_a; received_at = 1000 } ∷ [];
  rules =
      record {
        name = codes "game.exe";
        role = none;
        required_closed = true;
        severity = blocking;
        enabled = true;
        persistent_policy = false;
        id = some 81;
      }
      ∷ [];
}

evaluate_station_preflight-IsReady_example :
    (report : PreflightReport) × (evaluate_station_preflight (λ s. s) policy_a 1010 21 checked_db
      ≡ ok report)
    × ((can_publish report ≡ true)
        ↔ IsReady (λ s. s) station_a snapshot_a checked_db.rules policy_a 1010)
unfolding get_station station_error latest_snapshot order_by
evaluate_station_preflight-IsReady_example =
    evaluate_station_preflight-IsReady (λ s. s) policy_a 1010 21 checked_db station_a snapshot_a
      refl refl
