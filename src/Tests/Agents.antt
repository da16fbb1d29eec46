-- ===== src/Tests/Agents.antt =====
-- The agent and the messages of the queue at concrete inputs.
use true_nas_controller.Common.{
  ℕ, suc, ◌≤◌, ◌≡◌, refl, true, Option, none, some, [], ◌∷◌, codes, Text, arith, ◌==◌,
  if◌then◌else◌,
}
use true_nas_controller.Application.Draft.{PublishTaskPayload}
use true_nas_controller.Worker.Tasks.{publish_message, from_raw}
use true_nas_controller.Worker.Tasks.Messages.{from_raw-publish_message}
use true_nas_controller.Agent.Protocol.{ServerCommand, build, is_accepted}
use true_nas_controller.Agent.Heartbeat.{
  done, raised, transport, Surroundings, AgentConfig, AgentState, send_with_retry, handle,
  handle_commands, retry, send_once,
}
use true_nas_controller.Agent.Heartbeat.Commands.{Noted, noted, IsOrderly}
use true_nas_controller.Agent.Heartbeat.Retries.{send_with_retry-IsOrderly}
use true_nas_controller.Agent.Enrollment.{
  Registration, StoreLaws, ensure_credential, ensure_credential_once,
}
use true_nas_controller.Tests.Data.{snapshot_a}

abbrev command_a : ServerCommand
command_a = record {
  command_id = 91;
  name = codes "refresh_process_snapshot";
  expires_at = 5000;
  signature = codes "sig";
}

-- The first attempt fails; the second is answered with one command, twice. The world counts the attempts.
abbrev around_a : Surroundings ℕ
around_a = record {
  send = λ payload credential n.
      (if n == 0 then raised transport else done (command_a ∷ command_a ∷ []), suc n);
  acknowledge = λ id credential n. (done tt, n);
  refresh = λ n. (done tt, n);
  sleep = λ attempt n. n;
  clock = λ n. 1000;
  verify = λ command. true;
}

abbrev config_a : AgentConfig
config_a = record {
  identity = record {
    station_id = 21;
    hostname = codes "hall-a";
    agent_version = codes "1.0";
    ip_addresses = [];
    mac_addresses = [];
  };
  credential = codes "secret";
  max_attempts = 3;
  has_receiver = true;
}

abbrev quiet_state : AgentState (Noted ℕ)
quiet_state = record {
  world = record { world = 0; sends = 0; refreshes = 0; acked = [] };
  handled = [];
}

send_with_retry-IsOrderly_example :
    IsOrderly (send_with_retry (noted around_a) config_a snapshot_a true quiet_state).1
    × ((send_with_retry (noted around_a) config_a snapshot_a true quiet_state).1.world.sends ≤ 3)
send_with_retry-IsOrderly_example = send_with_retry-IsOrderly around_a config_a snapshot_a true 0

-- Two attempts, one refresh, two acknowledgements.
delivery_test : (send_with_retry (noted around_a) config_a snapshot_a true quiet_state).1 ≡ record {
  world = record { world = 2; sends = 2; refreshes = 1; acked = 91 ∷ 91 ∷ [] };
  handled = 91 ∷ [];
}
unfolding send_with_retry retry send_once build handle_commands handle is_accepted
delivery_test = refl

-- The world is what the store holds.
abbrev registration_a : Registration (Option Text)
registration_a = record {
  load = λ w. (done w, w);
  save = λ credential w. (done tt, some credential);
  enroll = λ w. (done (record { station_id = 21; credential = codes "c" }), w);
}

store_laws_a : StoreLaws registration_a
store_laws_a = record { reads = λ w. refl; read_back = λ credential w w' h. cc }

ensure_credential_once_example :
    ensure_credential registration_a (some (codes "c")) ≡ (done (codes "c"), some (codes "c"))
unfolding ensure_credential
ensure_credential_once_example =
    ensure_credential_once registration_a store_laws_a none (some (codes "c")) (codes "c") refl

abbrev payload_a : PublishTaskPayload
payload_a = record { job_id = 31; correlation_id = 41; idempotency_key = codes "key" }

from_raw-publish_message_example : from_raw (publish_message payload_a) ≡ some payload_a
from_raw-publish_message_example =
    from_raw-publish_message payload_a (omega arith) (omega arith) refl (ground arith)
