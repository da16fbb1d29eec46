-- ===== src/Tests/Requests.antt =====
-- Requests to the storage server over a small socket.
use true_nas_controller.Common.{ℕ, ◌+◌, ◌≡◌, refl, true, false, ◌==◌, codes, if◌then◌else◌}
use true_nas_controller.Adapter.Calls.{Json, integer, text, boolean, object, nil, end, field}
use true_nas_controller.Adapter.Rpc.{
  lost, rpc_connection, got, broke, Socket, Rpc, RpcConfig, request, get_connection, request_once,
  receive, reset_connection, wait_before_retry, attempts,
}
use true_nas_controller.Adapter.Rpc.Correlated.{Settled, request-Settled}

abbrev message_a : ℕ → Json
message_a id = object (
    field (codes "jsonrpc") (text (codes "2.0"))
      (field (codes "id") (integer id) (field (codes "result") (boolean true) end)))

-- The world counts the messages. The first call of `recv` loses the connection; then the answers to the
-- requests 1, 2, and so on come in order.
abbrev socket_a : Socket ℕ
socket_a = record {
  connect = λ n. (got tt, n);
  send = λ r n. (got tt, n);
  recv = λ n. (if n == 0 then broke lost else got (message_a n), n + 1);
  close = λ n. (got tt, n);
  wait = λ delay n. n;
  frames = 9;
}

abbrev config_a : RpcConfig
config_a = record { retry_attempts = 2; retry_backoff = 250; retry_backoff_max = 2000 }

abbrev no_retries : RpcConfig
no_retries = record { retry_attempts = 0; retry_backoff = 250; retry_backoff_max = 2000 }

abbrev rpc_a : Rpc ℕ
rpc_a = record { world = 0; connected = false; next_request_id = 3; closed = false }

request-Settled_example :
    Settled socket_a 3 (request socket_a config_a (codes "pool.dataset.query") nil rpc_a).0
request-Settled_example = request-Settled socket_a config_a (codes "pool.dataset.query") nil rpc_a

-- The third message of the second connection is the answer.
answered_test :
    (request socket_a config_a (codes "pool.dataset.query") nil rpc_a).0 ≡ got (boolean true)
unfolding request attempts request_once get_connection receive reset_connection wait_before_retry
answered_test = refl

lost_test :
    (request socket_a no_retries (codes "pool.dataset.query") nil rpc_a).0 ≡ broke rpc_connection
unfolding request attempts request_once get_connection receive reset_connection
lost_test = refl
