-- ===== src/Adapter/Rpc.antt =====
-- truenas_adapter/transport.py: requests over a WebSocket. The socket is a parameter. It gives at most `frames`
-- messages within the time limit of an attempt, and any call of an attempt may end in that limit.
pub mod Correlated
use true_nas_controller.Common.{
  ℕ, zero, suc, ◌+◌, ◌*◌, ◌^◌, Bool, true, false, not, Option, none, some, codes, text_eq, leb,
  ◌==◌, if◌then◌else◌, Text,
}
use true_nas_controller.Adapter.Calls.{
  Json, number, negative, boolean, integer, text, object, Items, Fields, member,
}

-- An integer: `pos n` is n, `negsuc n` is -1-n.
pub data ℤ : Type 0 where
  pos : ℕ → ℤ
  negsuc : ℕ → ℤ

-- The exceptions, by class. `deadline` is the time limit of the attempt, `timed_out` a `TimeoutError` of a
-- call, `lost` a `ConnectionError` or another `OSError`, `end_of_file` an `EOFError`, `uncaught` any that the
-- transport does not name.
pub data RpcError : Type 0 where
  deadline timed_out lost end_of_file uncaught rpc_connection rpc_timeout rpc_protocol : RpcError
  rpc_remote : Text → Option ℤ → RpcError

pub data Answer (A : Type 0) : Type 0 where
  got : A → Answer A
  broke : RpcError → Answer A

pub record RpcRequest : Type 0 where
  pub id : ℕ
  pub method : Text
  pub params : Items

-- `WebSocketConnection` and its factory. `recv` has decoded its message, or fails with `rpc_protocol`.
pub record Socket (World : Type 0) : Type 0 where
  pub connect : World → Answer (Unit {0}) × World
  pub send : RpcRequest → World → Answer (Unit {0}) × World
  pub recv : World → Answer Json × World
  pub close : World → Answer (Unit {0}) × World
  pub wait : ℕ → World → World
  pub frames : ℕ

-- The state of the transport.
pub record Rpc (World : Type 0) : Type 0 where
  pub world : World
  pub connected : Bool
  pub next_request_id : ℕ
  pub closed : Bool

-- The numbers of `__init__`; the waits are counted in one unit of time.
pub record RpcConfig : Type 0 where
  pub retry_attempts : ℕ
  pub retry_backoff : ℕ
  pub retry_backoff_max : ℕ

-- `message.get("id") == request_id`, where Python takes `True` for 1, `False` for 0 and 1.0 for 1
abbrev pub is_id : Option Json → ℕ → Bool
is_id (some (integer n)) id = n == id
is_id (some (number (some n))) id = n == id
is_id (some (boolean true)) id = id == 1
is_id (some (boolean false)) id = id == 0
is_id _ id = false

abbrev pub is_version : Option Json → Bool
is_version (some (text s)) = text_eq s (codes "2.0")
is_version _ = false

abbrev code_of : Option Json → Option ℤ
code_of (some (integer n)) = some (pos n)
code_of (some (negative n)) = some (negsuc n)
code_of _ = none

abbrev remote_error : Text → Json → RpcError
remote_error method (object fields) = rpc_remote method (code_of (member (codes "code") fields))
remote_error method _ = rpc_protocol

-- What a response with the right identifier holds, from its fields `error` and `result`.
abbrev pub outcome_of : Text → Option Json → Option Json → Answer Json
outcome_of method (some error) result = broke (remote_error method error)
outcome_of method none none = broke rpc_protocol
outcome_of method none (some value) = got value

abbrev pub response_of : Text → Fields → Answer Json
response_of method fields =
    if not (is_version (member (codes "jsonrpc") fields))
    then broke rpc_protocol
    else outcome_of method (member (codes "error") fields) (member (codes "result") fields)

-- What the handler of `request` catches.
abbrev pub is_retried : RpcError → Bool
is_retried deadline = true
is_retried timed_out = true
is_retried lost = true
is_retried end_of_file = true
is_retried rpc_connection = true
is_retried uncaught = false
is_retried rpc_timeout = false
is_retried rpc_protocol = false
is_retried (rpc_remote method code) = false

-- What the last attempt raises in place of an error that it caught.
abbrev pub final_error : RpcError → RpcError
final_error deadline = rpc_timeout
final_error timed_out = rpc_timeout
final_error _ = rpc_connection

-- `_get_connection` renames an `OSError`, of which `TimeoutError` is one.
abbrev connect_error : RpcError → RpcError
connect_error timed_out = rpc_connection
connect_error lost = rpc_connection
connect_error e = e

-- What closing the connection lets through; it is under no time limit.
abbrev pub close_error : Answer (Unit {0}) → Answer (Unit {0})
close_error (broke timed_out) = got tt
close_error (broke lost) = got tt
close_error (broke end_of_file) = got tt
close_error (broke deadline) = got tt
close_error a = a

module _ {World : Type 0} (socket : Socket World) where
  abbrev pub Receiving : Type 0
  Receiving = World → Answer Json × World

  -- After a message: the ones after it, unless it answers the request.
  abbrev pub received : RpcRequest → Receiving → Answer Json × World → Answer Json × World
  received request later (broke e, w) = (broke e, w)
  received request later (got (object fields), w) =
      if is_id (member (codes "id") fields) request.id
      then (response_of request.method fields, w)
      else later w
  received request later (got _, w) = (broke rpc_protocol, w)

  -- The messages until the one that answers the request.
  unfoldable pub receive : RpcRequest → ℕ → World → Answer Json × World
  receive request zero w = (broke deadline, w)
  receive request (suc left) w = received request (receive request left) (socket.recv w)

  abbrev connected_by : Rpc World → Answer (Unit {0}) × World → Answer (Unit {0}) × Rpc World
  connected_by rpc (got _, w) = (got tt, record rpc { world = w; connected = true })
  connected_by rpc (broke e, w) = (broke (connect_error e), record rpc { world = w })

  -- `_get_connection`
  unfoldable pub get_connection : Rpc World → Answer (Unit {0}) × Rpc World
  get_connection rpc =
      if rpc.connected then (got tt, rpc) else connected_by rpc (socket.connect rpc.world)

  abbrev pub sent : RpcRequest → Rpc World → Answer (Unit {0}) × World → Answer Json × Rpc World
  sent request rpc (broke e, w) = (broke e, record rpc { world = w })
  sent request rpc (got _, w) =
      let (a, w') = receive request socket.frames w in (a, record rpc { world = w' })

  abbrev pub over : RpcRequest → Answer (Unit {0}) × Rpc World → Answer Json × Rpc World
  over request (broke e, rpc) = (broke e, rpc)
  over request (got _, rpc) = sent request rpc (socket.send request rpc.world)

  -- `_request_once`
  unfoldable pub request_once : RpcRequest → Rpc World → Answer Json × Rpc World
  request_once request rpc = over request (get_connection rpc)

  -- `_reset_connection`
  unfoldable pub reset_connection : Rpc World → Answer (Unit {0}) × Rpc World
  reset_connection rpc =
      let (a, w) = socket.close rpc.world in
      if rpc.connected
      then (close_error a, record rpc { world = w; connected = false })
      else (got tt, rpc)

  -- `_wait_before_retry`
  unfoldable pub wait_before_retry : RpcConfig → ℕ → Rpc World → Rpc World
  wait_before_retry config attempt rpc =
      let delay = config.retry_backoff * 2 ^ attempt in
      if config.retry_backoff == 0 then rpc else record rpc {
        world =
            socket.wait
              (if leb delay config.retry_backoff_max then delay else config.retry_backoff_max)
              rpc.world;
      }

  abbrev pub Attempt : Type 0
  Attempt = Rpc World → Answer Json × Rpc World

  abbrev pub after_reset :
      RpcConfig
      → ℕ
      → ℕ
      → RpcError
      → Attempt
      → Answer (Unit {0}) × Rpc World
      → Answer Json × Rpc World
  after_reset config attempt left e again (broke f, rpc) = (broke f, rpc)
  after_reset config attempt zero e again (got _, rpc) = (broke (final_error e), rpc)
  after_reset config attempt (suc left) e again (got _, rpc) =
      again (wait_before_retry config attempt rpc)

  abbrev pub attempted :
      RpcConfig → ℕ → ℕ → Attempt → Answer Json × Rpc World → Answer Json × Rpc World
  attempted config attempt left again (got value, rpc) = (got value, rpc)
  attempted config attempt left again (broke e, rpc) =
      if is_retried e
      then after_reset config attempt left e again (reset_connection rpc)
      else (broke e, rpc)

  -- The attempt of a number, with `left` more after it.
  unfoldable pub attempts : RpcConfig → RpcRequest → ℕ → ℕ → Rpc World → Answer Json × Rpc World
  attempts config request zero attempt rpc =
      attempted config attempt zero (λ r. (broke uncaught, r)) (request_once request rpc)
  attempts config request (suc left) attempt rpc =
      attempted config attempt (suc left) (attempts config request left (suc attempt))
        (request_once request rpc)

  -- `request`, for parameters that can be serialized
  unfoldable pub request : RpcConfig → Text → Items → Rpc World → Answer Json × Rpc World
  request config method params rpc =
      if rpc.closed
      then (broke rpc_connection, rpc)
      else attempts config (record { id = rpc.next_request_id; method = method; params = params })
          config.retry_attempts 0 (record rpc { next_request_id = rpc.next_request_id + 1 })

  -- `close`
  unfoldable pub close : Rpc World → Answer (Unit {0}) × Rpc World
  close rpc = reset_connection (record rpc { closed = true })
