-- ===== src/Adapter/Rpc/Correlated.antt =====
-- What a request ends with (truenas_adapter/transport.py).
use true_nas_controller.Common.{
  ℕ, zero, suc, ◌≡◌, refl, true, false, Option, none, some, codes, Text, Bool-cases, inl, inr,
}
use true_nas_controller.Adapter.Calls.{
  Json, null, number, negative, boolean, integer, text, array, object, Items, Fields, member,
}
use true_nas_controller.Adapter.Rpc.{
  RpcError, deadline, timed_out, lost, end_of_file, uncaught, rpc_connection, rpc_timeout,
  rpc_protocol, rpc_remote, Answer, got, broke, RpcRequest, Socket, Rpc, RpcConfig, is_id,
  is_version, outcome_of, response_of, is_retried, final_error, close_error, Receiving, receive,
  received, get_connection, sent, over, request_once, reset_connection, Attempt, after_reset,
  attempted, attempts, request, wait_before_retry,
}

module _ {World : Type 0} (socket : Socket World) where
  -- A message of the socket that answers the request of a number with a value.
  pub record IsAnswerTo (id : ℕ) (value : Json) : Type 0 where
    pub before : World
    pub fields : Fields
    pub came : (socket.recv before).0 ≡ got (object fields)
    pub same_id : is_id (member (codes "id") fields) id ≡ true
    pub version : is_version (member (codes "jsonrpc") fields) ≡ true
    pub no_error : member (codes "error") fields ≡ none
    pub carries : member (codes "result") fields ≡ some value

  -- How one attempt ends.
  abbrev Attempted : ℕ → Answer Json → Type 0
  Attempted id (got value) = IsAnswerTo id value
  Attempted id (broke e) = Unit

  -- How a request ends: an answer to it, or an error that its handler does not catch, or one in place of it.
  abbrev pub Settled : ℕ → Answer Json → Type 0
  Settled id (got value) = IsAnswerTo id value
  Settled id (broke deadline) = ⊥
  Settled id (broke timed_out) = ⊥
  Settled id (broke lost) = ⊥
  Settled id (broke end_of_file) = ⊥
  Settled id (broke _) = Unit

  outcome-Attempted :
      (id : ℕ) (method : Text) (fields : Fields) (w : World) (error result : Option Json)
      → (socket.recv w).0 ≡ got (object fields)
      → is_id (member (codes "id") fields) id ≡ true
      → is_version (member (codes "jsonrpc") fields) ≡ true
      → member (codes "error") fields ≡ error
      → member (codes "result") fields ≡ result
      → Attempted id (outcome_of method error result)
  outcome-Attempted id method fields w (some e) result c i v n r = tt
  outcome-Attempted id method fields w none none c i v n r = tt
  outcome-Attempted id method fields w none (some value) c i v n r = record {
    before = w;
    fields = fields;
    came = c;
    same_id = i;
    version = v;
    no_error = n;
    carries = r;
  }

  response-Attempted :
      (id : ℕ) (method : Text) (fields : Fields) (w : World)
      → (socket.recv w).0 ≡ got (object fields)
      → is_id (member (codes "id") fields) id ≡ true
      → Attempted id (response_of method fields)
  response-Attempted id method fields w c i =
      elim (Bool-cases (is_version (member (codes "jsonrpc") fields))) [
        | inl e ↦ rw e (outcome-Attempted id method fields w _ _ c i e refl refl)
        | inr e ↦ rw e tt
      ]

  received-Attempted :
      (r : RpcRequest) (later : Receiving socket) (a : Answer Json) (w w' : World)
      → ((v : World) → Attempted r.id (later v).0)
      → (socket.recv w).0 ≡ a
      → Attempted r.id (received socket r later (a, w')).0
  received-Attempted r later (broke e) w w' k c = tt
  received-Attempted r later (got null) w w' k c = tt
  received-Attempted r later (got (number n)) w w' k c = tt
  received-Attempted r later (got (negative n)) w w' k c = tt
  received-Attempted r later (got (boolean b)) w w' k c = tt
  received-Attempted r later (got (integer n)) w w' k c = tt
  received-Attempted r later (got (text t)) w w' k c = tt
  received-Attempted r later (got (array items)) w w' k c = tt
  received-Attempted r later (got (object fields)) w w' k c =
      elim (Bool-cases (is_id (member (codes "id") fields) r.id)) [
        | inl e ↦ rw e (response-Attempted r.id r.method fields w c e)
        | inr e ↦ rw e (k w')
      ]

  receive-Attempted :
      (r : RpcRequest) (left : ℕ) (w : World) → Attempted r.id (receive socket r left w).0
  unfolding receive
  receive-Attempted r zero w = tt
  receive-Attempted r (suc left) w =
      received-Attempted r (receive socket r left) (socket.recv w).0 w (socket.recv w).1
        (receive-Attempted r left) refl

  sent-Attempted :
      (r : RpcRequest) (rpc : Rpc World) (a : Answer (Unit {0})) (w : World)
      → Attempted r.id (sent socket r rpc (a, w)).0
  sent-Attempted r rpc (broke e) w = tt
  sent-Attempted r rpc (got _) w = receive-Attempted r socket.frames w

  over-Attempted :
      (r : RpcRequest) (a : Answer (Unit {0})) (rpc : Rpc World)
      → Attempted r.id (over socket r (a, rpc)).0
  over-Attempted r (broke e) rpc = tt
  over-Attempted r (got _) rpc =
      sent-Attempted r rpc (socket.send r rpc.world).0 (socket.send r rpc.world).1

  request_once-Attempted :
      (r : RpcRequest) (rpc : Rpc World) → Attempted r.id (request_once socket r rpc).0
  unfolding request_once
  request_once-Attempted r rpc =
      over-Attempted r (get_connection socket rpc).0 (get_connection socket rpc).1

  -- An error that is not caught.
  uncaught-Settled : (id : ℕ) (e : RpcError) → is_retried e ≡ false → Settled id (broke e)
  uncaught-Settled id uncaught h = tt
  uncaught-Settled id rpc_timeout h = tt
  uncaught-Settled id rpc_protocol h = tt
  uncaught-Settled id (rpc_remote method code) h = tt
  uncaught-Settled id deadline h = cc
  uncaught-Settled id timed_out h = cc
  uncaught-Settled id lost h = cc
  uncaught-Settled id end_of_file h = cc
  uncaught-Settled id rpc_connection h = tt

  final-Settled : (id : ℕ) (e : RpcError) → Settled id (broke (final_error e))
  final-Settled id deadline = tt
  final-Settled id timed_out = tt
  final-Settled id lost = tt
  final-Settled id end_of_file = tt
  final-Settled id uncaught = tt
  final-Settled id rpc_connection = tt
  final-Settled id rpc_timeout = tt
  final-Settled id rpc_protocol = tt
  final-Settled id (rpc_remote method code) = tt

  -- What closing the connection may end with.
  abbrev Passed : ℕ → Answer (Unit {0}) → Type 0
  Passed id (got _) = Unit
  Passed id (broke e) = Settled id (broke e)

  close_error-Passed : (id : ℕ) (a : Answer (Unit {0})) → Passed id (close_error a)
  close_error-Passed id (got _) = tt
  close_error-Passed id (broke deadline) = tt
  close_error-Passed id (broke timed_out) = tt
  close_error-Passed id (broke lost) = tt
  close_error-Passed id (broke end_of_file) = tt
  close_error-Passed id (broke uncaught) = tt
  close_error-Passed id (broke rpc_connection) = tt
  close_error-Passed id (broke rpc_timeout) = tt
  close_error-Passed id (broke rpc_protocol) = tt
  close_error-Passed id (broke (rpc_remote method code)) = tt

  reset-Passed : (id : ℕ) (rpc : Rpc World) → Passed id (reset_connection socket rpc).0
  unfolding reset_connection
  reset-Passed id rpc = elim (Bool-cases rpc.connected) [
    | inl e ↦ rw e (close_error-Passed id (socket.close rpc.world).0)
    | inr e ↦ rw e tt
  ]

  module _ (config : RpcConfig) where
    after_reset-Settled :
        (id attempt left : ℕ) (e : RpcError) (again : Attempt socket) (a : Answer (Unit {0}))
        → (rpc : Rpc World) → Passed id a
        → ((s : Rpc World) → Settled id (again s).0)
        → Settled id (after_reset socket config attempt left e again (a, rpc)).0
    after_reset-Settled id attempt left e again (broke f) rpc p k = p
    after_reset-Settled id attempt zero e again (got _) rpc p k = final-Settled id e
    after_reset-Settled id attempt (suc left) e again (got _) rpc p k =
        k (wait_before_retry socket config attempt rpc)

    attempted-Settled :
        (id attempt left : ℕ) (again : Attempt socket) (a : Answer Json) (rpc : Rpc World)
        → Attempted id a
        → ((s : Rpc World) → Settled id (again s).0)
        → Settled id (attempted socket config attempt left again (a, rpc)).0
    attempted-Settled id attempt left again (got value) rpc h k = h
    attempted-Settled id attempt left again (broke e) rpc h k = elim (Bool-cases (is_retried e)) [
      | inl x ↦ rw x (
          after_reset-Settled id attempt left e again (reset_connection socket rpc).0
            (reset_connection socket rpc).1 (reset-Passed id rpc) k)
      | inr x ↦ rw x (uncaught-Settled id e x)
    ]

    attempts-Settled :
        (r : RpcRequest) (left attempt : ℕ) (rpc : Rpc World)
        → Settled r.id (attempts socket config r left attempt rpc).0
    unfolding attempts
    attempts-Settled r zero attempt rpc =
        attempted-Settled r.id attempt zero (λ s. (broke uncaught, s)) (request_once socket r rpc).0
          (request_once socket r rpc).1 (request_once-Attempted r rpc) (λ s. tt)
    attempts-Settled r (suc left) attempt rpc =
        attempted-Settled r.id attempt (suc left) (attempts socket config r left (suc attempt))
          (request_once socket r rpc).0 (request_once socket r rpc).1 (request_once-Attempted r rpc)
          (attempts-Settled r left (suc attempt))

    -- Over any socket and with any number of attempts, a request ends either with the result of a message
    -- that the socket gives in some state, with the number of the request, version "2.0" and no error, or
    -- with an error other than the time limit, a `TimeoutError`, an `OSError` or an `EOFError`.
    pub request-Settled :
        (method : Text) (params : Items) (rpc : Rpc World)
        → Settled rpc.next_request_id (request socket config method params rpc).0
    unfolding request
    request-Settled method params rpc = elim (Bool-cases rpc.closed) [
      | inl e ↦ rw e tt
      | inr e ↦ rw e (
          attempts-Settled (record { id = rpc.next_request_id; method = method; params = params })
            config.retry_attempts 0 _)
    ]
