-- ===== src/Agent/Heartbeat/Retries.antt =====
-- What a delivery with retries does at most (agent/heartbeat.py).
use true_nas_controller.Common.{
  ℕ, zero, suc, ◌+◌, ◌-◌, ◌≤◌, ◌≡◌, refl, Bool, not, ◌||◌, Option, none, some, List, [], arith,
  is_empty, ◌==◌, Bool-cases, inl, inr,
}
use true_nas_controller.Domain.Snapshot.{ProcessSnapshot}
use true_nas_controller.Agent.Protocol.{HeartbeatPayload, ServerCommand, build}
use true_nas_controller.Agent.Heartbeat.{
  transport, invalid_command, value_error, other, Reply, done, raised, Surroundings, AgentConfig,
  AgentState, Step, answered, send_payload, send_once, after_attempt, retry, send_with_retry,
}
use true_nas_controller.Agent.Heartbeat.Commands.{
  Noted, noted, IsOrderly, Silent, handle_commands-Silent,
}

shifted : (x a b : ℕ) → x ≤ a + 1 + b → x ≤ a + suc b
shifted x a b h = omega arith

module _ {World : Type 0} where
  module _ (around : Surroundings World) where
    module _ (config : AgentConfig) (process_commands : Bool) where
      answered-Silent :
          (r : Reply (List ServerCommand)) (s : AgentState (Noted World))
          → IsOrderly s
          → Silent s (answered (noted around) config process_commands r s).1
      answered-Silent (raised e) s h = (h, refl)
      answered-Silent (done commands) s h =
          elim (Bool-cases (not process_commands || is_empty commands)) [
            | inl e ↦ rw e (h, refl)
            | inr e ↦ rw e (elim (Bool-cases config.has_receiver) [
              | inr x ↦ rw x (h, refl)
              | inl x ↦ rw x (handle_commands-Silent around config.credential commands s h)
            ])
          ]

      -- A step that sends once at most.
      abbrev Sending : AgentState (Noted World) → AgentState (Noted World) → Type 0
      Sending s s' = IsOrderly s' × (s'.world.sends ≤ s.world.sends + 1)

      send_payload-Sending :
          (o : Option HeartbeatPayload) (s : AgentState (Noted World))
          → IsOrderly s
          → Sending s (send_payload (noted around) config process_commands o s).1
      send_payload-Sending none s h = (h, omega arith)
      send_payload-Sending (some payload) s h =
          let called = (noted around).send payload config.credential s.world in
          let sent : AgentState (Noted World) = record s { world = called.1 } in
          let y =
            answered-Silent called.0 sent
              (record { distinct = h.distinct; counted = h.counted; known = h.known }) in
          let e : (answered (noted around) config process_commands called.0 sent).1.world.sends
              ≡ suc s.world.sends =
            y.1 in
          (y.0, omega arith)

      -- The attempt and the ones after it.
      attempt_then :
          (attempt left n : ℕ) (r : Reply (Unit {0})) (s : AgentState (Noted World))
          → (again : Step (noted around)) → IsOrderly s
          → s.world.sends ≤ n
          → ((s' : AgentState (Noted World))
              → IsOrderly s'
              → IsOrderly (again s').1 × ((again s').1.world.sends ≤ s'.world.sends + left))
          → let s' = (after_attempt (noted around) config attempt again r s).1 in
            IsOrderly s' × (s'.world.sends ≤ n + left)
      attempt_then attempt left n (done _) s again h b k = (h, omega arith)
      attempt_then attempt left n (raised invalid_command) s again h b k = (h, omega arith)
      attempt_then attempt left n (raised value_error) s again h b k = (h, omega arith)
      attempt_then attempt left n (raised other) s again h b k = (h, omega arith)
      attempt_then attempt left n (raised transport) s again h b k =
          elim (Bool-cases (attempt == config.max_attempts - 1)) [
            | inl e ↦ rw e (h, omega arith)
            | inr e ↦
                let rested : AgentState (Noted World) = record s {
                  world = (noted around).sleep attempt s.world;
                } in
                let y =
                  k rested
                    (record { distinct = h.distinct; counted = h.counted; known = h.known }) in
                let z : (again rested).1.world.sends ≤ s.world.sends + left = y.1 in
                rw e (y.0, omega arith)
          ]

      retry-IsOrderly :
          (snapshot : ProcessSnapshot) (left attempt : ℕ) (s : AgentState (Noted World))
          → IsOrderly s
          → let s' = (retry (noted around) config snapshot process_commands left attempt s).1 in
            IsOrderly s' × (s'.world.sends ≤ s.world.sends + left)
      unfolding retry send_once
      retry-IsOrderly snapshot zero attempt s h = (h, omega arith)
      retry-IsOrderly snapshot (suc left) attempt s h =
          let first = send_once (noted around) config snapshot process_commands s in
          let y = send_payload-Sending (build config.identity snapshot) s h in
          let z =
            attempt_then attempt left (s.world.sends + 1) first.0 first.1
              (retry (noted around) config snapshot process_commands left (suc attempt)) y.0 y.1
              (λ s' h'. retry-IsOrderly snapshot left (suc attempt) s' h') in
          (z.0, shifted _ s.world.sends left z.1)

  -- A delivery from a world without any events: each command that was handled has been refreshed for
  -- exactly once, only handled commands were acknowledged, and the snapshot was sent at most as often as
  -- the configuration allows.
  pub send_with_retry-IsOrderly :
      (around : Surroundings World) (config : AgentConfig) (snapshot : ProcessSnapshot)
      (process_commands : Bool) (w : World)
      → let s =
          (send_with_retry (noted around) config snapshot process_commands (record {
            world = record { world = w; sends = 0; refreshes = 0; acked = [] };
            handled = [];
          })).1 in
        IsOrderly s × (s.world.sends ≤ config.max_attempts)
  unfolding send_with_retry
  send_with_retry-IsOrderly around config snapshot process_commands w =
      let y =
        retry-IsOrderly around config process_commands snapshot config.max_attempts 0 _
          (record { distinct = refl; counted = refl; known = tt }) in
      (y.0, omega arith)
