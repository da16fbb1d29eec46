-- ===== src/Agent/Heartbeat/Commands.antt =====
-- The commands of one answer (agent/heartbeat.py, agent/commands.py).
use true_nas_controller.Common.{
  ℕ, suc, ◌≡◌, refl, ap, ◌∙◌, true, false, List, [], ◌∷◌, Text, arith, All, All-map, all_distinct,
  elem, length, ==-self, Bool-cases, inl, inr,
}
use true_nas_controller.Agent.Protocol.{ServerCommand, is_accepted}
use true_nas_controller.Agent.Heartbeat.{
  Reply, done, raised, Surroundings, AgentState, Step, refreshed, handle, and_then, in_world,
  handle_commands,
}

-- The world with what has happened in it: the snapshots sent, the refreshes that succeeded, and the commands
-- acknowledged.
pub record Noted (World : Type 0) : Type 0 where
  pub world : World
  pub sends : ℕ
  pub refreshes : ℕ
  pub acked : List ℕ

handled_more :
    (id : ℕ) (handled acked : List ℕ)
    → All (λ a. elem a handled ≡ true) acked
    → All (λ a. elem a (id ∷ handled) ≡ true) acked
handled_more id handled acked h =
    All-map (λ a. elem a handled ≡ true) (λ a. elem a (id ∷ handled) ≡ true) acked
      (λ a e. ground arith) h

module _ {World : Type 0} where
  abbrev noted_refresh : Noted World → Reply (Unit {0}) × World → Reply (Unit {0}) × Noted World
  noted_refresh n (done _, w) = (done tt, record n { world = w; refreshes = suc n.refreshes })
  noted_refresh n (raised e, w) = (raised e, record n { world = w })

  abbrev pub noted : Surroundings World → Surroundings (Noted World)
  noted around = record {
    send = λ payload credential n.
        let (r, w) = around.send payload credential n.world in
        (r, record n { world = w; sends = suc n.sends });
    acknowledge = λ id credential n.
        let (r, w) = around.acknowledge id credential n.world in
        (r, record n { world = w; acked = id ∷ n.acked });
    refresh = λ n. noted_refresh n (around.refresh n.world);
    sleep = λ attempt n. record n { world = around.sleep attempt n.world };
    clock = λ n. around.clock n.world;
    verify = around.verify;
  }

  -- Each command that was handled was refreshed for once, and only handled ones were acknowledged.
  pub record IsOrderly (s : AgentState (Noted World)) : Type 0 where
    pub distinct : all_distinct s.handled ≡ true
    pub counted : s.world.refreshes ≡ length s.handled
    pub known : All (λ id. elem id s.handled ≡ true) s.world.acked

  -- An orderly step that sends nothing.
  abbrev pub Silent : AgentState (Noted World) → AgentState (Noted World) → Type 0
  Silent s s' = IsOrderly s' × (s'.world.sends ≡ s.world.sends)

  module _ (around : Surroundings World) where
    -- After a command: it is handled, or it is refused.
    abbrev Handled :
        ℕ → AgentState (Noted World) → Reply (Unit {0}) × AgentState (Noted World) → Type 0
    Handled id s (done _, s') = Silent s s' × (elem id s'.handled ≡ true)
    Handled id s (raised _, s') = Silent s s'

    refreshed-Handled :
        (id : ℕ) (s : AgentState (Noted World)) (r : Reply (Unit {0}) × World)
        → IsOrderly s
        → elem id s.handled ≡ false
        → Handled id s (refreshed (noted around) id s (noted_refresh s.world r))
    refreshed-Handled id s (done _, w) h e =
        let same = ==-self id in
        let d = h.distinct in
        (
          (
            record {
              distinct = ground arith;
              counted = ap suc h.counted;
              known = handled_more id s.handled s.world.acked h.known;
            },
            refl,
          ),
          ground arith,
        )
    refreshed-Handled id s (raised _, w) h e =
        (record { distinct = h.distinct; counted = h.counted; known = h.known }, refl)

    handle-Handled :
        (command : ServerCommand) (now : ℕ) (s : AgentState (Noted World))
        → IsOrderly s
        → Handled command.command_id s (handle (noted around) command now s)
    unfolding handle
    handle-Handled command now s h = elim (Bool-cases (is_accepted around.verify command now)) [
      | inr e ↦ rw e (h, refl)
      | inl e ↦ rw e (elim (Bool-cases (elem command.command_id s.handled)) [
        | inl x ↦ rw x ((h, refl), x)
        | inr x ↦ rw x (refreshed-Handled command.command_id s (around.refresh s.world.world) h x)
      ])
    ]

    acknowledged :
        (id : ℕ) (credential : Text) (s : AgentState (Noted World))
        → IsOrderly s
        → elem id s.handled ≡ true
        → Silent s (in_world (noted around) ((noted around).acknowledge id credential) s).1
    acknowledged id credential s h e =
        (record { distinct = h.distinct; counted = h.counted; known = (e, h.known) }, refl)

    after_command :
        (id : ℕ) (s : AgentState (Noted World)) (x : Reply (Unit {0}) × AgentState (Noted World))
        → (rest : Step (noted around)) → Handled id s x
        → ((s' : AgentState (Noted World))
            → IsOrderly s'
            → elem id s'.handled ≡ true
            → Silent s' (rest s').1)
        → Silent s (and_then (noted around) (λ _. x) rest s).1
    after_command id s (done _, s') rest h k = let y = k s' h.0.0 h.1 in (y.0, y.1 ∙ h.0.1)
    after_command id s (raised _, s') rest h k = h

    after-Silent :
        (s : AgentState (Noted World)) (x : Reply (Unit {0}) × AgentState (Noted World))
        → (rest : Step (noted around)) → Silent s x.1
        → ((s' : AgentState (Noted World)) → IsOrderly s' → Silent s' (rest s').1)
        → Silent s (and_then (noted around) (λ _. x) rest s).1
    after-Silent s (done _, s') rest h k = let y = k s' h.0 in (y.0, y.1 ∙ h.1)
    after-Silent s (raised _, s') rest h k = h

    pub handle_commands-Silent :
        (credential : Text) (commands : List ServerCommand) (s : AgentState (Noted World))
        → IsOrderly s
        → Silent s (handle_commands (noted around) credential commands s).1
    unfolding handle_commands
    handle_commands-Silent credential [] s h = (h, refl)
    handle_commands-Silent credential (command ∷ commands) s h =
        let id = command.command_id in
        let acknowledge = in_world (noted around) ((noted around).acknowledge id credential) in
        let rest = handle_commands (noted around) credential commands in
        let now = around.clock s.world.world in
        after_command id s (handle (noted around) command now s)
          (and_then (noted around) acknowledge rest) (handle-Handled command now s h)
          (λ s' h' e.
            after-Silent s' (acknowledge s') rest (acknowledged id credential s' h' e)
              (λ s'' h''. handle_commands-Silent credential commands s'' h''))
