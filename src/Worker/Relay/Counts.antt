-- ===== src/Worker/Relay/Counts.antt =====
-- What a poll leaves of the events that it claimed (worker/outbox_relay.py, repository/outbox.py).
use mathlib.Core.Path.{subst}
use true_nas_controller.Common.{
  ℕ, suc, ◌+◌, ◌≡◌, refl, sym, ap, ◌∙◌, Bool, true, false, ◌&&◌, Option, none, some, List, [], ◌∷◌,
  codes, arith, length, is_some, leb, update_if, find_first-test, ◌==◌, if◌then◌else◌,
}
use true_nas_controller.Domain.Outbox.{OutboxEvent, OutboxEventStatus, pending, dispatched}
use true_nas_controller.Store.Database.{Database, OutboxRow}
use true_nas_controller.Store.Session.{Result, ok, err, ◌>>◌, commit, unit_of_work}
use true_nas_controller.Store.Session.Committed.{unit_of_work-commit}
use true_nas_controller.Store.Outbox.{
  find_event, write_event, delivered, undelivered, mark_dispatched, mark_failed,
}
use true_nas_controller.Application.Draft.{PublishTaskPayload}
use true_nas_controller.Worker.Relay.{
  RelayConfig, OutboxRelayResult, message_of, sends, record_outcome, counted, relay_events,
  claim_in, relay_claimed, run_once, retry_delay,
}

sends_of : (o : Option PublishTaskPayload) (b : Bool) → sends o b ≡ (is_some o && b)
sends_of none b = refl
sends_of (some p) b = refl

find_event-id :
    (id : ℕ) (db : Database) (row : OutboxRow) → find_event id db ≡ some row → row.id ≡ id
find_event-id id db row h =
    let test = find_first-test (λ (r : OutboxRow). r.id == id) db.outbox row h in ground arith

module _ (config : RelayConfig) (now : ℕ) (accepts : ℕ → Bool) where
  -- The n-th event of a poll reaches the broker.
  abbrev pub is_sent : ℕ → OutboxEvent → Bool
  is_sent n event = is_some (message_of event) && accepts n

  -- The row of an event that was sent, and of one that was not.
  abbrev pub row_after : Bool → OutboxEvent → OutboxRow → OutboxRow
  row_after true event row = record row {
    status = dispatched;
    dispatched_at = some now;
    locked_at = none;
    locked_by = none;
    lease_expires_at = none;
  }
  row_after false event row = record row {
    attempts = row.attempts + 1;
    status =
        if leb config.max_attempts (row.attempts + 1) then OutboxEventStatus.failed else pending;
    available_at = now + retry_delay event.attempts;
    last_error = some (codes "outbox delivery failed");
    locked_at = none;
    locked_by = none;
    lease_expires_at = none;
  }

  -- The outbox after each event in turn, the first of them the n-th.
  abbrev pub rows_after : ℕ → List OutboxEvent → List OutboxRow → List OutboxRow
  rows_after n [] rows = rows
  rows_after n (event ∷ events) rows =
      rows_after (suc n) events
        (update_if (λ (r : OutboxRow). r.id == event.id) (row_after (is_sent n event) event) rows)

  -- How many of the events are sent, and how many are not.
  abbrev pub count_sent : Bool → ℕ → List OutboxEvent → ℕ
  count_sent sent n [] = 0
  count_sent sent n (event ∷ events) =
      (if is_sent n event then (if sent then 1 else 0) else if sent then 0 else 1)
      + count_sent sent (suc n) events

  sends_is_sent :
      (n : ℕ) (event : OutboxEvent) → sends (message_of event) (accepts n) ≡ is_sent n event
  sends_is_sent n event = sends_of (message_of event) (accepts n)

  found_row :
      (f : OutboxRow → OutboxRow) (id : ℕ) (o : Option OutboxRow) (db db' : Database)
      → ((row : OutboxRow) → o ≡ some row → row.id ≡ id)
      → unit_of_work (write_event f o >> commit) db ≡ (ok tt, db')
      → db'.outbox ≡ update_if (λ (r : OutboxRow). r.id == id) f db.outbox
  unfolding unit_of_work
  found_row f id none db db' k h = cc
  found_row f id (some row) db db' k h =
      let left = unit_of_work-commit (write_event f (some row)) db _ db' refl h in
      ap (λ (d : Database). d.outbox) (sym left)
      ∙ ap (λ i. update_if (λ (r : OutboxRow). r.id == i) f db.outbox) (k row refl)

  recorded :
      (event : OutboxEvent) (sent : Bool) (db db' : Database)
      → unit_of_work (record_outcome config now event sent) db ≡ (ok tt, db')
      → db'.outbox
        ≡ update_if (λ (r : OutboxRow). r.id == event.id) (row_after sent event) db.outbox
  unfolding record_outcome mark_dispatched mark_failed delivered undelivered unit_of_work
  recorded event true db db' h =
      found_row (row_after true event) event.id (find_event event.id db) db db'
        (find_event-id event.id db) h
  recorded event false db db' h =
      found_row (row_after false event) event.id (find_event event.id db) db db'
        (find_event-id event.id db) h

  -- What is left when the remaining events are settled.
  pub record Settles (n : ℕ) (events : List OutboxEvent) (rows : List OutboxRow)
      (acc r : OutboxRelayResult) (db' : Database) : Type 0 where
    pub claimed : r.claimed ≡ acc.claimed
    pub dispatched : r.dispatched ≡ acc.dispatched + count_sent true n events
    pub failed : r.failed ≡ acc.failed + count_sent false n events
    pub outbox : db'.outbox ≡ rows_after n events rows

  next_event :
      (n : ℕ) (event : OutboxEvent) (events : List OutboxEvent) (sent : Bool)
      (rows : List OutboxRow)
      → (acc r : OutboxRelayResult) (db' : Database) → is_sent n event ≡ sent
      → Settles
          (suc n)
          events
          (update_if (λ (x : OutboxRow). x.id == event.id) (row_after sent event) rows)
          (counted sent acc)
          r
          db'
      → Settles n (event ∷ events) rows acc r db'
  next_event n event events true rows acc r db' e h = record {
    claimed = h.claimed;
    dispatched = rw e (let x = h.dispatched in omega arith);
    failed = rw e (let x = h.failed in omega arith);
    outbox = rw e h.outbox;
  }
  next_event n event events false rows acc r db' e h = record {
    claimed = h.claimed;
    dispatched = rw e (let x = h.dispatched in omega arith);
    failed = rw e (let x = h.failed in omega arith);
    outbox = rw e h.outbox;
  }

  after_record :
      (n : ℕ) (event : OutboxEvent) (events : List OutboxEvent) (acc r : OutboxRelayResult)
      → (db db' : Database) (sent : Bool) → is_sent n event ≡ sent
      → (first : Result (Unit {0}) × Database)
      → unit_of_work (record_outcome config now event sent) db ≡ first
      → ((db₁ : Database)
          → relay_events config now accepts (suc n) events (counted sent acc) db₁ ≡ (ok r, db')
          → Settles (suc n) events db₁.outbox (counted sent acc) r db')
      → let (x, db₁) = first in
        (elim x as (λ _. Result OutboxRelayResult × Database) [
          | ok _ ↦ relay_events config now accepts (suc n) events (counted sent acc) db₁
          | err e ↦ (err e, db₁)
        ])
          ≡ (ok r, db')
        → Settles n (event ∷ events) db.outbox acc r db'
  after_record n event events acc r db db' sent e (err x, db₁) f k h = cc
  after_record n event events acc r db db' sent e (ok _, db₁) f k h =
      next_event n event events sent db.outbox acc r db' e (
        subst (λ rows. Settles (suc n) events rows (counted sent acc) r db')
          (recorded event sent db db₁ f) (k db₁ h))

  relay_events-Settles :
      (n : ℕ) (events : List OutboxEvent) (acc r : OutboxRelayResult) (db db' : Database)
      → relay_events config now accepts n events acc db ≡ (ok r, db')
      → Settles n events db.outbox acc r db'
  unfolding relay_events
  relay_events-Settles n [] acc r db db' h =
      let same : acc ≡ r = cc in
      let left : db ≡ db' = cc in
      let d = ap (λ (x : OutboxRelayResult). x.dispatched) same in
      let f = ap (λ (x : OutboxRelayResult). x.failed) same in
      record {
        claimed = ap (λ (x : OutboxRelayResult). x.claimed) (sym same);
        dispatched = omega arith;
        failed = omega arith;
        outbox = ap (λ (x : Database). x.outbox) (sym left);
      }
  relay_events-Settles n (event ∷ events) acc r db db' h =
      let sent = sends (message_of event) (accepts n) in
      after_record n event events acc r db db' sent (sym (sends_is_sent n event))
        (unit_of_work (record_outcome config now event sent) db) refl
        (λ db₁ k. relay_events-Settles (suc n) events (counted sent acc) r db₁ db' k) h

  -- A poll that returns has settled every event that it claimed, in their order: the row of each event that
  -- was sent says that it is dispatched and holds no lease, the row of any other counts one attempt more,
  -- with the time of its retry, and the result counts the events claimed, sent and not sent.
  pub run_once-Settles :
      (db db₁ db' : Database) (events : List OutboxEvent) (r : OutboxRelayResult)
      → unit_of_work (claim_in config now) db ≡ (ok events, db₁)
      → run_once config now accepts db ≡ (ok r, db')
      → Settles 0 events db₁.outbox
          (record { claimed = length events; dispatched = 0; failed = 0 })
          r
          db'
  unfolding run_once
  run_once-Settles db db₁ db' events r c h =
      relay_events-Settles 0 events (record { claimed = length events; dispatched = 0; failed = 0 })
        r db₁ db' (ap (relay_claimed config now accepts) (sym c) ∙ h)
