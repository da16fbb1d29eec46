-- ===== src/Worker/Relay/Polls.antt =====
-- Two polls, one after the other (worker/outbox_relay.py, repository/outbox.py).
use true_nas_controller.Common.{
  ℕ, ◌+◌, ◌*◌, ◌<◌, ◌≡◌, refl, sym, ap, ◌∙◌, Bool, ◌||◌, true, false, List, [], ◌∷◌, map, any,
  arith, ltb, update_if, ◌==◌, if◌then◌else◌,
}
use true_nas_controller.Domain.Outbox.{OutboxEvent}
use true_nas_controller.Store.Database.{Database, OutboxRow}
use true_nas_controller.Store.Session.{
  Result, ok, Tx, ◌>>=◌, ◌>>◌, pure, gets, modify, commit, unit_of_work,
}
use true_nas_controller.Store.Session.Committed.{session, commit-pure}
use true_nas_controller.Store.Outbox.{claim_pending, claimed, lease, has_row, to_event}
use true_nas_controller.Store.Outbox.Leases.{row_in, claims_disjoint}
use true_nas_controller.Worker.Relay.{RelayConfig, claim_in, second}

-- The outbox after the leases of a poll are written.
abbrev leased : RelayConfig → ℕ → List OutboxRow → List OutboxRow
leased config now rows =
    update_if (has_row (claimed config.batch_size now rows))
      (lease config.worker_id now (config.lease_seconds * second)) rows

abbrev pub event_in : List OutboxEvent → OutboxEvent → Bool
event_in events e = any events (λ (x : OutboxEvent). x.id == e.id)

-- What the first transaction of a poll returns and leaves.
record Claim (config : RelayConfig) (now : ℕ) (db : Database) (events : List OutboxEvent)
    (db' : Database) : Type 0 where
  these : events ≡ map to_event (claimed config.batch_size now db.outbox)
  table : ltb config.batch_size 1 ≡ false → db'.outbox ≡ leased config now db.outbox

pure_list : {A : Type 0} (xs ys : List A) → ok xs ≡ ok ys → ys ≡ xs
pure_list xs ys h = cc

-- The two branches of `claim_pending`.
claimed_by :
    (config : RelayConfig) (now : ℕ) (db db' : Database) (events : List OutboxEvent)
    (none_asked : Bool)
    → ltb config.batch_size 1 ≡ none_asked
    → let start = session db in
      let claim : Tx (List OutboxEvent) =
        if none_asked
        then pure []
        else (gets (λ db. claimed config.batch_size now db.outbox) >>= λ taken.
            modify (λ db. record db {
              outbox =
                  update_if
                    (has_row taken)
                    (lease config.worker_id now (config.lease_seconds * second))
                    db.outbox;
            })
            >> pure (map to_event taken)) in
      let (x, s') = (claim >>= λ events. commit >> pure events) start in
      let found : Result (List OutboxEvent) × Database = (x, s'.durable) in
      found ≡ (ok events, db') → Claim config now db events db'
unfolding claimed
claimed_by config now db db' events true e h =
    let left = commit-pure (session db) [] events db' h in
    let none_asked : config.batch_size ≡ 0 = ground arith in
    record {
      these =
          pure_list [] events left.0
          ∙ ap (λ n. map to_event (claimed n now db.outbox)) (sym none_asked);
      table = λ x. cc;
    }
claimed_by config now db db' events false e h =
    let rows = leased config now db.outbox in
    let taken = map to_event (claimed config.batch_size now db.outbox) in
    let left =
      commit-pure (record { working = record db { outbox = rows }; durable = db }) taken events db'
        h in
    record {
      these = pure_list taken events left.0;
      table = λ _. ap (λ (x : Database). x.outbox) (sym left.1);
    }

claim_in-Claim :
    (config : RelayConfig) (now : ℕ) (db db' : Database) (events : List OutboxEvent)
    → unit_of_work (claim_in config now) db ≡ (ok events, db')
    → Claim config now db events db'
unfolding unit_of_work claim_in claim_pending
claim_in-Claim config now db db' events h =
    claimed_by config now db db' events (ltb config.batch_size 1) refl h

-- The rows that a poll takes are the ones whose events it returns.
any_events :
    (rows : List OutboxRow) (id : ℕ)
    → any (map to_event rows) (λ (x : OutboxEvent). x.id == id)
      ≡ any rows (λ (x : OutboxRow). x.id == id)
any_events [] id = refl
any_events (row ∷ rows) id = ap (λ b. row.id == id || b) (any_events rows id)

events_apart :
    (taken rows : List OutboxRow)
    → any rows (row_in taken) ≡ false
    → any (map to_event rows) (event_in (map to_event taken)) ≡ false
events_apart taken [] h = refl
events_apart taken (row ∷ rows) h =
    let same = any_events taken row.id in ground (arith, events_apart taken rows)

none_apart : (events : List OutboxEvent) → any events (event_in []) ≡ false
none_apart [] = refl
none_apart (e ∷ events) = none_apart events

apart :
    (config config' : RelayConfig) (now later : ℕ) (db db' : Database) (none_asked : Bool)
    → ltb config.batch_size 1 ≡ none_asked
    → (ltb config.batch_size 1 ≡ false → db'.outbox ≡ leased config now db.outbox)
    → later < now + config.lease_seconds * second
    → any
        (map to_event (claimed config'.batch_size later db'.outbox))
        (event_in (map to_event (claimed config.batch_size now db.outbox)))
      ≡ false
unfolding claimed
apart config config' now later db db' true e t l =
    let none_asked : config.batch_size ≡ 0 = ground arith in
    let events = map to_event (claimed config'.batch_size later db'.outbox) in
    ap (λ n. any events (event_in (map to_event (claimed n now db.outbox)))) none_asked
    ∙ none_apart events
apart config config' now later db db' false e t l =
    let taken = claimed config.batch_size now db.outbox in
    let lease_for = config.lease_seconds * second in
    ap
      (λ rows.
        any (map to_event (claimed config'.batch_size later rows)) (event_in (map to_event taken)))
      (t e)
    ∙ events_apart taken (claimed config'.batch_size later (leased config now db.outbox)) (
        claims_disjoint config.worker_id config.batch_size config'.batch_size now later lease_for
          db.outbox l)

-- Two polls, of one relay or of two, never take the same event while the lease of the first one runs:
-- after the first transaction of a poll, that of another, on the database left, returns none of its events.
pub polls_apart :
    (config config' : RelayConfig) (now later : ℕ) (db db' db'' : Database)
    (events events' : List OutboxEvent)
    → unit_of_work (claim_in config now) db ≡ (ok events, db')
    → later < now + config.lease_seconds * second
    → unit_of_work (claim_in config' later) db' ≡ (ok events', db'')
    → any events' (event_in events) ≡ false
polls_apart config config' now later db db' db'' events events' h l h' =
    let first = claim_in-Claim config now db db' events h in
    let second = claim_in-Claim config' later db' db'' events' h' in
    rw (first.these, second.these)
      (apart config config' now later db db' (ltb config.batch_size 1) refl first.table l)
