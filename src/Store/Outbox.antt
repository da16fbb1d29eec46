-- ===== src/Store/Outbox.antt =====
-- repository/outbox.py: events leased to a relay. Instants are microseconds.
pub mod Leases
use true_nas_controller.Common.{
  ℕ, ◌+◌, Bool, false, ◌&&◌, ◌||◌, Option, none, some, List, [], ◌∷◌, ◌++◌, Text, leb, ltb,
  find_first, update_if, keep_if, order_by, take, map, any, is_none, ◌==◌, if◌then◌else◌,
}
use true_nas_controller.Domain.Outbox.{OutboxEvent, pending, dispatched, failed, is_pending}
use true_nas_controller.Store.Database.{Database, OutboxRow}
use true_nas_controller.Store.Jobs.{or_now}
use true_nas_controller.Store.Session.{value_error, Tx, ◌>>=◌, ◌>>◌, pure, raise, gets, modify}

-- The row that `add` inserts; `now` is `utc_now()`.
abbrev pub event_row : ℕ → OutboxEvent → OutboxRow
event_row now event = record {
  id = event.id;
  aggregate_id = event.aggregate_id;
  event_type = event.event_type;
  payload = event.payload;
  correlation_id = event.correlation_id;
  status = event.status;
  attempts = event.attempts;
  available_at = or_now event.available_at now;
  locked_at = none;
  locked_by = none;
  lease_expires_at = none;
  dispatched_at = none;
  last_error = none;
  created_at = or_now event.created_at now;
}

-- `add`
unfoldable pub add_event : ℕ → OutboxEvent → Tx (Unit {0})
add_event now event = modify (λ db. record db { outbox = db.outbox ++ event_row now event ∷ [] })

-- `_to_domain`
abbrev pub to_event : OutboxRow → OutboxEvent
to_event row = record {
  id = row.id;
  aggregate_id = row.aggregate_id;
  event_type = row.event_type;
  payload = row.payload;
  correlation_id = row.correlation_id;
  status = row.status;
  attempts = row.attempts;
  available_at = some row.available_at;
  created_at = some row.created_at;
}

-- `lease_expires_at <= now`, false on NULL
abbrev pub lease_over : Option ℕ → ℕ → Bool
lease_over none now = false
lease_over (some t) now = leb t now

-- The `WHERE` of `claim_pending`.
unfoldable pub claimable : ℕ → OutboxRow → Bool
claimable now row =
    is_pending row.status
    && leb row.available_at now
    && (is_none row.locked_at || lease_over row.lease_expires_at now)

-- `ORDER BY created_at, id`
abbrev pub created_before : OutboxRow → OutboxRow → Bool
created_before a b =
    ltb a.created_at b.created_at || (a.created_at == b.created_at && leb a.id b.id)

-- The rows that one poll takes.
unfoldable pub claimed : ℕ → ℕ → List OutboxRow → List OutboxRow
claimed limit now rows = take limit (order_by created_before (keep_if (claimable now) rows))

unfoldable pub lease : Text → ℕ → ℕ → OutboxRow → OutboxRow
lease worker_id now lease_for row = record row {
  locked_at = some now;
  locked_by = some worker_id;
  lease_expires_at = some (now + lease_for);
}

abbrev pub has_row : List OutboxRow → OutboxRow → Bool
has_row rows row = any rows (λ (r : OutboxRow). r.id == row.id)

-- `claim_pending`; a limit below 1 claims nothing.
unfoldable pub claim_pending : ℕ → Text → ℕ → ℕ → Tx (List OutboxEvent)
claim_pending limit worker_id now lease_for = if ltb limit 1 then pure [] else do
  taken ← gets (λ db. claimed limit now db.outbox)
  modify (λ db. record db {
    outbox = update_if (has_row taken) (lease worker_id now lease_for) db.outbox;
  })
  pure (map to_event taken)

abbrev pub find_event : ℕ → Database → Option OutboxRow
find_event id db = find_first (λ (r : OutboxRow). r.id == id) db.outbox

abbrev pub write_event : (OutboxRow → OutboxRow) → Option OutboxRow → Tx (Unit {0})
write_event f none = raise value_error
write_event f (some row) =
    modify (λ db. record db { outbox = update_if (λ (r : OutboxRow). r.id == row.id) f db.outbox })

-- The columns that `mark_dispatched` writes.
unfoldable pub delivered : ℕ → OutboxRow → OutboxRow
delivered dispatched_at row = record row {
  status = dispatched;
  dispatched_at = some dispatched_at;
  locked_at = none;
  locked_by = none;
  lease_expires_at = none;
}

-- `mark_dispatched`
unfoldable pub mark_dispatched : ℕ → ℕ → Tx (Unit {0})
mark_dispatched event_id dispatched_at = do
  found ← gets (find_event event_id)
  write_event (delivered dispatched_at) found

-- The columns that `mark_failed` writes.
unfoldable pub undelivered : Text → ℕ → ℕ → OutboxRow → OutboxRow
undelivered message retry_at max_attempts row = record row {
  attempts = row.attempts + 1;
  status = if leb max_attempts (row.attempts + 1) then failed else pending;
  available_at = retry_at;
  last_error = some (take 1000 message);
  locked_at = none;
  locked_by = none;
  lease_expires_at = none;
}

-- `mark_failed`
unfoldable pub mark_failed : ℕ → Text → ℕ → ℕ → Tx (Unit {0})
mark_failed event_id message retry_at max_attempts = do
  found ← gets (find_event event_id)
  write_event (undelivered message retry_at max_attempts) found
