-- ===== src/Store/Tokens.antt =====
-- repository/enrollment_tokens.py and repository/provisioning_tokens.py: one-time tokens, stored as
-- digests and consumed under a row lock.
pub mod OneTime
use true_nas_controller.Common.{
  ℕ, not, Option, none, some, List, [], ◌∷◌, ◌++◌, Text, text_eq, find_first, update_if, ◌==◌,
  if◌then◌else◌,
}
use true_nas_controller.Domain.Token.{
  EnrollmentToken, ProvisioningToken, enrollment_usable, provisioning_usable,
}
use true_nas_controller.Store.Database.{Database, StationRow, EnrollmentRow}
use true_nas_controller.Store.Stations.{find_station}
use true_nas_controller.Store.Session.{
  value_error, Tx, ◌>>=◌, ◌>>◌, pure, raise, gets, modify, one_or_none,
}

abbrev insert_enrollment : EnrollmentToken → Option StationRow → Tx (Unit {0})
insert_enrollment token none = raise value_error
insert_enrollment token (some station) = modify (λ db. record db {
  enrollment_tokens =
      db.enrollment_tokens
      ++ record {
        id = token.id;
        station_pk = station.station.id;
        token_hash = token.token_hash;
        expires_at = token.expires_at;
        used_at = token.used_at;
        revoked_at = token.revoked_at;
      }
        ∷ [];
})

-- `SqlAlchemyEnrollmentTokenRepository.add`
unfoldable pub add_enrollment_token : EnrollmentToken → Tx (Unit {0})
add_enrollment_token token = do
  found ← gets (find_station token.station_id)
  insert_enrollment token found

-- A token row with the station that it is joined to.
abbrev join_enrollment :
    EnrollmentRow
    → Option StationRow
    → List (EnrollmentRow × StationRow)
    → List (EnrollmentRow × StationRow)
join_enrollment row none rest = rest
join_enrollment row (some station) rest = (row, station) ∷ rest

abbrev pub enrollments_with :
    Text → List StationRow → List EnrollmentRow → List (EnrollmentRow × StationRow)
enrollments_with token_hash stations [] = []
enrollments_with token_hash stations (row ∷ rows) =
    let rest = enrollments_with token_hash stations rows in
    if text_eq row.token_hash token_hash
    then join_enrollment row
        (find_first (λ (s : StationRow). s.station.id == row.station_pk) stations) rest
    else rest

abbrev pub enrollment_token_of : EnrollmentRow → StationRow → EnrollmentToken
enrollment_token_of row station = record {
  id = row.id;
  station_id = station.station.station_id;
  token_hash = row.token_hash;
  expires_at = row.expires_at;
  used_at = row.used_at;
  revoked_at = row.revoked_at;
}

abbrev consume_enrollment_row :
    ℕ → Option (EnrollmentRow × StationRow) → Tx (Option EnrollmentToken)
consume_enrollment_row now none = pure none
consume_enrollment_row now (some (row, station)) =
    if not (enrollment_usable (enrollment_token_of row station) now) then pure none else do
      modify (λ db. record db {
        enrollment_tokens =
            update_if (λ (r : EnrollmentRow). r.id == row.id)
              (λ (r : EnrollmentRow). record r { used_at = some now }) db.enrollment_tokens;
      })
      pure (some (enrollment_token_of row station))

-- `SqlAlchemyEnrollmentTokenRepository.consume`
unfoldable pub consume_enrollment : Text → ℕ → Tx (Option EnrollmentToken)
consume_enrollment token_hash now = do
  rows ← gets (λ db. enrollments_with token_hash db.stations db.enrollment_tokens)
  row ← one_or_none rows
  consume_enrollment_row now row

-- `SqlAlchemyProvisioningTokenRepository.add`
unfoldable pub add_provisioning_token : ProvisioningToken → Tx (Unit {0})
add_provisioning_token token =
    modify (λ db. record db { provisioning_tokens = db.provisioning_tokens ++ token ∷ [] })

abbrev consume_provisioning_row : ℕ → Option ProvisioningToken → Tx (Option ProvisioningToken)
consume_provisioning_row now none = pure none
consume_provisioning_row now (some token) =
    if not (provisioning_usable token now) then pure none else do
      modify (λ db. record db {
        provisioning_tokens =
            update_if (λ (r : ProvisioningToken). r.id == token.id)
              (λ (r : ProvisioningToken). record r { used_at = some now }) db.provisioning_tokens;
      })
      pure (some token)

abbrev pub find_provisioning : Text → Database → Option ProvisioningToken
find_provisioning token_hash db =
    find_first (λ (t : ProvisioningToken). text_eq t.token_hash token_hash) db.provisioning_tokens

-- `SqlAlchemyProvisioningTokenRepository.consume`
unfoldable pub consume_provisioning : Text → ℕ → Tx (Option ProvisioningToken)
consume_provisioning token_hash now = do
  found ← gets (find_provisioning token_hash)
  consume_provisioning_row now found
