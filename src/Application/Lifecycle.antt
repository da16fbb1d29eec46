-- ===== src/Application/Lifecycle.antt =====
-- application/lifecycle.py: registering and deleting stations, and the one-time tokens of their agents.
-- `hash_secret` is SHA-256 in hexadecimal, a parameter; the random secrets and identifiers are
-- arguments.
use true_nas_controller.Common.{
  ℕ, ◌+◌, ◌*◌, Bool, true, false, Option, none, some, Text, is_some, is_none, if◌then◌else◌,
}
use true_nas_controller.Domain.Station.{Station, StationRole, offline, station_error}
use true_nas_controller.Store.Database.{Database}
use true_nas_controller.Store.Session.{
  Result, err, value_error, station_registration_conflict, Tx, ◌>>=◌, ◌>>◌, pure, raise, commit,
  unit_of_work,
}
use true_nas_controller.Store.Stations.{get_station, add_station, restore_station, delete_station}
use true_nas_controller.Store.Tokens.{add_enrollment_token, add_provisioning_token}

-- A minute in microseconds, and the lifetimes of the tokens.
abbrev pub minute : ℕ
minute = 60000000

abbrev pub enrollment_token_ttl : ℕ
enrollment_token_ttl = 10 * minute

abbrev pub provisioning_token_ttl : ℕ
provisioning_token_ttl = 15 * minute

-- `DeleteStationUseCase.execute`
abbrev finish_delete : Bool → Tx Bool
finish_delete false = pure false
finish_delete true = do commit; pure true

unfoldable pub delete_in : ℕ → ℕ → Tx Bool
delete_in station_id now = do deleted ← delete_station station_id now; finish_delete deleted

unfoldable pub delete_station_use_case : ℕ → ℕ → Database → Result Bool × Database
unfolding delete_in
delete_station_use_case station_id now db = unit_of_work (delete_in station_id now) db

-- The operator's description of a new station, with the identifiers that `uuid4()` supplies.
pub record StationRequest : Type 0 where
  pub id : ℕ
  pub station_id : ℕ
  pub display_name : Text
  pub hostname : Text
  pub role : StationRole
  pub target_name : Option Text
  pub target_iqn : Option Text
  pub initiator_iqn : Option Text
  pub token_id : ℕ
  pub raw_token : Text

abbrev pub new_station : StationRequest → Station
new_station r = record {
  id = r.id;
  station_id = r.station_id;
  display_name = r.display_name;
  hostname = r.hostname;
  role = r.role;
  status = offline;
  enabled = true;
  deleted_at = none;
  target_name = r.target_name;
  target_iqn = r.target_iqn;
  initiator_iqn = r.initiator_iqn;
  last_update_at = none;
}

pub record StationRegistration : Type 0 where
  pub station : Station
  pub enrollment_token : Text
  pub enrollment_expires_at : ℕ

-- The station is new, deleted, or registered.
abbrev place_station : Station → Option Station → Tx Station
place_station station none = do add_station station; pure station
place_station station (some existing) =
    if is_none existing.deleted_at then raise station_registration_conflict else (do
      restore_station (record station { id = existing.id })
      pure (record station { id = existing.id }))

module _ (hash_secret : Text → Text) where
  -- `CreateStationUseCase.execute`
  unfoldable pub create_station_in : StationRequest → ℕ → Tx StationRegistration
  create_station_in r now = do
    existing ← get_station r.station_id
    station ← place_station (new_station r) existing
    add_enrollment_token (record {
      id = r.token_id;
      station_id = r.station_id;
      token_hash = hash_secret r.raw_token;
      expires_at = now + enrollment_token_ttl;
      used_at = none;
      revoked_at = none;
    })
    commit
    pure (record {
      station = station;
      enrollment_token = r.raw_token;
      enrollment_expires_at = now + enrollment_token_ttl;
    })

  unfoldable pub create_station :
      StationRequest → ℕ → Database → Result StationRegistration × Database
  unfolding create_station_in
  create_station r now db =
      if is_some (station_error (new_station r))
      then (err value_error, db)
      else unit_of_work (create_station_in r now) db

  -- `CreateProvisioningTokenUseCase.execute`
  unfoldable pub provisioning_token_in : ℕ → Text → ℕ → Tx ℕ
  provisioning_token_in id raw_token now = do
    add_provisioning_token (record {
      id = id;
      token_hash = hash_secret raw_token;
      expires_at = now + provisioning_token_ttl;
      used_at = none;
      revoked_at = none;
    })
    commit
    pure (now + provisioning_token_ttl)

  unfoldable pub create_provisioning_token : ℕ → Text → ℕ → Database → Result ℕ × Database
  unfolding provisioning_token_in
  create_provisioning_token id raw_token now db =
      unit_of_work (provisioning_token_in id raw_token now) db
