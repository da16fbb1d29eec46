-- ===== src/Domain/Station.antt =====
-- domain/station.py: the station entity and the checks of its constructor.
use true_nas_controller.Common.{
  ℕ, Bool, true, false, not, ◌&&◌, Option, none, some, Text, is_blank, is_some, is_none,
  if◌then◌else◌,
}

pub data StationRole : Type 0 where
  admin client : StationRole

abbrev pub role_eq : StationRole → StationRole → Bool
role_eq admin admin = true
role_eq client client = true
role_eq _ _ = false

pub data StationStatus : Type 0 where
  online stale offline disabled : StationStatus

abbrev pub is_offline : StationStatus → Bool
is_offline offline = true
is_offline _ = false

abbrev pub is_disabled : StationStatus → Bool
is_disabled disabled = true
is_disabled _ = false

-- Instants are microseconds in UTC: `ensure_utc` has been applied to every value.
pub record Station : Type 0 where
  pub id : ℕ
  pub station_id : ℕ
  pub display_name : Text
  pub hostname : Text
  pub role : StationRole
  pub status : StationStatus
  pub enabled : Bool
  pub deleted_at : Option ℕ
  pub target_name : Option Text
  pub target_iqn : Option Text
  pub initiator_iqn : Option Text
  pub last_update_at : Option ℕ

-- What `__post_init__` complains of, in its order.
pub data StationError : Type 0 where
  blank_display_name blank_hostname blank_target_name blank_target_iqn blank_initiator_iqn :
      StationError
  deleted_enabled not_enabled_not_disabled disabled_but_enabled : StationError

-- `value is not None and not value.strip()`
abbrev pub blank_when_given : Option Text → Bool
blank_when_given none = false
blank_when_given (some value) = is_blank value

-- `Station.__post_init__`: `none` when the value is accepted.
unfoldable pub station_error : Station → Option StationError
station_error s =
    if is_blank s.display_name
    then some blank_display_name
    else if is_blank s.hostname
    then some blank_hostname
    else if blank_when_given s.target_name
    then some blank_target_name
    else if blank_when_given s.target_iqn
    then some blank_target_iqn
    else if blank_when_given s.initiator_iqn
    then some blank_initiator_iqn
    else if is_some s.deleted_at && s.enabled
    then some deleted_enabled
    else if not s.enabled && not (is_disabled s.status)
    then some not_enabled_not_disabled
    else if s.enabled && is_disabled s.status
    then some disabled_but_enabled
    else none

-- `Station.is_available`
unfoldable pub is_available : Station → Bool
is_available s = s.enabled && is_none s.deleted_at && not (is_offline s.status)
