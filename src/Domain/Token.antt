-- ===== src/Domain/Token.antt =====
-- domain/enrollment.py, domain/provisioning.py and domain/agent.py: one-time tokens and the binding
-- of an agent to its station.
use true_nas_controller.Common.{ℕ, Bool, ◌&&◌, Option, List, Text, is_none, ltb}

-- Tokens are stored as digests.
pub record EnrollmentToken : Type 0 where
  pub id : ℕ
  pub station_id : ℕ
  pub token_hash : Text
  pub expires_at : ℕ
  pub used_at : Option ℕ
  pub revoked_at : Option ℕ

-- `EnrollmentToken.is_usable`
unfoldable pub enrollment_usable : EnrollmentToken → ℕ → Bool
enrollment_usable token now =
    is_none token.used_at && is_none token.revoked_at && ltb now token.expires_at

pub record ProvisioningToken : Type 0 where
  pub id : ℕ
  pub token_hash : Text
  pub expires_at : ℕ
  pub used_at : Option ℕ
  pub revoked_at : Option ℕ

-- `ProvisioningToken.is_usable`
unfoldable pub provisioning_usable : ProvisioningToken → ℕ → Bool
provisioning_usable token now =
    is_none token.used_at && is_none token.revoked_at && ltb now token.expires_at

pub record AgentBinding : Type 0 where
  pub id : ℕ
  pub station_id : ℕ
  pub agent_uuid : ℕ
  pub agent_version : Text
  pub credential_hash : Text
  pub credential_created_at : ℕ
  pub revoked_at : Option ℕ
  pub station_enabled : Bool
  pub station_deleted_at : Option ℕ
  pub last_ip_addresses : List Text
  pub last_mac_addresses : List Text

-- `AgentBinding.can_accept_heartbeat`
unfoldable pub can_accept_heartbeat : AgentBinding → Bool
can_accept_heartbeat binding =
    is_none binding.revoked_at && binding.station_enabled && is_none binding.station_deleted_at
