-- ===== src/Domain/Snapshot.antt =====
-- domain/snapshot.py: what an agent reports of its processes and drives.
use true_nas_controller.Common.{ℕ, Bool, Option, List, Text}

pub record ProcessInfo : Type 0 where
  pub name : Text
  pub pid : Option ℕ
  pub path : Option Text

pub record DriveInfo : Type 0 where
  pub letter : Text
  pub present : Bool
  pub free_bytes : Option ℕ

pub record ProcessSnapshot : Type 0 where
  pub station_id : ℕ
  pub captured_at : ℕ
  pub agent_version : Text
  pub processes : List ProcessInfo
  pub drives : List DriveInfo
  pub received_at : Option ℕ
