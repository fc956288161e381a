-- ===== src/Types/Responses.antt =====
-- src/types.rs: the answers to the queries.
use swupdate_rs.Common.{ℕ}
use swupdate_rs.Text.{Text}
use swupdate_rs.Types.RecoveryStatus.{RecoveryStatus}

-- `error` is an i32, as its bit pattern.
pub record UpdateStatus : Type 0 where
  pub current : RecoveryStatus
  pub last_result : RecoveryStatus
  pub error : ℕ
  pub description : Text

pub record HwRevision : Type 0 where
  pub boardname : Text
  pub revision : Text

pub record SwupdateVar : Type 0 where
  pub namespace : Text
  pub name : Text
  pub value : Text
