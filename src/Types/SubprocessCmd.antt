-- ===== src/Types/SubprocessCmd.antt =====
-- src/types.rs: `SubprocessCmd`
use swupdate_rs.Common.{ℕ}

pub data SubprocessCmd : Type 0 where
  activation config enable get_status set_download_url : SubprocessCmd

unfoldable pub to_wire : SubprocessCmd → ℕ
to_wire activation = 0
to_wire config = 1
to_wire enable = 2
to_wire get_status = 3
to_wire set_download_url = 4
