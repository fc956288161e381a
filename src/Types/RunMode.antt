-- ===== src/Types/RunMode.antt =====
-- src/types.rs: `RunMode`
use swupdate_rs.Common.{ℕ}

pub data RunMode : Type 0 where
  default dry_run install : RunMode

unfoldable pub to_wire : RunMode → ℕ
to_wire default = 0
to_wire dry_run = 1
to_wire install = 2
