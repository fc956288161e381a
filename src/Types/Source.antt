-- ===== src/Types/Source.antt =====
-- src/types.rs: `Source`
use swupdate_rs.Common.{ℕ, ◌≡◌, ◌==◌, if◌then◌else◌, arith}

pub data Source : Type 0 where
  unknown webserver suricatta downloader local chunks_downloader : Source

unfoldable pub to_wire : Source → ℕ
to_wire unknown = 0
to_wire webserver = 1
to_wire suricatta = 2
to_wire downloader = 3
to_wire local = 4
to_wire chunks_downloader = 5

-- The crate has this direction for its tests only. Any other number is `unknown`.
unfoldable pub from_wire : ℕ → Source
from_wire v =
    if v == 1
    then webserver
    else if v == 2
    then suricatta
    else if v == 3
    then downloader
    else if v == 4
    then local
    else if v == 5
    then chunks_downloader
    else unknown

-- Every source is read back from its code.
pub from_wire-to_wire : (s : Source) → from_wire (to_wire s) ≡ s
unfolding from_wire to_wire
from_wire-to_wire s = ground arith
