-- ===== src/Types/RecoveryStatus.antt =====
-- src/types.rs: the public `RecoveryStatus`. A negative i32 is a number above every code.
use mathlib.Core.Option
use swupdate_rs.Common.{ℕ, ◌≡◌, Option, none, some, ◌==◌, if◌then◌else◌, arith}
use swupdate_rs.Wire.RecoveryStatus as Wire

pub data RecoveryStatus : Type 0 where
  idle start run success failure download done subprocess progress : RecoveryStatus

unfoldable pub from_wire : ℕ → Option RecoveryStatus
from_wire v =
    if v == 0
    then some idle
    else if v == 1
    then some start
    else if v == 2
    then some run
    else if v == 3
    then some success
    else if v == 4
    then some failure
    else if v == 5
    then some download
    else if v == 6
    then some done
    else if v == 7
    then some subprocess
    else if v == 8
    then some progress
    else none

-- The public enum's variant of a wire status.
abbrev pub of_wire_status : Wire.RecoveryStatus → RecoveryStatus
of_wire_status Wire.idle = idle
of_wire_status Wire.start = start
of_wire_status Wire.run = run
of_wire_status Wire.success = success
of_wire_status Wire.failure = failure
of_wire_status Wire.download = download
of_wire_status Wire.done = done
of_wire_status Wire.subprocess = subprocess
of_wire_status Wire.progress = progress

-- The public and the wire enum of recovery statuses read every 32-bit number alike, a number above
-- the codes as none.
pub from_wire-from_u32 : (v : ℕ) → from_wire v ≡ Option.map of_wire_status (Wire.from_u32 v)
unfolding from_wire Wire.from_u32
from_wire-from_u32 v = ground arith
