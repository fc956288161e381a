-- ===== src/Wire/RecoveryStatus.antt =====
-- src/wire.rs: the status codes of progress messages, `RecoveryStatus::from_u32` and the cast back.
use swupdate_rs.Common.{ℕ, ◌≡◌, ◌↔◌, ap, Option, none, some, ◌==◌, if◌then◌else◌, ◌∙◌, arith}

pub data RecoveryStatus : Type 0 where
  idle start run success failure download done subprocess progress : RecoveryStatus

-- The discriminant, `as u32`.
unfoldable pub as_u32 : RecoveryStatus → ℕ
as_u32 idle = 0
as_u32 start = 1
as_u32 run = 2
as_u32 success = 3
as_u32 failure = 4
as_u32 download = 5
as_u32 done = 6
as_u32 subprocess = 7
as_u32 progress = 8

unfoldable pub from_u32 : ℕ → Option RecoveryStatus
from_u32 v =
    if v == 0
    then some idle
    else if v == 1
    then some start
    else if v == 2
    then some run
    else if v == 3
    then some success
    else if v == 4
    then some failure
    else if v == 5
    then some download
    else if v == 6
    then some done
    else if v == 7
    then some subprocess
    else if v == 8
    then some progress
    else none

-- Every code is read back as the variant that it stands for.
pub from_u32-as_u32 : (t : RecoveryStatus) → from_u32 (as_u32 t) ≡ some t
unfolding from_u32 as_u32
from_u32-as_u32 t = ground arith

from_u32-eq_some : (v : ℕ) (t : RecoveryStatus) → from_u32 v ≡ some t → v ≡ as_u32 t
unfolding from_u32 as_u32
from_u32-eq_some v t e = ground arith

-- `from_u32 v` is the variant `t` exactly when `v` is the code of `t`.
pub from_u32_iff : (v : ℕ) (t : RecoveryStatus) → (from_u32 v ≡ some t) ↔ (v ≡ as_u32 t)
from_u32_iff v t = (from_u32-eq_some v t, λ e. ap from_u32 e ∙ from_u32-as_u32 t)
