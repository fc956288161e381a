-- ===== src/Types/UpdateState.antt =====
-- src/types.rs: `UpdateState`, the bootloader's state, whose codes are ASCII digits.
use swupdate_rs.Common.{ℕ, ◌≡◌, ◌∙◌, ap, ◌↔◌, Option, none, some, ◌==◌, if◌then◌else◌, arith}

pub data UpdateState : Type 0 where
  ok installed testing failed not_available error wait in_progress : UpdateState

unfoldable pub to_wire : UpdateState → ℕ
to_wire ok = b'0'
to_wire installed = b'1'
to_wire testing = b'2'
to_wire failed = b'3'
to_wire not_available = b'4'
to_wire error = b'5'
to_wire wait = b'6'
to_wire in_progress = b'7'

unfoldable pub from_wire : ℕ → Option UpdateState
from_wire v =
    if v == b'0'
    then some ok
    else if v == b'1'
    then some installed
    else if v == b'2'
    then some testing
    else if v == b'3'
    then some failed
    else if v == b'4'
    then some not_available
    else if v == b'5'
    then some error
    else if v == b'6'
    then some wait
    else if v == b'7'
    then some in_progress
    else none

-- A state is read back from its code.
pub from_wire-to_wire : (s : UpdateState) → from_wire (to_wire s) ≡ some s
unfolding from_wire to_wire
from_wire-to_wire s = ground arith

from_wire-eq_some : (v : ℕ) (s : UpdateState) → from_wire v ≡ some s → v ≡ to_wire s
unfolding from_wire to_wire
from_wire-eq_some v s e = ground arith

-- `UpdateState::from_wire` gives a state exactly at the code that `to_wire` gives for it.
pub from_wire_iff : (v : ℕ) (s : UpdateState) → (from_wire v ≡ some s) ↔ (v ≡ to_wire s)
from_wire_iff v s = (from_wire-eq_some v s, λ e. ap from_wire e ∙ from_wire-to_wire s)
