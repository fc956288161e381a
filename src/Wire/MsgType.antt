-- ===== src/Wire/MsgType.antt =====
-- src/wire.rs: the message types of the control socket, `MsgType::from_i32` and the cast back.
use swupdate_rs.Common.{ℕ, ◌≡◌, ◌↔◌, ap, Option, none, some, ◌==◌, if◌then◌else◌, ◌∙◌, arith}

pub data MsgType : Type 0 where
  req_install ack nack get_status post_update swupdate_subprocess set_aes_key : MsgType
  set_update_state get_update_state req_install_ext set_versions_range : MsgType
  notify_stream get_hw_revision set_swupdate_vars get_swupdate_vars : MsgType
  set_delta_url : MsgType

-- The discriminant, `as i32`.
unfoldable pub as_i32 : MsgType → ℕ
as_i32 req_install = 0
as_i32 ack = 1
as_i32 nack = 2
as_i32 get_status = 3
as_i32 post_update = 4
as_i32 swupdate_subprocess = 5
as_i32 set_aes_key = 6
as_i32 set_update_state = 7
as_i32 get_update_state = 8
as_i32 req_install_ext = 9
as_i32 set_versions_range = 10
as_i32 notify_stream = 11
as_i32 get_hw_revision = 12
as_i32 set_swupdate_vars = 13
as_i32 get_swupdate_vars = 14
as_i32 set_delta_url = 15

unfoldable pub from_i32 : ℕ → Option MsgType
from_i32 v =
    if v == 0
    then some req_install
    else if v == 1
    then some ack
    else if v == 2
    then some nack
    else if v == 3
    then some get_status
    else if v == 4
    then some post_update
    else if v == 5
    then some swupdate_subprocess
    else if v == 6
    then some set_aes_key
    else if v == 7
    then some set_update_state
    else if v == 8
    then some get_update_state
    else if v == 9
    then some req_install_ext
    else if v == 10
    then some set_versions_range
    else if v == 11
    then some notify_stream
    else if v == 12
    then some get_hw_revision
    else if v == 13
    then some set_swupdate_vars
    else if v == 14
    then some get_swupdate_vars
    else if v == 15
    then some set_delta_url
    else none

-- Every code is read back as the variant that it stands for.
pub from_i32-as_i32 : (t : MsgType) → from_i32 (as_i32 t) ≡ some t
unfolding from_i32 as_i32
from_i32-as_i32 t = ground arith

from_i32-eq_some : (v : ℕ) (t : MsgType) → from_i32 v ≡ some t → v ≡ as_i32 t
unfolding from_i32 as_i32
from_i32-eq_some v t e = ground arith

-- `MsgType::from_i32` gives a variant exactly at the code of that variant.
pub from_i32_iff : (v : ℕ) (t : MsgType) → (from_i32 v ≡ some t) ↔ (v ≡ as_i32 t)
from_i32_iff v t = (from_i32-eq_some v t, λ e. ap from_i32 e ∙ from_i32-as_i32 t)
