-- ===== src/Control/Replies.antt =====
-- src/control.rs: what the client reads in the daemon's answers.
pub mod Read
use swupdate_rs.Common.{ℕ, Option, none, some, ◌++◌}
use swupdate_rs.Text.{Text, codes}
use swupdate_rs.Text.Format.{display_i32}
use swupdate_rs.Error.{protocol, rejected, Result, ok, err}
use swupdate_rs.Wire.MsgType.{MsgType}
use swupdate_rs.Wire.Message.{RawIpcMessage, read_int, read_cstr_at}
use swupdate_rs.Wire.Layout.Slots.{
  msg_head, status_current, status_last_result, status_error, status_desc, revisions_boardname,
  revisions_revision, vars_varnamespace, vars_varname, vars_varvalue,
}
use swupdate_rs.Types.RecoveryStatus.{RecoveryStatus, from_wire as status_from_wire}
use swupdate_rs.Types.UpdateState.{UpdateState, from_wire as state_from_wire}
use swupdate_rs.Types.Responses.{UpdateStatus, HwRevision, SwupdateVar}

-- The derived `Debug` of `MsgType`.
unfoldable pub debug_msg_type : MsgType → Text
debug_msg_type MsgType.req_install = codes "ReqInstall"
debug_msg_type MsgType.ack = codes "Ack"
debug_msg_type MsgType.nack = codes "Nack"
debug_msg_type MsgType.get_status = codes "GetStatus"
debug_msg_type MsgType.post_update = codes "PostUpdate"
debug_msg_type MsgType.swupdate_subprocess = codes "SwupdateSubprocess"
debug_msg_type MsgType.set_aes_key = codes "SetAesKey"
debug_msg_type MsgType.set_update_state = codes "SetUpdateState"
debug_msg_type MsgType.get_update_state = codes "GetUpdateState"
debug_msg_type MsgType.req_install_ext = codes "ReqInstallExt"
debug_msg_type MsgType.set_versions_range = codes "SetVersionsRange"
debug_msg_type MsgType.notify_stream = codes "NotifyStream"
debug_msg_type MsgType.get_hw_revision = codes "GetHwRevision"
debug_msg_type MsgType.set_swupdate_vars = codes "SetSwupdateVars"
debug_msg_type MsgType.get_swupdate_vars = codes "GetSwupdateVars"
debug_msg_type MsgType.set_delta_url = codes "SetDeltaUrl"

debug_option : Option MsgType → Text
unfolding debug_msg_type
debug_option none = codes "None"
debug_option (some t) = codes "Some(" ++ debug_msg_type t ++ codes ")"

-- The match of `send_and_expect_ack`.
unfoldable pub expect_ack : Option MsgType → Result (Unit {0})
unfolding debug_option
expect_ack (some MsgType.ack) = ok tt
expect_ack (some MsgType.nack) = err rejected
expect_ack other = err (protocol (codes "expected ACK/NACK, got " ++ debug_option other))

-- `from_wire(v).ok_or_else(|| Error::Protocol(format!("{what}: {v}")))`
unfoldable pub or_invalid {ℓ} : {A : Type ℓ} → Option A → Text → ℕ → Result A
or_invalid (some a) what v = ok a
or_invalid none what v = err (protocol (what ++ display_i32 v))

unfoldable pub status_of :
    Result RecoveryStatus → Result RecoveryStatus → ℕ → Text → Result UpdateStatus
status_of (err e) last_result error desc = err e
status_of (ok current) (err e) error desc = err e
status_of (ok current) (ok last_result) error desc =
    ok (record { current = current; last_result = last_result; error = error; description = desc })

-- The tail of `get_status`, behind the receipt of the answer.
unfoldable pub update_status : RawIpcMessage → Result UpdateStatus
unfolding or_invalid status_of
update_status resp =
    let current = read_int status_current resp.body in
    let last_result = read_int status_last_result resp.body in
    status_of (or_invalid (status_from_wire current) (codes "invalid status: ") current)
      (or_invalid (status_from_wire last_result) (codes "invalid last_result: ") last_result)
      (read_int status_error resp.body) (read_cstr_at status_desc resp.body)

-- The tail of `get_update_state`: four bytes of the variant `msg` as an i32.
unfoldable pub update_state : RawIpcMessage → Result UpdateState
unfolding or_invalid
update_state resp =
    let val = read_int msg_head resp.body in
    or_invalid (state_from_wire val) (codes "invalid update state: ") val

unfoldable pub hw_revision : RawIpcMessage → HwRevision
hw_revision resp = record {
  boardname = read_cstr_at revisions_boardname resp.body;
  revision = read_cstr_at revisions_revision resp.body;
}

unfoldable pub swupdate_var : RawIpcMessage → SwupdateVar
swupdate_var resp = record {
  namespace = read_cstr_at vars_varnamespace resp.body;
  name = read_cstr_at vars_varname resp.body;
  value = read_cstr_at vars_varvalue resp.body;
}
