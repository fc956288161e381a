-- ===== src/Control/Messages.antt =====
-- src/control.rs: the message that each method of `ControlClient` builds before it is sent.
pub mod Seen
pub mod Formed
pub mod Whole
use swupdate_rs.Common.{ℕ}
use swupdate_rs.Text.{Text}
use swupdate_rs.Wire.MsgType
use swupdate_rs.Wire.MsgType.{MsgType}
use swupdate_rs.Wire.Message.{RawIpcMessage, new, write_slot, write_int, write_cstr_at}
use swupdate_rs.Wire.Layout.Slots.{
  msg_head, instmsg_req, instmsg_len, procmsg_source, procmsg_cmd, procmsg_timeout, procmsg_len,
  aeskeymsg_key_ascii, aeskeymsg_ivt_ascii, versions_minimum_version, versions_maximum_version,
  versions_current_version, versions_update_type, vars_varnamespace, vars_varname, vars_varvalue,
  dwl_url_filename, dwl_url_url,
}
use swupdate_rs.Types.Source.{Source, to_wire as source_to_wire}
use swupdate_rs.Types.SubprocessCmd.{SubprocessCmd, to_wire as cmd_to_wire}
use swupdate_rs.Types.UpdateState.{UpdateState, to_wire as state_to_wire}
use swupdate_rs.Types.Request.{InstallRequest, to_raw}

unfoldable pub install_message : InstallRequest → RawIpcMessage
unfolding new
install_message req =
    let msg = new MsgType.req_install in
    let requested = write_slot instmsg_req (to_raw req) msg.body in
    record msg { body = write_int instmsg_len 0 requested }

-- GET_STATUS, GET_UPDATE_STATE, POST_UPDATE and GET_HW_REVISION carry nothing but their type.
unfoldable pub get_status_message : RawIpcMessage
unfolding new
get_status_message = new MsgType.get_status

unfoldable pub get_update_state_message : RawIpcMessage
unfolding new
get_update_state_message = new MsgType.get_update_state

unfoldable pub set_update_state_message : UpdateState → RawIpcMessage
unfolding new
set_update_state_message state =
    let msg = new MsgType.set_update_state in
    record msg { body = write_int msg_head (state_to_wire state) msg.body }

unfoldable pub post_update_message : RawIpcMessage
unfolding new
post_update_message = new MsgType.post_update

unfoldable pub set_aes_key_message : (key iv : Text) → RawIpcMessage
unfolding new
set_aes_key_message key iv =
    let msg = new MsgType.set_aes_key in
    let keyed = write_cstr_at aeskeymsg_key_ascii key msg.body in
    record msg { body = write_cstr_at aeskeymsg_ivt_ascii iv keyed }

unfoldable pub set_versions_range_message :
    (minimum maximum current update_type : Text) → RawIpcMessage
unfolding new
set_versions_range_message minimum maximum current update_type =
    let msg = new MsgType.set_versions_range in
    let least = write_cstr_at versions_minimum_version minimum msg.body in
    let most = write_cstr_at versions_maximum_version maximum least in
    let now = write_cstr_at versions_current_version current most in
    record msg { body = write_cstr_at versions_update_type update_type now }

unfoldable pub get_hw_revision_message : RawIpcMessage
unfolding new
get_hw_revision_message = new MsgType.get_hw_revision

unfoldable pub set_swupdate_var_message : (namespace name value : Text) → RawIpcMessage
unfolding new
set_swupdate_var_message namespace name value =
    let msg = new MsgType.set_swupdate_vars in
    let spaced = write_cstr_at vars_varnamespace namespace msg.body in
    let named = write_cstr_at vars_varname name spaced in
    record msg { body = write_cstr_at vars_varvalue value named }

unfoldable pub get_swupdate_var_message : (namespace name : Text) → RawIpcMessage
unfolding new
get_swupdate_var_message namespace name =
    let msg = new MsgType.get_swupdate_vars in
    let spaced = write_cstr_at vars_varnamespace namespace msg.body in
    record msg { body = write_cstr_at vars_varname name spaced }

-- `timeout` is an i32, as its bit pattern.
unfoldable pub subprocess_cmd_message : Source → SubprocessCmd → ℕ → RawIpcMessage
unfolding new
subprocess_cmd_message source cmd timeout =
    let msg = new MsgType.swupdate_subprocess in
    let sourced = write_int procmsg_source (source_to_wire source) msg.body in
    let commanded = write_int procmsg_cmd (cmd_to_wire cmd) sourced in
    let timed = write_int procmsg_timeout timeout commanded in
    record msg { body = write_int procmsg_len 0 timed }

unfoldable pub set_delta_url_message : (filename url : Text) → RawIpcMessage
unfolding new
set_delta_url_message filename url =
    let msg = new MsgType.set_delta_url in
    let named = write_cstr_at dwl_url_filename filename msg.body in
    record msg { body = write_cstr_at dwl_url_url url named }
