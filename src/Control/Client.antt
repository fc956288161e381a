-- ===== src/Control/Client.antt =====
-- src/control.rs: `ControlClient` and its methods. A method takes the client's value; `reconnect`,
-- which changes it, is an action on the client and the world.
pub mod Laws
pub mod Spends
pub mod Received
pub mod Reconnect
pub mod Drop
use swupdate_rs.Common.{ℕ, Option, none, some, Bytes}
use swupdate_rs.Text.{Text, codes}
use swupdate_rs.Error.{
  protocol, Result, ok, err, IoResult, Action, continue, ◌>>=◌, ◌>>◌, pure, ok_or, io,
}
use swupdate_rs.Runtime.{Runtime}
use swupdate_rs.Socket.{SocketConfig, default, connect_ctrl}
use swupdate_rs.Wire.Message.{RawIpcMessage, msg_type, ipc_message_to_bytes, ipc_message_from_bytes}
use swupdate_rs.Wire.Layout.Slots.{ipc_message_size}
use swupdate_rs.Types.Source.{Source}
use swupdate_rs.Types.SubprocessCmd.{SubprocessCmd}
use swupdate_rs.Types.UpdateState.{UpdateState}
use swupdate_rs.Types.Request.{InstallRequest}
use swupdate_rs.Types.Responses.{UpdateStatus, HwRevision, SwupdateVar}
use swupdate_rs.Control.Messages.{
  get_status_message, get_update_state_message, set_update_state_message, post_update_message,
  set_aes_key_message, set_versions_range_message, get_hw_revision_message,
  set_swupdate_var_message, get_swupdate_var_message, subprocess_cmd_message, set_delta_url_message,
}
use swupdate_rs.Control.Replies.{expect_ack, update_status, update_state, hw_revision, swupdate_var}

pub record ControlClient (R : Runtime) : Type 0 where
  pub stream : R.Stream
  pub config : SocketConfig

module _ (R : Runtime) where
  open R use {World, write_all, read_exact, shutdown}

  unfoldable pub connect : SocketConfig → Action World (ControlClient R)
  connect config = do
    stream ← connect_ctrl R config
    pure (record { stream = stream; config = config })

  unfoldable pub connect_default : Action World (ControlClient R)
  unfolding connect
  connect_default w = connect (default R w) w

  -- The old stream stays in place if no new one is opened.
  reconnected :
      ControlClient R → Result R.Stream × World → Result (Unit {0}) × (ControlClient R × World)
  reconnected c (ok stream, w) = (ok tt, (record c { stream = stream }, w))
  reconnected c (err e, w) = (err e, (c, w))

  unfoldable pub reconnect : Action (ControlClient R × World) (Unit {0})
  unfolding reconnected
  reconnect (c, w) = reconnected c (connect_ctrl R c.config (shutdown c.stream w).1)

  unfoldable pub send_and_receive : ControlClient R → RawIpcMessage → Action World RawIpcMessage
  send_and_receive c msg = do
    io (write_all c.stream (ipc_message_to_bytes msg))
    buf ← io (read_exact c.stream ipc_message_size)
    ok_or (ipc_message_from_bytes buf) (protocol (codes "response size mismatch"))

  -- A result that was computed, as the end of an action.
  abbrev result {ℓ} : {A : Type ℓ} → Result A → Action World A
  result r w = (r, w)

  unfoldable pub send_and_expect_ack : ControlClient R → RawIpcMessage → Action World (Unit {0})
  send_and_expect_ack c msg = do resp ← send_and_receive c msg; result (expect_ack (msg_type resp))

  unfoldable pub get_status : ControlClient R → Action World UpdateStatus
  get_status c = do resp ← send_and_receive c get_status_message; result (update_status resp)

  unfoldable pub get_update_state : ControlClient R → Action World UpdateState
  get_update_state c = do
    resp ← send_and_receive c get_update_state_message
    result (update_state resp)

  unfoldable pub set_update_state : ControlClient R → UpdateState → Action World (Unit {0})
  set_update_state c state = send_and_expect_ack c (set_update_state_message state)

  unfoldable pub post_update : ControlClient R → Action World (Unit {0})
  post_update c = send_and_expect_ack c post_update_message

  unfoldable pub set_aes_key : ControlClient R → (key iv : Text) → Action World (Unit {0})
  set_aes_key c key iv = send_and_expect_ack c (set_aes_key_message key iv)

  unfoldable pub set_versions_range :
      ControlClient R → (minimum maximum current update_type : Text) → Action World (Unit {0})
  set_versions_range c minimum maximum current update_type =
      send_and_expect_ack c (set_versions_range_message minimum maximum current update_type)

  unfoldable pub get_hw_revision : ControlClient R → Action World HwRevision
  get_hw_revision c = do resp ← send_and_receive c get_hw_revision_message; pure (hw_revision resp)

  unfoldable pub set_swupdate_var :
      ControlClient R → (namespace name value : Text) → Action World (Unit {0})
  set_swupdate_var c namespace name value =
      send_and_expect_ack c (set_swupdate_var_message namespace name value)

  unfoldable pub get_swupdate_var :
      ControlClient R → (namespace name : Text) → Action World SwupdateVar
  get_swupdate_var c namespace name = do
    resp ← send_and_receive c (get_swupdate_var_message namespace name)
    pure (swupdate_var resp)

  unfoldable pub subprocess_cmd :
      ControlClient R → Source → SubprocessCmd → ℕ → Action World (Unit {0})
  subprocess_cmd c source cmd timeout =
      send_and_expect_ack c (subprocess_cmd_message source cmd timeout)

  unfoldable pub set_delta_url : ControlClient R → (filename url : Text) → Action World (Unit {0})
  set_delta_url c filename url = send_and_expect_ack c (set_delta_url_message filename url)
