-- ===== src/Control/Calls/Spends.antt =====
-- src/control.rs: the methods of the control client over a runtime whose inputs end.
use swupdate_rs.Error.{pure, Action, ◌>>=◌, Result, ok}
use swupdate_rs.Runtime.{Runtime}
use swupdate_rs.Runtime.Finite.{Finite, Spends, NoMore-refl, by_measure}
use swupdate_rs.Runtime.Passive.{then-Preserves}
use swupdate_rs.Wire.Message.{RawIpcMessage}
use swupdate_rs.Control.Messages.Formed.{Call}
use swupdate_rs.Control.Client.{ControlClient, send_and_receive, send_and_expect_ack}
use swupdate_rs.Control.Client.Spends.{send_and_receive-Spends, send_and_expect_ack-Spends}
use swupdate_rs.Control.Calls.{Answer, perform, acknowledged, status, state, revision, var}
use swupdate_rs.Control.Install.{install}
use swupdate_rs.Control.Replies.{update_status, update_state, hw_revision, swupdate_var}
use swupdate_rs.Types.Request.{InstallRequest}
use swupdate_rs.Control.Messages.{install_message}

module _ (R : Runtime) (F : Finite R) (c : ControlClient R) where
  -- The answer is made into a value.
  then_pure :
      {A B : Type 0} (m : Action R.World A) (f : A → B)
      → Spends F.left m
      → Spends F.left (m >>= λ a. pure (f a))
  then_pure m f h = then-Preserves (by_measure F.left) m _ h (λ a w. NoMore-refl F.left w)

  acked :
      (msg : RawIpcMessage) → Spends F.left (send_and_expect_ack R c msg >>= λ u. pure acknowledged)
  acked msg = then_pure (send_and_expect_ack R c msg) _ (send_and_expect_ack-Spends R F c msg)

  answered :
      {A : Type 0} (read : RawIpcMessage → Result A) (f : A → Answer) (msg : RawIpcMessage)
      → Spends F.left ((send_and_receive R c msg >>= λ resp w. (read resp, w)) >>= λ a. pure (f a))
  answered read f msg = then_pure (send_and_receive R c msg >>= λ resp w. (read resp, w)) f (
      then-Preserves (by_measure F.left) (send_and_receive R c msg) _
        (send_and_receive-Spends R F c msg) (λ resp w. NoMore-refl F.left w))

  pub install-Spends : (req : InstallRequest) → Spends F.left (install R c req)
  unfolding install
  install-Spends req =
      then_pure (send_and_expect_ack R c (install_message req)) _
        (send_and_expect_ack-Spends R F c (install_message req))

  pub perform-Spends : (call : Call) → Spends F.left (perform R c call)
  unfolding perform
  perform-Spends (Call.install req) = then_pure (install R c req) _ (install-Spends req)
  perform-Spends Call.get_status = answered update_status status _
  perform-Spends Call.get_update_state = answered update_state state _
  perform-Spends Call.post_update = acked _
  perform-Spends Call.get_hw_revision = answered (λ m. ok (hw_revision m)) revision _
  perform-Spends (Call.set_update_state s) = acked _
  perform-Spends (Call.set_aes_key key iv) = acked _
  perform-Spends (Call.set_versions_range minimum maximum current update_type) = acked _
  perform-Spends (Call.set_swupdate_var namespace name value) = acked _
  perform-Spends (Call.get_swupdate_var namespace name) = answered (λ m. ok (swupdate_var m)) var _
  perform-Spends (Call.subprocess_cmd source cmd timeout) = acked _
  perform-Spends (Call.set_delta_url filename url) = acked _
