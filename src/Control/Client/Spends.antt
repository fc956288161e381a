-- ===== src/Control/Client/Spends.antt =====
-- src/control.rs: connections and exchanges over a runtime whose inputs end.
use swupdate_rs.Runtime.{Runtime}
use swupdate_rs.Runtime.Finite.{Finite, Spends, NoMore-refl, by_measure, passive}
use swupdate_rs.Runtime.Passive.{then-Preserves, ok_or-Preserves}
use swupdate_rs.Socket.{SocketConfig, connect_ctrl}
use swupdate_rs.Error.{io}
use swupdate_rs.Socket.Preserves.{connect_ctrl-Preserves}
use swupdate_rs.Wire.Message.{RawIpcMessage, ipc_message_to_bytes, ipc_message_from_bytes}
use swupdate_rs.Wire.Layout.Slots.{ipc_message_size}
use swupdate_rs.Control.Client.{
  ControlClient, connect, send_and_receive, send_and_expect_ack, ControlClient,
}

module _ (R : Runtime) (F : Finite R) where
  pub connect-Spends : (config : SocketConfig) → Spends F.left (connect R config)
  unfolding connect
  connect-Spends config =
      then-Preserves (by_measure F.left) (connect_ctrl R config) _
        (connect_ctrl-Preserves R (by_measure F.left) (passive F) config)
        (λ s w. NoMore-refl F.left w)

  pub send_and_receive-Spends :
      (c : ControlClient R) (msg : RawIpcMessage) → Spends F.left (send_and_receive R c msg)
  unfolding send_and_receive
  send_and_receive-Spends c msg =
      then-Preserves (by_measure F.left) (io (R.write_all c.stream (ipc_message_to_bytes msg))) _
        (F.write_all-Spends c.stream (ipc_message_to_bytes msg))
        (λ u.
          then-Preserves (by_measure F.left) (io (R.read_exact c.stream ipc_message_size)) _
            (F.read_exact-Spends c.stream ipc_message_size)
            (λ buf. ok_or-Preserves (by_measure F.left) (ipc_message_from_bytes buf) _))

  pub send_and_expect_ack-Spends :
      (c : ControlClient R) (msg : RawIpcMessage) → Spends F.left (send_and_expect_ack R c msg)
  unfolding send_and_expect_ack
  send_and_expect_ack-Spends c msg =
      then-Preserves (by_measure F.left) (send_and_receive R c msg) _
        (send_and_receive-Spends c msg) (λ resp w. NoMore-refl F.left w)
