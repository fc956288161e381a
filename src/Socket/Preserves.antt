-- ===== src/Socket/Preserves.antt =====
-- src/socket.rs: a connection that leaves the world in an order with the world before.
use swupdate_rs.Common.{Option, none, some, Bool-cases, inl, inr}
use swupdate_rs.Error.{IoResult, done, fault, Duration}
use swupdate_rs.Text.{Text}
use swupdate_rs.Runtime.{Runtime}
use swupdate_rs.Runtime.Passive.{Order, Passive, Preserves}
use swupdate_rs.Socket.{SocketConfig, connect_socket, connect_ctrl, connect_progress, connected}

module _ (R : Runtime) (O : Order R) (K : Passive R O) where
  connected_keeps :
      (t : Duration) (r : Option (IoResult R.Stream) × R.World) (w : R.World)
      → O.Below r.1 w
      → O.Below (connected R t r).1 w
  unfolding connected
  connected_keeps t (some (done s), w1) w h = h
  connected_keeps t (some (fault e), w1) w h = h
  connected_keeps t (none, w1) w h = h

  connect_socket-Preserves :
      (config : SocketConfig) (path : Text) → Preserves O (connect_socket R config path)
  unfolding connect_socket
  connect_socket-Preserves config path w = elim (Bool-cases (R.exists path w)) [
    | inl there ↦ rw there (
        connected_keeps config.connect_timeout _ w (
          K.within-Preserves _ config.connect_timeout (R.connect path) (K.connect-Preserves path)
            w))
    | inr absent ↦ rw absent (O.below_refl w)
  ]

  pub connect_ctrl-Preserves : (config : SocketConfig) → Preserves O (connect_ctrl R config)
  unfolding connect_ctrl
  connect_ctrl-Preserves config w = connect_socket-Preserves config config.ctrl_path w

  pub connect_progress-Preserves : (config : SocketConfig) → Preserves O (connect_progress R config)
  unfolding connect_progress
  connect_progress-Preserves config w = connect_socket-Preserves config config.progress_path w
