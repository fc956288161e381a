-- ===== src/Progress/Client/Preserves.antt =====
-- src/progress.rs: the progress client, where its operations leave the world in an order with the world before.
use swupdate_rs.Common.{Option, none, some}
use swupdate_rs.Error.{Result, ok, err, io}
use swupdate_rs.Runtime.{Runtime}
use swupdate_rs.Runtime.Passive.{Order, Passive, Preserves, then-Preserves}
use swupdate_rs.Socket.{SocketConfig, connect_progress}
use swupdate_rs.Socket.Preserves.{connect_progress-Preserves}
use swupdate_rs.Wire.Constants.{ProgressLayout, packed, unpacked, msg_size}
use swupdate_rs.Wire.ProgressMsg.{RawProgressAck}
use swupdate_rs.Progress.Version.{detect_layout}
use swupdate_rs.Progress.Client.{
  ProgressClient, receive, receive_in, connect, handshake, acknowledged, read_ack, greet,
  handshake_timeout, read_raw_packed, read_raw_unpacked,
}

module _ (R : Runtime) (O : Order R) (K : Passive R O) where
  read_ack-Preserves : (s : R.Stream) → Preserves O (read_ack R s)
  unfolding read_ack
  read_ack-Preserves s =
      then-Preserves O (io (R.read_exact s 8)) _ (K.read_exact-Preserves s 8)
        (λ bytes w. O.below_refl w)

  acknowledged_keeps :
      (r : Option (Result RawProgressAck) × R.World) (w : R.World)
      → O.Below r.1 w
      → O.Below (acknowledged R r).1 w
  unfolding acknowledged
  acknowledged_keeps (some (ok ack), w1) w h = h
  acknowledged_keeps (some (err e), w1) w h = h
  acknowledged_keeps (none, w1) w h = h

  handshake-Preserves : (s : R.Stream) → Preserves O (handshake R s)
  unfolding handshake
  handshake-Preserves s w =
      acknowledged_keeps _ w (K.within-Preserves _ handshake_timeout _ (read_ack-Preserves s) w)

  pub connect-Preserves : (config : SocketConfig) → Preserves O (connect R config)
  unfolding connect greet detect_layout
  connect-Preserves config w =
      O.below_trans
        (then-Preserves O (connect_progress R config) _ (connect_progress-Preserves R O K config)
          (λ s. then-Preserves O (handshake R s) _ (handshake-Preserves s) (λ u w. O.below_refl w))
          (R.version_output w).1)
        (K.version_output-Preserves w)

  packed-Preserves : (s : R.Stream) → Preserves O (receive_in R packed s)
  unfolding receive_in
  packed-Preserves s =
      then-Preserves O (read_raw_packed R s) _
        (then-Preserves O (io (R.read_exact s (msg_size packed))) _
          (K.read_exact-Preserves s (msg_size packed)) (λ bytes w. O.below_refl w))
        (λ raw w. O.below_refl w)

  unpacked-Preserves : (s : R.Stream) → Preserves O (receive_in R unpacked s)
  unfolding receive_in
  unpacked-Preserves s =
      then-Preserves O (read_raw_unpacked R s) _
        (then-Preserves O (io (R.read_exact s (msg_size unpacked))) _
          (K.read_exact-Preserves s (msg_size unpacked)) (λ bytes w. O.below_refl w))
        (λ raw w. O.below_refl w)

  pub receive-Preserves : (c : ProgressClient R) → Preserves O (receive R c)
  unfolding receive
  receive-Preserves c = by_layout c.layout
    where
      by_layout : (layout : ProgressLayout) → Preserves O (receive_in R layout c.stream)
      by_layout packed = packed-Preserves c.stream
      by_layout unpacked = unpacked-Preserves c.stream
