-- ===== src/Progress/Client.antt =====
-- src/progress.rs: `ProgressClient`. A method that changes the client is an action on the client
-- and the world.
pub mod Handshake
pub mod Connect
pub mod Receive
pub mod Recover
pub mod Series
pub mod Encoded
pub mod Preserves
pub mod Spends
pub mod Drop
pub mod Answers
use swupdate_rs.Common.{
  ℕ, ◌%◌, ◌/◌, ◌^◌, Bool, true, false, not, ◌&&◌, Option, none, some, [], ◌∷◌, ◌++◌, Bytes, ◌==◌,
  if◌then◌else◌,
}
use swupdate_rs.Text.{codes}
use swupdate_rs.Text.Format.{debug_bytes}
use swupdate_rs.Error.{
  Duration, Error, connection, protocol, version_mismatch, timeout, Result, ok, err, Action,
  continue, ◌>>=◌, ◌>>◌, pure, io,
}
use swupdate_rs.Runtime.{Runtime}
use swupdate_rs.Socket.{SocketConfig, connect_progress}
use swupdate_rs.Wire.Constants.{
  ProgressLayout, packed, unpacked, msg_size, progress_api_version, progress_connect_ack_magic,
}
use swupdate_rs.Wire.ProgressMsg.{
  RawProgressMsg, RawProgressMsgUnpacked, RawProgressAck, ack_from_bytes, packed_from_bytes,
  unpacked_from_bytes,
}
use swupdate_rs.Types.Event.{ProgressEvent, from_raw, from_raw_unpacked}
use swupdate_rs.Progress.Version.{detect_layout}

pub record ProgressClient (R : Runtime) : Type 0 where
  pub stream : R.Stream
  pub config : SocketConfig
  pub layout : ProgressLayout

-- Equality of two byte arrays.
unfoldable pub bytes_eq : Bytes → Bytes → Bool
bytes_eq [] [] = true
bytes_eq [] (b ∷ bs) = false
bytes_eq (a ∷ as') [] = false
bytes_eq (a ∷ as') (b ∷ bs) = let rest = bytes_eq as' bs in a == b && rest

-- `(version >> 16) & 0xFFFF`
abbrev pub major : ℕ → ℕ
major version = version / 2 ^ 16 % 2 ^ 16

-- The checks of `handshake`, behind the receipt of the acknowledgement.
unfoldable pub check_ack : RawProgressAck → Result (Unit {0})
unfolding bytes_eq
check_ack ack =
    if not (bytes_eq ack.magic progress_connect_ack_magic)
    then err (protocol (codes "invalid ACK magic: " ++ debug_bytes ack.magic))
    else if not (major ack.apiversion == major progress_api_version)
    then err (version_mismatch progress_api_version ack.apiversion)
    else ok tt

-- `Duration::from_secs(5)`
abbrev pub handshake_timeout : Duration
handshake_timeout = 5_000

module _ (R : Runtime) where
  open R use {World, Stream, read_exact, shutdown, within}

  unfoldable pub read_ack : Stream → Action World RawProgressAck
  read_ack stream = do bytes ← io (read_exact stream 8); pure (ack_from_bytes bytes)

  acknowledged : Option (Result RawProgressAck) × World → Result (Unit {0}) × World
  unfolding check_ack
  acknowledged (some (ok ack), w) = (check_ack ack, w)
  acknowledged (some (err e), w) = (err e, w)
  acknowledged (none, w) = (err (timeout handshake_timeout), w)

  unfoldable pub handshake : Stream → Action World (Unit {0})
  unfolding acknowledged read_ack
  handshake stream w =
      acknowledged (within (Result RawProgressAck) handshake_timeout (read_ack stream) w)

  unfoldable pub read_raw_packed : Stream → Action World RawProgressMsg
  read_raw_packed stream = do
    bytes ← io (read_exact stream (msg_size packed))
    pure (packed_from_bytes bytes)

  unfoldable pub read_raw_unpacked : Stream → Action World RawProgressMsgUnpacked
  read_raw_unpacked stream = do
    bytes ← io (read_exact stream (msg_size unpacked))
    pure (unpacked_from_bytes bytes)

  receive_in : ProgressLayout → Stream → Action World ProgressEvent
  unfolding read_raw_packed read_raw_unpacked
  receive_in packed stream = do raw ← read_raw_packed stream; pure (from_raw raw)
  receive_in unpacked stream = do raw ← read_raw_unpacked stream; pure (from_raw_unpacked raw)

  unfoldable pub receive : ProgressClient R → Action World ProgressEvent
  unfolding receive_in
  receive c = receive_in c.layout c.stream

  -- The handshake on a new stream that the client holds already.
  greeted :
      ProgressClient R → Result (Unit {0}) × World → Result (Unit {0}) × (ProgressClient R × World)
  greeted c (r, w) = (r, (c, w))

  replaced :
      ProgressClient R → Result Stream × World → Result (Unit {0}) × (ProgressClient R × World)
  unfolding greeted handshake
  replaced c (ok stream, w) = greeted (record c { stream = stream }) (handshake stream w)
  replaced c (err e, w) = (err e, (c, w))

  unfoldable pub reconnect : Action (ProgressClient R × World) (Unit {0})
  unfolding replaced
  reconnect (c, w) = replaced c (connect_progress R c.config (shutdown c.stream w).1)

  -- `receive` as an action that keeps the client.
  received :
      ProgressClient R
      → Result ProgressEvent × World
      → Result ProgressEvent × (ProgressClient R × World)
  received c (r, w) = (r, (c, w))

  abbrev receive_again : Action (ProgressClient R × World) ProgressEvent
  receive_again (c, w) = received c (receive c w)

  first_received :
      ProgressClient R
      → Result ProgressEvent × World
      → Result ProgressEvent × (ProgressClient R × World)
  unfolding received reconnect
  first_received c (ok event, w) = (ok event, (c, w))
  first_received c (err (connection e), w) = continue (reconnect (c, w)) (λ _. receive_again)
  first_received c (err e, w) = (err e, (c, w))

  unfoldable pub receive_or_reconnect : Action (ProgressClient R × World) ProgressEvent
  unfolding first_received
  receive_or_reconnect (c, w) = first_received c (receive c w)

  greet : SocketConfig → ProgressLayout → Stream → Action World (ProgressClient R)
  unfolding handshake
  greet config layout stream = do
    handshake stream
    pure (record { stream = stream; config = config; layout = layout })

  unfoldable pub connect : SocketConfig → Action World (ProgressClient R)
  unfolding greet detect_layout
  connect config w =
      let (layout, w') = detect_layout R w in
      continue (connect_progress R config w') (greet config layout)
