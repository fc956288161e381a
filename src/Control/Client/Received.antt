-- ===== src/Control/Client/Received.antt =====
-- src/control.rs: what `send_and_receive` has done where it returns a message.
use swupdate_rs.Common.{refl, ◌≡◌, ap, ◌∙◌, Bytes, none, some, Option}
use swupdate_rs.Error.{ok, IoResult, done, fault, continue, from_io, io, ok_or, protocol}
use swupdate_rs.Text.{codes}
use swupdate_rs.Runtime.{Runtime, IsLawful}
use swupdate_rs.Wire.Layout.Slots.{ipc_message_size}
use swupdate_rs.Wire.Message.{
  RawIpcMessage, IsMessage, ipc_message_to_bytes, ipc_message_from_bytes,
}
use swupdate_rs.Wire.Message.Serial.{ipc_message_to_bytes-from_bytes}
use swupdate_rs.Control.Client.{ControlClient, send_and_receive}
use swupdate_rs.Control.Client.Laws.{Exchange}

module _ (R : Runtime) (L : IsLawful R) (c : ControlClient R) (msg : RawIpcMessage) (w w' : R.World)
    (m : RawIpcMessage) where
  -- The message was sent, and the bytes that came back are those of the well-formed message `m`.
  abbrev pub Answered : Type 0
  Answered = Exchange R c msg w (ipc_message_to_bytes m) w' × IsMessage m

  parsed :
      (between : R.World) (buf : Bytes) (o : Option RawIpcMessage) (w1 : R.World)
      → R.write_all c.stream (ipc_message_to_bytes msg) w ≡ (done tt, between)
      → R.read_exact c.stream ipc_message_size between ≡ (done buf, w1)
      → ipc_message_from_bytes buf ≡ o
      → ok_or o (protocol (codes "response size mismatch")) w1 ≡ (ok m, w')
      → Answered
  parsed between buf none w1 p q r e = cc
  parsed between buf (some m') w1 p q r e =
      let same : m' ≡ m = cc e in
      let end : w1 ≡ w' = cc e in
      let (bytes, formed) =
        ipc_message_to_bytes-from_bytes buf m
          (L.read_exact_fills c.stream ipc_message_size between w1 buf q).1
          (r ∙ ap (λ t. some t) same) in
      (record { between = between; written = p; answered = cc (q, end, bytes) }, formed)

  answered :
      (between : R.World) (r : IoResult Bytes × R.World)
      → R.write_all c.stream (ipc_message_to_bytes msg) w ≡ (done tt, between)
      → R.read_exact c.stream ipc_message_size between ≡ r
      → continue
          (from_io r.0, r.1)
          (λ buf. ok_or (ipc_message_from_bytes buf) (protocol (codes "response size mismatch")))
        ≡ (ok m, w')
      → Answered
  answered between (fault x, w1) p q e = cc
  answered between (done buf, w1) p q e =
      parsed between buf (ipc_message_from_bytes buf) w1 p q refl e

  sent :
      (r : IoResult (Unit {0}) × R.World)
      → R.write_all c.stream (ipc_message_to_bytes msg) w ≡ r
      → continue
          (from_io r.0, r.1)
          (λ _ s.
            continue (io (R.read_exact c.stream ipc_message_size) s) (λ buf.
              ok_or (ipc_message_from_bytes buf) (protocol (codes "response size mismatch"))))
        ≡ (ok m, w')
      → Answered
  sent (fault x, w1) p e = cc
  sent (done tt, w1) p e = answered w1 (R.read_exact c.stream ipc_message_size w1) p refl e

  -- With a lawful runtime, whenever `send_and_receive` returns a message: the bytes of the request
  -- were written whole, then the 3120 bytes of the message were read and nothing else, and the
  -- message is a value of its Rust type: two 32-bit integers and the bytes of the union.
  pub send_and_receive-Answered : send_and_receive R c msg w ≡ (ok m, w') → Answered
  unfolding send_and_receive
  send_and_receive-Answered e = sent (R.write_all c.stream (ipc_message_to_bytes msg) w) refl e
