-- ===== src/Control/Client/Laws.antt =====
-- src/control.rs: an exchange on the control socket, its errors and its outcome.
use swupdate_rs.Common.{
  ◌≡◌, refl, Bytes, slice, drop, from_ne_bytes, arith, replicate, [], ap, ◌∙◌, ◌↔◌, ℕ,
}
use swupdate_rs.Text.{codes, from_utf8_lossy}
use swupdate_rs.Error.{
  Error, connection, protocol, ok, err, IoError, IoResult, done, fault, continue, ok_or, from_io,
  io, rejected,
}
use swupdate_rs.Runtime.{Runtime, IsLawful}
use swupdate_rs.Wire.Message.{
  RawIpcMessage, ipc_message_to_bytes, ipc_message_from_bytes, read_int, read_cstr_at,
}
use swupdate_rs.Wire.Message.Serial.{from_bytes_sized}
use swupdate_rs.Wire.Layout.Slots.{ipc_message_size, msg_data_size}
use swupdate_rs.Wire.MsgType.{from_i32}
use swupdate_rs.Types.RecoveryStatus.{idle, from_wire}
use swupdate_rs.Control.Messages.{get_status_message}
use swupdate_rs.Control.Replies.{expect_ack, update_status}
use swupdate_rs.Wire.Message.{msg_type, read_int, read_cstr_at}
use swupdate_rs.Wire.Cstring.{cstr_from_bytes}
use swupdate_rs.Types.RecoveryStatus.{from_wire}
use swupdate_rs.Control.Client.{ControlClient, send_and_receive, send_and_expect_ack, get_status}

-- The message in a buffer of its size.
abbrev pub message_in : Bytes → RawIpcMessage
message_in buf = record {
  magic = from_ne_bytes (slice 0 4 buf);
  msg_type = from_ne_bytes (slice 4 4 buf);
  body = drop 8 buf;
}

module _ (R : Runtime) where
  -- The message was written, and the daemon answered with the bytes `buf`.
  pub record Exchange (c : ControlClient R) (msg : RawIpcMessage) (w : R.World) (buf : Bytes)
      (w' : R.World) : Type 0 where
    pub between : R.World
    pub written : R.write_all c.stream (ipc_message_to_bytes msg) w ≡ (done tt, between)
    pub answered : R.read_exact c.stream ipc_message_size between ≡ (done buf, w')

  send_and_receive-Exchange :
      IsLawful R
      → (c : ControlClient R) (msg : RawIpcMessage) (w w' : R.World) (buf : Bytes)
      → Exchange c msg w buf w'
      → send_and_receive R c msg w ≡ (ok (message_in buf), w')
  unfolding send_and_receive
  send_and_receive-Exchange L c msg w w' buf x =
      let sized = (L.read_exact_fills c.stream ipc_message_size x.between w' buf x.answered).0 in
      rw x.written (rw x.answered (rw (from_bytes_sized buf sized)))

  answer_error :
      IsLawful R
      → (c : ControlClient R) (w w' : R.World) (e : Error)
      → continue
          (io (R.read_exact c.stream ipc_message_size) w)
          (λ buf. ok_or (ipc_message_from_bytes buf) (protocol (codes "response size mismatch")))
        ≡ (err e, w')
      → (x : IoError) × (e ≡ connection x)
  answer_error L c w w' e h = go (R.read_exact c.stream ipc_message_size w) refl h
    where
      go :
          (r : IoResult Bytes × R.World)
          → R.read_exact c.stream ipc_message_size w ≡ r
          → continue
              (from_io r.0, r.1)
              (λ buf.
                ok_or (ipc_message_from_bytes buf) (protocol (codes "response size mismatch")))
            ≡ (err e, w')
          → (x : IoError) × (e ≡ connection x)
      go (fault x, w1) q h = (x, ground arith)
      go (done buf, w1) q h =
          let sized = (L.read_exact_fills c.stream ipc_message_size w w1 buf q).0 in
          cc (rw (from_bytes_sized buf sized) at h)

  -- With a lawful runtime an exchange that fails does so by an I/O error: the answer never has a
  -- wrong size.
  pub send_and_receive-error :
      IsLawful R
      → (c : ControlClient R) (msg : RawIpcMessage) (w w' : R.World) (e : Error)
      → send_and_receive R c msg w ≡ (err e, w')
      → (x : IoError) × (e ≡ connection x)
  unfolding send_and_receive
  send_and_receive-error L c msg w w' e h = go (R.write_all c.stream (ipc_message_to_bytes msg) w) h
    where
      go :
          (r : IoResult (Unit {0}) × R.World)
          → continue
              (from_io r.0, r.1)
              (λ _ s. continue (io (R.read_exact c.stream ipc_message_size) s) (λ buf.
                ok_or (ipc_message_from_bytes buf) (protocol (codes "response size mismatch"))))
            ≡ (err e, w')
          → (x : IoError) × (e ≡ connection x)
      go (fault x, w1) h = (x, ground arith)
      go (done u, w1) h = answer_error L c w1 w' e h

-- The answer to GET_STATUS is read in its body alone.
update_status-body :
    (resp : RawIpcMessage)
    → update_status resp ≡ update_status (record { magic = 0; msg_type = 0; body = resp.body })
unfolding update_status
update_status-body resp = refl

empty_answer :
    update_status (record { magic = 0; msg_type = 0; body = replicate msg_data_size 0 })
    ≡ ok (record { current = idle; last_result = idle; error = 0; description = [] })
unfolding update_status from_wire read_int read_cstr_at cstr_from_bytes slice from_ne_bytes
    from_utf8_lossy
empty_answer = refl

ack_only : (v : ℕ) → (expect_ack (from_i32 v) ≡ ok tt) ↔ (v ≡ 1)
unfolding expect_ack from_i32
ack_only v = ground arith

nack_only : (v : ℕ) → (expect_ack (from_i32 v) ≡ err rejected) ↔ (v ≡ 2)
unfolding expect_ack from_i32
nack_only v = ground arith

module _ (R : Runtime) (L : IsLawful R) (c : ControlClient R) (w w' : R.World) (buf : Bytes) where
  -- With a lawful runtime, where the message was written and the daemon answered: a command
  -- succeeds exactly if the type field of the answer is that of ACK, and is rejected exactly if it
  -- is that of NACK. The magic and the rest of the answer play no part.
  pub send_and_expect_ack-Exchange :
      (msg : RawIpcMessage)
      → Exchange R c msg w buf w'
      → let answer = from_ne_bytes (slice 4 4 buf) in
        let outcome = send_and_expect_ack R c msg w in
        ((outcome.0 ≡ ok tt) ↔ (answer ≡ 1))
        × ((outcome.0 ≡ err rejected) ↔ (answer ≡ 2))
        × (outcome.1 ≡ w')
  unfolding send_and_expect_ack msg_type
  send_and_expect_ack-Exchange msg x =
      rw (send_and_receive-Exchange R L c msg w w' buf x)
        (ack_only (from_ne_bytes (slice 4 4 buf)), nack_only (from_ne_bytes (slice 4 4 buf)), refl)

  get_status-Exchange :
      Exchange R c get_status_message w buf w'
      → get_status R c w ≡ (update_status (message_in buf), w')
  unfolding get_status
  get_status-Exchange x = rw (send_and_receive-Exchange R L c get_status_message w w' buf x)

  -- With a lawful runtime, where the daemon answered to GET_STATUS with a body of zeros:
  -- `get_status` reports an idle daemon with no error, whatever the type of the answer is, NACK
  -- included.
  pub get_status-empty :
      Exchange R c get_status_message w buf w'
      → drop 8 buf ≡ replicate msg_data_size 0
      → (get_status R c w).0
        ≡ ok (record { current = idle; last_result = idle; error = 0; description = [] })
  get_status-empty x empty =
      ap (λ r. r.0) (get_status-Exchange x)
      ∙ rw (update_status-body (message_in buf), empty) empty_answer
