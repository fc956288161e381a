-- ===== src/Control/Install/Session.antt =====
-- src/control.rs: an installation from the request to the last byte, over the runtime in memory.
use swupdate_rs.Control.Install.Delivery.{bytes_kept, stream-delivered}
use swupdate_rs.Control.Client.Laws.{Exchange, send_and_expect_ack-Exchange}
use swupdate_rs.Text.{Text}
use swupdate_rs.Control.Messages.{install_message}
use swupdate_rs.Wire.Message.{RawIpcMessage, ipc_message_to_bytes}
use swupdate_rs.Types.Request.{InstallRequest}
use swupdate_rs.Common.{
  ℕ, refl, ◌≡◌, ap, ==_iff, Bytes, List, length, ◌++◌, ◌∷◌, All, IsByte, from_ne_bytes, slice, ◌<◌,
  some, ◌%◌, ◌^◌, [],
}
use swupdate_rs.Error.{Result, ok, done}
use swupdate_rs.Runtime.Memory.{World, memory, memory-IsLawful, answer}
use swupdate_rs.Control.Client.{ControlClient, send_and_expect_ack}
use swupdate_rs.Runtime.{Runtime}
use swupdate_rs.Control.Install.{Installation, install, stream, stream_file, opened}

-- The daemon's next answer is `a`.
abbrev pub answered_by : Bytes → List Bytes → World → World
answered_by a rest w = record w { answers = a ∷ rest }

-- The world behind a message that was sent and its answer.
abbrev pub exchanged : Bytes → List Bytes → World → World
exchanged message rest w = record w { sent = w.sent ++ message; answers = rest }

answer_sized :
    (a : Bytes) (rest : List Bytes) (w : World)
    → length a ≡ 3120
    → All IsByte a
    → answer 3120 (a ∷ rest) w ≡ (done a, record w { answers = rest })
answer_sized a rest w h b =
    rw ((==_iff (length a) 3120).1 h)
      (ap (λ bytes. (done bytes, record w { answers = rest })) (bytes_kept a b))

exchange :
    (c : ControlClient memory) (msg : RawIpcMessage) (a : Bytes) (rest : List Bytes) (w : World)
    → length a ≡ 3120
    → All IsByte a
    → Exchange memory c msg (answered_by a rest w) a (exchanged (ipc_message_to_bytes msg) rest w)
exchange c msg a rest w h b = record {
  between = record (answered_by a rest w) { sent = w.sent ++ ipc_message_to_bytes msg };
  written = refl;
  answered =
      answer_sized a rest
        (record (answered_by a rest w) { sent = w.sent ++ ipc_message_to_bytes msg }) h b;
}

acknowledged :
    (c : ControlClient memory) (req : InstallRequest) (w w' : World) (r : Result (Unit {0}) × World)
    → send_and_expect_ack memory c (install_message req) w ≡ r
    → r.0 ≡ ok tt
    → r.1 ≡ w'
    → install memory c req w ≡ (ok (record { client = c }), w')
unfolding install
acknowledged c req w w' (x, w1) e p q = rw e (cc (p, q))

-- A file that can be opened is streamed.
pub stream_file-stream :
    (R : Runtime) (fuel : ℕ) (i : Installation R) (path : Text) (file : R.Reader) (w w' : R.World)
    → R.open_file path w ≡ (done file, w')
    → stream_file R fuel i path w ≡ stream R fuel i file w'
unfolding stream_file opened
stream_file-stream R fuel i path file w w' e = rw e refl

-- Over the runtime in memory, where the daemon answers REQ_INSTALL with bytes of a message's size
-- and the type ACK: `install` hands out the handle, and `stream` on it, given more fuel than there
-- are bytes to read, returns their number modulo 2 ^ 64. What was sent is the request's message
-- and, behind it, exactly the bytes that were read.
pub install-stream :
    (c : ControlClient memory) (req : InstallRequest) (a : Bytes) (rest : List Bytes)
    (reader : Text) (fuel : ℕ) (w : World)
    → length a ≡ 3120
    → All IsByte a
    → from_ne_bytes (slice 4 4 a) ≡ 1
    → All IsByte w.input
    → length w.input < fuel
    → let message = ipc_message_to_bytes (install_message req) in
      (install memory c req (answered_by a rest w)
        ≡ (ok (record { client = c }), exchanged message rest w))
      × (stream memory fuel (record { client = c }) reader (exchanged message rest w)
          ≡ some (
            ok (length w.input % 2 ^ 64),
            record w { sent = (w.sent ++ message) ++ w.input; answers = rest; input = [] },
          ))
install-stream c req a rest reader fuel w h b ack bytes enough =
    let message = ipc_message_to_bytes (install_message req) in
    let (succeeds, rejects, left) =
      send_and_expect_ack-Exchange memory memory-IsLawful c (answered_by a rest w)
        (exchanged message rest w) a (install_message req)
        (exchange c (install_message req) a rest w h b) in
    (
      acknowledged c req (answered_by a rest w) (exchanged message rest w) _ refl (succeeds.1 ack)
          left,
      stream-delivered (record { client = c }) reader fuel (exchanged message rest w) bytes enough,
    )
