-- ===== src/Progress/Client/Answers.antt =====
-- src/progress.rs: over the runtime in memory, an event depends on the answers alone.
use swupdate_rs.Wire.ProgressMsg.{packed_from_bytes, unpacked_from_bytes}
use swupdate_rs.Types.Event.{from_raw, from_raw_unpacked}
use swupdate_rs.Text.{Text}
use swupdate_rs.Common.{◌≡◌, ap, Bytes}
use mathlib.Core.Path.{subst}
use swupdate_rs.Error.{
  ok, err, Result, continue, from_io, pure, IoResult, from_io, Result, continue, pure,
}
use swupdate_rs.Wire.Constants.{ProgressLayout, packed, unpacked, msg_size}
use swupdate_rs.Runtime.Memory.{memory, World, answer}
use swupdate_rs.Runtime.Memory.Answers.{Alike, answer-Alike}
use swupdate_rs.Progress.Client.{
  ProgressClient, receive, receive_in, read_raw_unpacked, read_raw_packed,
}

io-Alike : (r q : IoResult Bytes × World) → Alike r q → Alike (from_io r.0, r.1) (from_io q.0, q.1)
io-Alike r q h = (ap from_io h.0, h.1)

decoded-Alike :
    {A B : Type 0} (f : A → B) (r q : Result A × World)
    → Alike r q
    → Alike {A = Result B} (continue r (λ a. pure (f a))) (continue q (λ a. pure (f a)))
decoded-Alike f (ok a, w) (ok b, v) h = (cc (h.0), h.1)
decoded-Alike f (ok a, w) (err b, v) h = cc (h.0)
decoded-Alike f (err a, w) (ok b, v) h = cc (h.0)
decoded-Alike f (err a, w) (err b, v) h = (cc (h.0), h.1)

read_raw_packed-Alike :
    (s : Text) (w v : World)
    → w.answers ≡ v.answers
    → Alike (read_raw_packed memory s w) (read_raw_packed memory s v)
unfolding read_raw_packed
read_raw_packed-Alike s w v e =
    let r = answer (msg_size packed) w.answers w in
    let q = answer (msg_size packed) v.answers v in
    decoded-Alike packed_from_bytes (from_io r.0, r.1) (from_io q.0, q.1)
      (io-Alike r q (
        subst (λ answers. Alike r (answer (msg_size packed) answers v)) e
          (answer-Alike (msg_size packed) w.answers w v e)))

read_raw_unpacked-Alike :
    (s : Text) (w v : World)
    → w.answers ≡ v.answers
    → Alike (read_raw_unpacked memory s w) (read_raw_unpacked memory s v)
unfolding read_raw_unpacked
read_raw_unpacked-Alike s w v e =
    let r = answer (msg_size unpacked) w.answers w in
    let q = answer (msg_size unpacked) v.answers v in
    decoded-Alike unpacked_from_bytes (from_io r.0, r.1) (from_io q.0, q.1)
      (io-Alike r q (
        subst (λ answers. Alike r (answer (msg_size unpacked) answers v)) e
          (answer-Alike (msg_size unpacked) w.answers w v e)))

receive_in-Alike :
    (layout : ProgressLayout) (s : Text) (w v : World)
    → w.answers ≡ v.answers
    → Alike (receive_in memory layout s w) (receive_in memory layout s v)
unfolding receive_in
receive_in-Alike packed s w v e =
    decoded-Alike from_raw (read_raw_packed memory s w) (read_raw_packed memory s v)
      (read_raw_packed-Alike s w v e)
receive_in-Alike unpacked s w v e =
    decoded-Alike from_raw_unpacked (read_raw_unpacked memory s w) (read_raw_unpacked memory s v)
      (read_raw_unpacked-Alike s w v e)

pub receive-Alike :
    (c : ProgressClient memory) (w v : World)
    → w.answers ≡ v.answers
    → Alike (receive memory c w) (receive memory c v)
unfolding receive
receive-Alike c w v e = receive_in-Alike c.layout c.stream w v e
