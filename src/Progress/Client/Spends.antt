-- ===== src/Progress/Client/Spends.antt =====
-- src/progress.rs: the progress client over a runtime whose inputs end.
use swupdate_rs.Common.{refl}
use swupdate_rs.Common.{◌≡◌, ◌<◌, Bytes, ap, ℕ, ◌∙◌}
use swupdate_rs.Error.{ok, IoResult, done, fault, continue, pure, from_io}
use swupdate_rs.Runtime.{Runtime}
use swupdate_rs.Runtime.Finite.{Finite}
use swupdate_rs.Types.Event.{ProgressEvent, from_raw, from_raw_unpacked}
use swupdate_rs.Wire.Constants.{ProgressLayout, packed, unpacked, msg_size}
use swupdate_rs.Wire.ProgressMsg.{packed_from_bytes, unpacked_from_bytes}
use swupdate_rs.Progress.Client.{ProgressClient, receive, receive_in}

module _ (R : Runtime) (F : Finite R) where
  -- A receipt that succeeds leaves less to receive.
  pub receive_uses :
      (c : ProgressClient R) (event : ProgressEvent) (w w' : R.World)
      → receive R c w ≡ (ok event, w')
      → F.left.to_receive w' < F.left.to_receive w
  unfolding receive
  receive_uses c event w w' e = by_layout c.layout e
    where
      by_read :
          {A : Type 0} (n : ℕ) (parse : Bytes → A) (event_of : A → ProgressEvent)
          (r : IoResult Bytes × R.World)
          → R.read_exact c.stream n w ≡ r
          → continue
              (continue (from_io r.0, r.1) (λ bytes. pure (parse bytes)))
              (λ raw. pure (event_of raw))
            ≡ (ok event, w')
          → F.left.to_receive w' < F.left.to_receive w
      by_read n parse event_of (done bs, w1) q e =
          F.read_exact_uses c.stream n bs w w' (q ∙ ap (λ v. (done bs, v)) (ap (λ o. o.1) e))
      by_read n parse event_of (fault x, w1) q e = cc

      by_layout :
          (layout : ProgressLayout)
          → receive_in R layout c.stream w ≡ (ok event, w')
          → F.left.to_receive w' < F.left.to_receive w
      by_layout packed e =
          unfold receive_in in by_read (msg_size packed) packed_from_bytes from_raw _ refl e
      by_layout unpacked e =
          unfold receive_in in
          by_read (msg_size unpacked) unpacked_from_bytes from_raw_unpacked _ refl e
