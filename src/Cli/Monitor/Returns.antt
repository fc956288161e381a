-- ===== src/Cli/Monitor/Returns.antt =====
-- src/bin/swupdate-client.rs: the monitoring loop over a runtime whose messages end.
use swupdate_rs.Common.{ℕ, zero, suc, ◌≡◌, ◌<◌, refl, Bool, true, false, Option, List, arith}
use swupdate_rs.Error.{Result, ok, err}
use swupdate_rs.Runtime.{Runtime}
use swupdate_rs.Runtime.Finite.{Finite, NoMore}
use swupdate_rs.Types.Event.{ProgressEvent, is_terminal}
use swupdate_rs.Progress.Client.{ProgressClient, receive}
use swupdate_rs.Progress.Client.Spends.{receive_uses}
use swupdate_rs.Progress.Client.Preserves.{receive-Preserves}
use swupdate_rs.Runtime.Finite.{by_measure, passive}
use swupdate_rs.Cli.Output.{Line}
use swupdate_rs.Cli.Shell.Returns.{Ended, ends, ends_later}
use swupdate_rs.Cli.Monitor.{monitor, event_received, after_event}

module _ (R : Runtime) (F : Finite R) where
  received_ends :
      (c : ProgressClient R) (w : R.World) (out : List Line) (r : Result ProgressEvent × R.World)
      (more : R.World → List Line → Option (Result (Unit {0}) × (R.World × List Line)))
      → receive R c w ≡ r
      → NoMore F.left r.1 w
      → ((w1 : R.World) (out1 : List Line)
          → F.left.to_receive w1 < F.left.to_receive w
          → Ended F (more w1 out1) w1)
      → Ended F (event_received R r out more) w
  unfolding event_received
  received_ends c w out (err e, w1) more q h rest = ends F _ w h
  received_ends c w out (ok event, w1) more q h rest = by_event (is_terminal event)
    where
      by_event : (over : Bool) → Ended F (after_event R event over (more w1) w1 out) w
      by_event true = unfold after_event in ends F _ w h
      by_event false =
          unfold after_event in ends_later F h (rest w1 _ (receive_uses R F c event w w1 q))

  pub monitor_ends :
      (fuel : ℕ) (c : ProgressClient R) (w : R.World) (out : List Line)
      → F.left.to_receive w < fuel
      → Ended F (monitor R fuel c (w, out)) w
  unfolding monitor
  monitor_ends zero c w out h = absurd (omega arith)
  monitor_ends (suc fuel) c w out h =
      received_ends c w out (receive R c w) _ refl
        (receive-Preserves R (by_measure F.left) (passive F) c w)
        (λ w1 out1 less. monitor_ends fuel c w1 out1 (omega arith))
