-- ===== src/Cli/Monitor/Lost.antt =====
-- src/bin/swupdate-client.rs: the monitoring loop on a connection that is lost.
use swupdate_rs.Common.{
  ℕ, zero, suc, ◌<◌, ◌≡◌, ap, ◌∙◌, sym, some, List, [], ◌∷◌, ◌++◌, map, length, arith, append-nil,
  append_assoc,
}
use swupdate_rs.Error.{err, connection, IoError, fault}
use swupdate_rs.Runtime.{Runtime}
use swupdate_rs.Types.Event.{ProgressEvent, from_raw}
use swupdate_rs.Types.Event.Laws.{EndsUpdate}
use swupdate_rs.Wire.Constants.{msg_size}
use swupdate_rs.Wire.ProgressMsg.{RawProgressMsg}
use swupdate_rs.Progress.Client.{ProgressClient}
use swupdate_rs.Progress.Client.Receive.{receive_fault}
use swupdate_rs.Cli.Output.{Line, print_progress}
use swupdate_rs.Cli.Monitor.{monitor}
use swupdate_rs.Cli.Monitor.Events.{Broken, failed, behind, printed, next_round, failed_round}
use swupdate_rs.Cli.Monitor.Reports.{Arrives, received, goes_on}

module _ (R : Runtime) (c : ProgressClient R) (x : IoError) where
  -- Messages arrive one after the other, none of which ends the update, and then a read fails.
  pub data Lost : List RawProgressMsg → R.World → R.World → Type 0 where
    broken :
        {w w' : R.World}
        → R.read_exact c.stream (msg_size c.layout) w ≡ (fault x, w')
        → Lost [] w w'
    report :
        {m : RawProgressMsg} {ms : List RawProgressMsg} {w w1 w' : R.World}
        → Arrives R c m w w1
        → ¬ EndsUpdate m.status
        → Lost ms w1 w'
        → Lost (m ∷ ms) w w'

  pub Lost-Broken :
      (ms : List RawProgressMsg) {w w' : R.World}
      → Lost ms w w'
      → Broken R c x (map from_raw ms) w w'
  Lost-Broken [] (broken e) = failed (receive_fault R c x _ _ e)
  Lost-Broken (m ∷ ms) (report a h rest) =
      behind (received R c m _ _ a) (goes_on R c m h) (Lost-Broken ms rest)

  -- With more fuel than events, the loop ends in the error and has printed their lines in order.
  pub monitor-Broken :
      (events : List ProgressEvent) (fuel : ℕ) (out : List Line) {w w' : R.World}
      → Broken R c x events w w'
      → length events < fuel
      → monitor R fuel c (w, out) ≡ some (err (connection x), (w', out ++ printed events))
  monitor-Broken events zero out t h = absurd (omega arith)
  monitor-Broken [] (suc fuel) out {w'} (failed e) h =
      failed_round R c fuel _ out e
      ∙ ap (λ lines. some (err (connection x), (w', lines))) (sym (append-nil out))
  monitor-Broken (event ∷ events) (suc fuel) out {w'} (behind e t rest) h =
      next_round R c fuel _ out e t
      ∙ monitor-Broken events fuel (out ++ print_progress event) rest (omega arith)
      ∙ ap (λ lines. some (err (connection x), (w', lines)))
          (append_assoc out (print_progress event) (printed events))
