-- ===== src/Cli/Join/Alone.antt =====
-- src/bin/swupdate-client.rs: a join over the runtime in memory, against its two tasks alone.
use swupdate_rs.Cli.Join.Backwards.{On, back_to_start}
use swupdate_rs.Common.{
  ◌%◌, ◌^◌, ◌≡◌, refl, sym, some, List, [], ◌++◌, length, Option, All, IsByte, append-nil,
}
use swupdate_rs.Text.{Text}
use swupdate_rs.Error.{ok}
use swupdate_rs.Types.Event.{ProgressEvent}
use swupdate_rs.Runtime.Memory.{memory, World}
use swupdate_rs.Progress.Client.{ProgressClient}
use swupdate_rs.Cli.Output.{Line}
use swupdate_rs.Cli.Monitor.Events.{Watched, printed}
use swupdate_rs.Cli.Join.{opening, receiving, streamed_line, Side, join}
use swupdate_rs.Cli.Join.Course.{Course, Inserted}
use swupdate_rs.Cli.Join.Delivered.{join-delivered}
use swupdate_rs.Cli.Join.Invariant.{join_keeps}

-- The streaming did what it does alone, the monitoring did what it does alone, and the one line of
-- the streaming stands somewhere among those of the monitoring.
pub record Both (c : ProgressClient memory) (w w' : World) (out out' : List Line) : Type 0 where
  pub all_sent : w'.sent ≡ w.sent ++ w.input
  pub all_read : w'.input ≡ []
  pub events : List ProgressEvent
  pub behind : World
  pub heard : Watched memory c events w behind
  pub answers_left : w'.answers ≡ behind.answers
  pub lines : List Line
  pub told : Inserted (streamed_line (length w.input % 2 ^ 64)) (printed events) lines
  pub all_lines : out' ≡ out ++ lines

-- Over the runtime in memory, whatever bytes there are to read and in whatever order the two tasks
-- go on: if they are joined with success, the streaming has sent exactly these bytes, in order
-- behind what was sent before, and left none to read. The monitoring has received exactly the
-- events that it receives from the same start when nothing else goes on, up to the first terminal
-- one, and left the same answers. The lines are those of these events in order, with the one line
-- that tells the number of bytes modulo 2 ^ 64 somewhere among them.
pub join-Both :
    (s : Text) (c : ProgressClient memory) (schedule : List Side) (file : Option Text)
    (w w' : World) (out out' : List Line)
    → All IsByte w.input
    → join memory s c schedule (opening file) receiving (w, out) ≡ some (ok tt, (w', out'))
    → Both c w w' out out'
join-Both s c schedule file w w' out out' b e =
    let total = length w.input in
    let (sent, input, line) = join-delivered s c schedule file w w' out out' b e in
    let ended =
      join_keeps memory s c
        (On s c total (λ w1 out1. Course s c total (opening file) receiving w w1 out out1))
        (back_to_start s c total _) schedule (opening file) receiving w w' out out'
        (refl, λ w1 out1 k. k) e in
    let k = ended.1 w' out' (record {
      events = [];
      lines = [];
      behind = w';
      heard = (refl, refl);
      answers_left = refl;
      told = refl;
      all_lines = sym (append-nil out');
    }) in
    record {
      all_sent = sent;
      all_read = input;
      events = k.events;
      behind = k.behind;
      heard = k.heard;
      answers_left = k.answers_left;
      lines = k.lines;
      told = k.told;
      all_lines = k.all_lines;
    }
