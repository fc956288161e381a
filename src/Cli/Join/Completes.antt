-- ===== src/Cli/Join/Completes.antt =====
-- src/bin/swupdate-client.rs: a join over the runtime in memory in which nothing fails, under a
-- schedule that lets each task go on often enough.
use swupdate_rs.Cli.Join.Turns.{IsThere, Ready, Streams, stream_turn, Ready-Same}
use mathlib.Core.Path.{subst}
use swupdate_rs.Common.{
  ℕ, suc, ◌+◌, ◌*◌, ◌≡◌, ◌≤◌, refl, ap, some, Option, List, [], ◌∷◌, length, arith, All, IsByte,
}
use swupdate_rs.Text.{Text}
use swupdate_rs.Error.{Result, ok, err}
use swupdate_rs.Types.Event.{ProgressEvent}
use swupdate_rs.Runtime.Memory.{memory, World}
use swupdate_rs.Runtime.Memory.Untouched.{
  Same, untouched, memory_untouched, same_files, memory_same_files,
}
use swupdate_rs.Progress.Client.{ProgressClient, receive}
use swupdate_rs.Progress.Client.Preserves.{receive-Preserves}
use swupdate_rs.Cli.Output.{Line}
use swupdate_rs.Cli.Monitor.Events.{Watched, last, next}
use swupdate_rs.Cli.Monitor.Alone.{Watched-unique, Watched-some}
use swupdate_rs.Cli.Join.{
  Side, streaming, watching, StreamTask, WatchTask, opening, reading, writing, streamed, receiving,
  seen_last, join, Joined, resumed, step_stream, step_watch, event_arrived,
}
use swupdate_rs.Cli.Join.Returns.{streaming_turns, watching_turns}
use swupdate_rs.Cli.Join.Course.{Heard, Heard-Alike}
use swupdate_rs.Cli.Join.Alone.{Both, join-Both}

abbrev Success : Joined memory → Type 0
Success o = (w' : World) × (out' : List Line) × (o ≡ some (ok tt, (w', out')))

module _ (s : Text) (c : ProgressClient memory) where
  -- Behind a turn of the monitoring.
  abbrev Watches : ℕ → StreamTask Text → ℕ → Result WatchTask × (World × List Line) → Type 0
  Watches turns task others (ok watch, (w1, out)) =
      Ready s c task w1 others
      × ((events : List ProgressEvent) × (v : World) × Heard c watch events w1 v
          × (length events ≤ turns))
  Watches turns task others (err e, log) = ⊥

  event_turn :
      (turns : ℕ) (task : StreamTask Text) (others : ℕ) (w v : World) (out : List Line)
      (events : List ProgressEvent)
      → Ready s c task w others
      → Watched memory c events w v
      → length events ≤ suc turns
      → Same (receive memory c w).1 w
      → (receive memory c w).1.present ≡ w.present
      → Watches turns task others (event_arrived memory out (receive memory c w))
  unfolding event_arrived
  event_turn turns task others w v out [] h heard few same files = elim heard [ ]
  event_turn turns task others w v out (event ∷ []) h (last {w'} e over) few same files =
      let kept : Ready s c task w' others =
        Ready-Same s c others task w' w (subst (λ r. Same r.1 w) e same)
          (subst (λ r. r.1.present ≡ w.present) e files) h in
      rw e (rw over (kept, ([], w', (refl, refl), omega arith)))
  event_turn turns task others w v out (event ∷ events) h (next {w1} e going rest) few same files =
      let kept : Ready s c task w1 others =
        Ready-Same s c others task w1 w (subst (λ r. Same r.1 w) e same)
          (subst (λ r. r.1.present ≡ w.present) e files) h in
      rw e (rw going (kept, (events, v, rest, omega arith)))

  watch_turn :
      (turns : ℕ) (task : StreamTask Text) (others : ℕ) (watch : WatchTask) (w v : World)
      (out : List Line) (events : List ProgressEvent)
      → Ready s c task w others
      → Heard c watch events w v
      → length events ≤ suc turns
      → Watches turns task others (step_watch memory c watch (w, out))
  unfolding step_watch
  watch_turn turns task others receiving w v out events h heard few =
      event_turn turns task others w v out events h heard few
        (receive-Preserves memory untouched memory_untouched c w)
        (receive-Preserves memory same_files memory_same_files c w)
  watch_turn turns task others seen_last w v out events h (nothing, q) few = (
    h,
    (events, v, (nothing, q), omega (arith, ap (λ (l : List ProgressEvent). length l) nothing)),
  )

  after_stream :
      (turns : ℕ) (w : World) (r : Result (StreamTask Text) × (World × List Line))
      (more : StreamTask Text → World × List Line → Joined memory)
      → Streams s c turns w r
      → ((task : StreamTask Text) (w1 : World) (out : List Line)
          → Ready s c task w1 turns
          → w1.answers ≡ w.answers
          → Success (more task (w1, out)))
      → Success (resumed memory r more)
  after_stream turns w (ok task, (w1, out)) more (h, same) rest = rest task w1 out h same
  after_stream turns w (err e, log) more h rest = absurd h

  after_watch :
      (turns : ℕ) (task : StreamTask Text) (others : ℕ) (r : Result WatchTask × (World × List Line))
      (more : WatchTask → World × List Line → Joined memory)
      → Watches turns task others r
      → ((watch : WatchTask) (w1 v : World) (out : List Line) (events : List ProgressEvent)
          → Ready s c task w1 others
          → Heard c watch events w1 v
          → length events ≤ turns
          → Success (more watch (w1, out)))
      → Success (resumed memory r more)
  after_watch turns task others (ok watch, (w1, out)) more (h, (events, v, heard, few)) rest =
      rest watch w1 v out events h heard few
  after_watch turns task others (err e, log) more h rest = absurd h

  goes_on :
      (schedule : List Side) (task : StreamTask Text) (watch : WatchTask) (w v : World)
      (out : List Line) (events : List ProgressEvent)
      → Ready s c task w (streaming_turns schedule)
      → Heard c watch events w v
      → length events ≤ watching_turns schedule
      → Success (join memory s c schedule task watch (w, out))
  unfolding join
  goes_on schedule streamed seen_last w v out events h heard few = (w, out, refl)
  goes_on [] streamed receiving w v out events h heard few =
      absurd (omega (arith, Watched-some c heard))
  goes_on [] (opening file) watch w v out events h heard few = absurd (omega (arith, h.1))
  goes_on [] (reading reader n) watch w v out events h heard few = absurd (omega arith)
  goes_on [] (writing reader chunk n) watch w v out events h heard few = absurd (omega arith)
  goes_on (streaming ∷ schedule) task watch w v out events h heard few =
      after_stream (streaming_turns schedule) w (step_stream memory s task (w, out))
        (λ task1. join memory s c schedule task1 watch)
        (stream_turn s c (streaming_turns schedule) task w out h)
        (λ task1 w1 out1 h1 same.
          let (v1, heard1, q) = Heard-Alike c watch events w v w1 heard same in
          goes_on schedule task1 watch w1 v1 out1 events h1 heard1 few)
  goes_on (watching ∷ schedule) task watch w v out events h heard few =
      after_watch (watching_turns schedule) task (streaming_turns schedule)
        (step_watch memory c watch (w, out)) (λ watch1. join memory s c schedule task watch1)
        (watch_turn (watching_turns schedule) task (streaming_turns schedule) watch w v out events h
          heard few)
        (λ watch1 w1 v1 out1 events1 h1 heard1 few1.
          goes_on schedule task watch1 w1 v1 out1 events1 h1 heard1 few1)

-- Over the runtime in memory: where monitoring alone would receive some events up to a terminal
-- one and a file that is named is there, the join succeeds under every schedule that lets the
-- streaming go on twice for each byte to read, and twice more, and the monitoring once for each
-- event. All bytes are then sent and read, these events were received and no others, and the lines
-- are those of the events with the line of the streaming among them.
pub join-completes :
    (s : Text) (c : ProgressClient memory) (schedule : List Side) (file : Option Text)
    (events : List ProgressEvent) (w v : World) (out : List Line)
    → All IsByte w.input
    → IsThere file w
    → Watched memory c events w v
    → 2 * length w.input + 2 ≤ streaming_turns schedule
    → length events ≤ watching_turns schedule
    → (w' : World) × (out' : List Line) × (join memory s c schedule
          (opening file)
          receiving
          (w, out)
        ≡ some (ok tt, (w', out')))
      × (b : Both c w w' out out') × (b.events ≡ events)
join-completes s c schedule file events w v out image there heard turns few =
    let (w', out', e) =
      goes_on s c schedule (opening file) receiving w v out events (there, turns) heard few in
    let b = join-Both s c schedule file w w' out out' image e in
    (w', out', e, b, (Watched-unique c b.heard heard).0)
