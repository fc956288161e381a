-- ===== src/Cli/Join/Reports.antt =====
-- src/bin/swupdate-client.rs: what a join of the streaming and the monitoring has printed.
use swupdate_rs.Cli.Join.Invariant.{Kept, Invariant, join_keeps}
use swupdate_rs.Control.Install.{chunk_size}
use swupdate_rs.Cli.Join.{opening, reading, writing, streamed, receiving, seen_last, join, Side}
use swupdate_rs.Error.{done, fault}
use swupdate_rs.Text.{Text}
use swupdate_rs.Cli.Output.{Line, print_progress}
use swupdate_rs.Runtime.{Runtime}
use swupdate_rs.Types.Event.{is_terminal, ProgressEvent}
use swupdate_rs.Common.{
  none, some, [], ℕ, refl, inl, inr, ◌≡◌, List, ◌∷◌, true, [], Bool-cases, Bytes, ◌+◌, length, ◌%◌,
  ◌^◌, Option,
}
use swupdate_rs.Error.{Result, ok, err, IoResult}
use swupdate_rs.Progress.Client.{ProgressClient, receive}
use swupdate_rs.Cli.Join.{
  WatchTask, StreamTask, step_stream, step_watch, streamed_line, file_opened, chunk_sent,
  chunk_arrived, event_arrived,
}
use swupdate_rs.Cli.Join.Told.{
  Has, Has-append_right, Told, Seen, Told-append, Seen-append, terminal_line,
}

module _ (R : Runtime) (s : R.Stream) (c : ProgressClient R) where
  -- A task that is over has told what it has to tell.
  abbrev AllTold : StreamTask R.Reader → WatchTask → R.World → List Line → Type 0
  AllTold task watch w out = Told task out × Seen watch out

  -- It holds behind a step of the streaming, or of the monitoring, or the step failed.
  abbrev StreamKept : WatchTask → Result (StreamTask R.Reader) × (R.World × List Line) → Type 0
  StreamKept watch = Kept R s c (λ task. AllTold task watch)

  abbrev WatchKept : StreamTask R.Reader → Result WatchTask × (R.World × List Line) → Type 0
  WatchKept task = Kept R s c (AllTold task)

  file_opened-StreamKept :
      (watch : WatchTask) (path : Text) (out : List Line) (r : IoResult R.Reader × R.World)
      → Seen watch out
      → StreamKept watch (file_opened R path out r)
  unfolding file_opened
  file_opened-StreamKept watch path out (done file, w) h = (tt, h)
  file_opened-StreamKept watch path out (fault e, w) h = tt

  chunk_arrived-StreamKept :
      (watch : WatchTask) (reader : R.Reader) (total : ℕ) (out : List Line)
      (r : IoResult Bytes × R.World)
      → Seen watch out
      → StreamKept watch (chunk_arrived R reader total out r)
  unfolding chunk_arrived
  chunk_arrived-StreamKept watch reader total out (done [], w) h = (
    (total, Has-append_right (streamed_line total) out (streamed_line total ∷ []) (inl refl)),
    Seen-append watch out (streamed_line total ∷ []) h,
  )
  chunk_arrived-StreamKept watch reader total out (done (b ∷ bs), w) h = (tt, h)
  chunk_arrived-StreamKept watch reader total out (fault e, w) h = tt

  chunk_sent-StreamKept :
      (watch : WatchTask) (reader : R.Reader) (total : ℕ) (out : List Line)
      (r : IoResult (Unit {0}) × R.World)
      → Seen watch out
      → StreamKept watch (chunk_sent R reader total out r)
  unfolding chunk_sent
  chunk_sent-StreamKept watch reader total out (done u, w) h = (tt, h)
  chunk_sent-StreamKept watch reader total out (fault e, w) h = tt

  step_stream-StreamKept :
      (task : StreamTask R.Reader) (watch : WatchTask) (w : R.World) (out : List Line)
      → Told task out
      → Seen watch out
      → StreamKept watch (step_stream R s task (w, out))
  unfolding step_stream
  step_stream-StreamKept (opening none) watch w out t h = (tt, h)
  step_stream-StreamKept (opening (some path)) watch w out t h =
      file_opened-StreamKept watch path out (R.open_file path w) h
  step_stream-StreamKept (reading reader total) watch w out t h =
      chunk_arrived-StreamKept watch reader total out (R.read reader chunk_size w) h
  step_stream-StreamKept (writing reader chunk total) watch w out t h =
      chunk_sent-StreamKept watch reader ((total + length chunk) % 2 ^ 64) out
        (R.write_all s chunk w) h
  step_stream-StreamKept streamed watch w out t h = (t, h)

  event_arrived-WatchKept :
      (task : StreamTask R.Reader) (out : List Line) (r : Result ProgressEvent × R.World)
      → Told task out
      → WatchKept task (event_arrived R out r)
  unfolding event_arrived
  event_arrived-WatchKept task out (err e, w) t = tt
  event_arrived-WatchKept task out (ok event, w) t = elim (Bool-cases (is_terminal event)) [
    | inl over ↦
        let (line, p) = terminal_line event over in
        rw over (
          Told-append task out (print_progress event) t,
          (event, line, over, p, rw p (Has-append_right line out (line ∷ []) (inl refl))),
        )
    | inr going ↦ rw going (Told-append task out (print_progress event) t, tt)
  ]

  step_watch-WatchKept :
      (task : StreamTask R.Reader) (watch : WatchTask) (w : R.World) (out : List Line)
      → Told task out
      → Seen watch out
      → WatchKept task (step_watch R c watch (w, out))
  unfolding step_watch
  step_watch-WatchKept task receiving w out t h = event_arrived-WatchKept task out (receive R c w) t
  step_watch-WatchKept task seen_last w out t h = (t, h)

  told : Invariant R s c AllTold
  told = record {
    stream_keeps = λ task watch w out h. step_stream-StreamKept task watch w out h.0 h.1;
    watch_keeps = λ task watch w out h. step_watch-WatchKept task watch w out h.0 h.1;
  }

-- In whatever order the two tasks of `try_join!` go on: if they are joined with success, the lines
-- report how many bytes were streamed, and one of them is that of a terminal event.
pub join-Reported :
    (R : Runtime) (s : R.Stream) (c : ProgressClient R) (schedule : List Side) (file : Option Text)
    (w w' : R.World) (out out' : List Line)
    → join R s c schedule (opening file) receiving (w, out) ≡ some (ok tt, (w', out'))
    → ((n : ℕ) × Has (streamed_line n) out')
      × ((event : ProgressEvent) × (line : Line) × (is_terminal event ≡ true)
          × (print_progress event ≡ line ∷ [])
          × Has line out')
join-Reported R s c schedule file w w' out out' e =
    join_keeps R s c (AllTold R s c) (told R s c) schedule (opening file) receiving w w' out out'
      (tt, tt) e
