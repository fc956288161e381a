-- ===== src/Cli/Join/Steps.antt =====
-- src/bin/swupdate-client.rs: the join as a transition system, in which either task may go on.
use swupdate_rs.Common.{
  ℕ, ◌+◌, ◌%◌, ◌^◌, ◌≡◌, refl, true, false, none, some, List, [], ◌∷◌, ◌++◌, Bytes, length,
  Bool-cases, inl, inr,
}
use swupdate_rs.Text.{Text}
use swupdate_rs.Error.{Result, ok, err, IoResult, done, fault}
use swupdate_rs.Runtime.{Runtime}
use swupdate_rs.Types.Event.{ProgressEvent, is_terminal}
use swupdate_rs.Control.Install.{chunk_size}
use swupdate_rs.Progress.Client.{ProgressClient, receive}
use swupdate_rs.Cli.Output.{Line, print_progress}
use swupdate_rs.Cli.Join.{
  StreamTask, WatchTask, opening, reading, writing, streamed, receiving, seen_last, step_stream,
  step_watch, streamed_line, file_opened, chunk_arrived, chunk_sent, event_arrived,
}
use swupdate_rs.Cli.Join.Invariant.{Kept, Invariant}

module _ (R : Runtime) where
  -- The two tasks, the world, and the lines printed so far.
  pub record State : Type 0 where
    pub task : StreamTask R.Reader
    pub watch : WatchTask
    pub world : R.World
    pub lines : List Line

  abbrev pub state : StreamTask R.Reader → WatchTask → R.World → List Line → State
  state task watch w out = record { task = task; watch = watch; world = w; lines = out }

  module _ (s : R.Stream) (c : ProgressClient R) where
    -- One task goes on from one of its awaits to the next.
    pub data Step : State → State → Type 0 where
      from_stdin :
          {watch : WatchTask} {w : R.World} {out : List Line}
          → Step (state (opening none) watch w out) (state (reading R.stdin 0) watch w out)
      from_file :
          {path : Text} {file : R.Reader} {watch : WatchTask} {w w1 : R.World} {out : List Line}
          → R.open_file path w ≡ (done file, w1)
          → Step (state (opening (some path)) watch w out) (state (reading file 0) watch w1 out)
      chunk_read :
          {reader : R.Reader} {total b : ℕ} {bs : Bytes} {watch : WatchTask} {w w1 : R.World}
          {out : List Line}
          → R.read reader chunk_size w ≡ (done (b ∷ bs), w1)
          → Step
              (state (reading reader total) watch w out)
              (state (writing reader (b ∷ bs) total) watch w1 out)
      input_over :
          {reader : R.Reader} {total : ℕ} {watch : WatchTask} {w w1 : R.World} {out : List Line}
          → R.read reader chunk_size w ≡ (done [], w1)
          → Step
              (state (reading reader total) watch w out)
              (state streamed watch w1 (out ++ (streamed_line total ∷ [])))
      chunk_written :
          {reader : R.Reader} {chunk : Bytes} {total : ℕ} {watch : WatchTask} {w w1 : R.World}
          {out : List Line}
          → R.write_all s chunk w ≡ (done tt, w1)
          → Step
              (state (writing reader chunk total) watch w out)
              (state (reading reader ((total + length chunk) % 2 ^ 64)) watch w1 out)
      event_seen :
          {event : ProgressEvent} {task : StreamTask R.Reader} {w w1 : R.World} {out : List Line}
          → receive R c w ≡ (ok event, w1)
          → is_terminal event ≡ false
          → Step
              (state task receiving w out)
              (state task receiving w1 (out ++ print_progress event))
      last_seen :
          {event : ProgressEvent} {task : StreamTask R.Reader} {w w1 : R.World} {out : List Line}
          → receive R c w ≡ (ok event, w1)
          → is_terminal event ≡ true
          → Step
              (state task receiving w out)
              (state task seen_last w1 (out ++ print_progress event))

    pub data Reach (a : State) : State → Type 0 where
      here : Reach a a
      later : {b d : State} → Reach a b → Step b d → Reach a d

    module _ (a : State) where
      abbrev At : StreamTask R.Reader → WatchTask → R.World → List Line → Type 0
      At task watch w out = Reach a (state task watch w out)

      file_step :
          (watch : WatchTask) (path : Text) (w : R.World) (out : List Line)
          (r : IoResult R.Reader × R.World)
          → R.open_file path w ≡ r
          → At (opening (some path)) watch w out
          → Kept R s c (λ task. At task watch) (file_opened R path out r)
      unfolding file_opened
      file_step watch path w out (done file, w1) e h = later h (from_file e)
      file_step watch path w out (fault x, w1) e h = tt

      read_step :
          (watch : WatchTask) (reader : R.Reader) (total : ℕ) (w : R.World) (out : List Line)
          (r : IoResult Bytes × R.World)
          → R.read reader chunk_size w ≡ r
          → At (reading reader total) watch w out
          → Kept R s c (λ task. At task watch) (chunk_arrived R reader total out r)
      unfolding chunk_arrived
      read_step watch reader total w out (done [], w1) e h = later h (input_over e)
      read_step watch reader total w out (done (b ∷ bs), w1) e h = later h (chunk_read e)
      read_step watch reader total w out (fault x, w1) e h = tt

      write_step :
          (watch : WatchTask) (reader : R.Reader) (chunk : Bytes) (total : ℕ) (w : R.World)
          (out : List Line) (r : IoResult (Unit {0}) × R.World)
          → R.write_all s chunk w ≡ r
          → At (writing reader chunk total) watch w out
          → Kept R s c
              (λ task. At task watch)
              (chunk_sent R reader ((total + length chunk) % 2 ^ 64) out r)
      unfolding chunk_sent
      write_step watch reader chunk total w out (done tt, w1) e h = later h (chunk_written e)
      write_step watch reader chunk total w out (fault x, w1) e h = tt

      stream_step :
          (task : StreamTask R.Reader) (watch : WatchTask) (w : R.World) (out : List Line)
          → At task watch w out
          → Kept R s c (λ task'. At task' watch) (step_stream R s task (w, out))
      unfolding step_stream
      stream_step (opening none) watch w out h = later h from_stdin
      stream_step (opening (some path)) watch w out h = file_step watch path w out _ refl h
      stream_step (reading reader total) watch w out h = read_step watch reader total w out _ refl h
      stream_step (writing reader chunk total) watch w out h =
          write_step watch reader chunk total w out _ refl h
      stream_step streamed watch w out h = h

      event_step :
          (task : StreamTask R.Reader) (w : R.World) (out : List Line)
          (r : Result ProgressEvent × R.World)
          → receive R c w ≡ r
          → At task receiving w out
          → Kept R s c (At task) (event_arrived R out r)
      unfolding event_arrived
      event_step task w out (err x, w1) e h = tt
      event_step task w out (ok event, w1) e h = elim (Bool-cases (is_terminal event)) [
        | inl over ↦ rw over (later h (last_seen e over))
        | inr going ↦ rw going (later h (event_seen e going))
      ]

      watch_step :
          (task : StreamTask R.Reader) (watch : WatchTask) (w : R.World) (out : List Line)
          → At task watch w out
          → Kept R s c (At task) (step_watch R c watch (w, out))
      unfolding step_watch
      watch_step task receiving w out h = event_step task w out _ refl h
      watch_step task seen_last w out h = h

      pub reached : Invariant R s c At
      reached = record { stream_keeps = stream_step; watch_keeps = watch_step }
