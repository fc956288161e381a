-- ===== src/Cli/Join/Failures.antt =====
-- src/bin/swupdate-client.rs: the errors in which a join ends.
use mathlib.Core.Path.{subst}
use swupdate_rs.Common.{ℕ, ◌≡◌, ◌↔◌, ◌∙◌, refl, Option, none, some, List, [], ◌∷◌, ◌++◌, Bytes, sym}
use swupdate_rs.Text.{Text, codes}
use swupdate_rs.Error.{Error, connection, protocol, Result, ok, err, IoError, IoResult, done, fault}
use swupdate_rs.Runtime.{Runtime}
use swupdate_rs.Types.Event.{ProgressEvent}
use swupdate_rs.Control.Install.{chunk_size}
use swupdate_rs.Progress.Client.{ProgressClient, receive}
use swupdate_rs.Progress.Client.Receive.{receive-error}
use swupdate_rs.Cli.Output.{Line}
use swupdate_rs.Cli.Join.{
  Side, streaming, watching, StreamTask, WatchTask, opening, reading, writing, streamed, receiving,
  seen_last, join, Joined, resumed, step_stream, step_watch, file_opened, chunk_arrived, chunk_sent,
  event_arrived,
}
use swupdate_rs.Cli.Join.Invariant.{Kept}
use swupdate_rs.Cli.Join.Steps.{
  State, state, Step, from_stdin, from_file, chunk_read, input_over, chunk_written, event_seen,
  last_seen, Reach, here, later, reached,
}
use swupdate_rs.Cli.Join.Reachable.{run, watching_turn, schedule_of}

module _ (R : Runtime) (s : R.Stream) (c : ProgressClient R) (file : Option Text) where
  -- The next operation of one of the tasks fails in this state: with which error, and with which
  -- world and lines behind it.
  pub data Fails : State R → Error → R.World × List Line → Type 0 where
    not_opened :
        {path : Text} {watch : WatchTask} {w w1 : R.World} {out : List Line} {x : IoError}
        → file ≡ some path
        → R.open_file path w ≡ (fault x, w1)
        → Fails
            (state R (opening (some path)) watch w out)
            (protocol (codes "failed to open " ++ path ++ codes ": " ++ x))
            (w1, out)
    not_read :
        {reader : R.Reader} {total : ℕ} {watch : WatchTask} {w w1 : R.World} {out : List Line}
        {x : IoError}
        → R.read reader chunk_size w ≡ (fault x, w1)
        → Fails (state R (reading reader total) watch w out) (connection x) (w1, out)
    not_written :
        {reader : R.Reader} {chunk : Bytes} {total : ℕ} {watch : WatchTask} {w w1 : R.World}
        {out : List Line} {x : IoError}
        → R.write_all s chunk w ≡ (fault x, w1)
        → Fails (state R (writing reader chunk total) watch w out) (connection x) (w1, out)
    not_received :
        {task : StreamTask R.Reader} {w w1 : R.World} {out : List Line} {e : Error} {x : IoError}
        → receive R c w ≡ (err e, w1)
        → e ≡ connection x
        → Fails (state R task receiving w out) e (w1, out)

  -- The file that is still to be opened is the one that was named.
  abbrev Named : StreamTask R.Reader → Type 0
  Named (opening f) = f ≡ file
  Named _ = Unit {0}

  -- What a step gives that fails in the state `a`.
  abbrev Failed : State R → {T : Type 0} → Result T × (R.World × List Line) → Type 0
  Failed a (ok task, log) = Unit {0}
  Failed a (err e, log) = Fails a e log

  file-Failed :
      (path : Text) (watch : WatchTask) (w : R.World) (out : List Line)
      (r : IoResult R.Reader × R.World)
      → R.open_file path w ≡ r
      → some path ≡ file
      → Failed (state R (opening (some path)) watch w out) (file_opened R path out r)
  unfolding file_opened
  file-Failed path watch w out (done reader, w1) q h = tt
  file-Failed path watch w out (fault x, w1) q h = not_opened (sym h) q

  read-Failed :
      (reader : R.Reader) (total : ℕ) (watch : WatchTask) (w : R.World) (out : List Line)
      (r : IoResult Bytes × R.World)
      → R.read reader chunk_size w ≡ r
      → Failed (state R (reading reader total) watch w out) (chunk_arrived R reader total out r)
  unfolding chunk_arrived
  read-Failed reader total watch w out (done [], w1) q = tt
  read-Failed reader total watch w out (done (b ∷ bs), w1) q = tt
  read-Failed reader total watch w out (fault x, w1) q = not_read q

  write-Failed :
      (reader : R.Reader) (chunk : Bytes) (total n : ℕ) (watch : WatchTask) (w : R.World)
      (out : List Line) (r : IoResult (Unit {0}) × R.World)
      → R.write_all s chunk w ≡ r
      → Failed (state R (writing reader chunk total) watch w out) (chunk_sent R reader n out r)
  unfolding chunk_sent
  write-Failed reader chunk total n watch w out (done u, w1) q = tt
  write-Failed reader chunk total n watch w out (fault x, w1) q = not_written q

  stream-Failed :
      (task : StreamTask R.Reader) (watch : WatchTask) (w : R.World) (out : List Line)
      → Named task
      → Failed (state R task watch w out) (step_stream R s task (w, out))
  unfolding step_stream
  stream-Failed (opening none) watch w out h = tt
  stream-Failed (opening (some path)) watch w out h = file-Failed path watch w out _ refl h
  stream-Failed (reading reader total) watch w out h = read-Failed reader total watch w out _ refl
  stream-Failed (writing reader chunk total) watch w out h =
      write-Failed reader chunk total _ watch w out _ refl
  stream-Failed streamed watch w out h = tt

  event-Failed :
      (task : StreamTask R.Reader) (w : R.World) (out : List Line)
      (r : Result ProgressEvent × R.World)
      → receive R c w ≡ r
      → Failed (state R task receiving w out) (event_arrived R out r)
  unfolding event_arrived
  event-Failed task w out (ok event, w1) q = tt
  event-Failed task w out (err e, w1) q = not_received q (receive-error R c w w1 e q).1

  watch-Failed :
      (task : StreamTask R.Reader) (watch : WatchTask) (w : R.World) (out : List Line)
      → Failed (state R task watch w out) (step_watch R c watch (w, out))
  unfolding step_watch
  watch-Failed task receiving w out = event-Failed task w out _ refl
  watch-Failed task seen_last w out = tt

  step-Named : {a b : State R} → Step R s c a b → Named a.task → Named b.task
  step-Named from_stdin h = tt
  step-Named (from_file e) h = tt
  step-Named (chunk_read e) h = tt
  step-Named (input_over e) h = tt
  step-Named (chunk_written e) h = tt
  step-Named (event_seen e going) h = h
  step-Named (last_seen e over) h = h

  Reach-Named : {a b : State R} → Reach R s c a b → Named a.task → Named b.task
  Reach-Named here h = h
  Reach-Named (later r t) h = step-Named t (Reach-Named r h)

  module _ (a : State R) (named : Named a.task) (e : Error) (last : R.World × List Line) where
    -- A state on the way in which an operation fails so that the join ends as it did.
    abbrev Broken : Type 0
    Broken = (b : State R) × Reach R s c a b × Fails b e last

    resumed-Broken :
        {T : Type 0} (b : State R) (P : T → R.World → List Line → Type 0)
        (r : Result T × (R.World × List Line)) (more : T → R.World × List Line → Joined R)
        → Reach R s c a b
        → Kept R s c P r
        → Failed b r
        → ((task : T) (w : R.World) (out : List Line)
            → P task w out
            → more task (w, out) ≡ some (err e, last)
            → Broken)
        → resumed R r more ≡ some (err e, last)
        → Broken
    resumed-Broken b P (ok task, (w, out)) more way kept failed rest q = rest task w out kept q
    resumed-Broken b P (err x, log) more way kept failed rest q =
        let same : ◌≡◌ {A = Error × (R.World × List Line)} (x, log) (e, last) = cc in
        (b, way, subst (λ r. Fails b r.0 r.1) same failed)

    join-Broken :
        (schedule : List Side) (task : StreamTask R.Reader) (watch : WatchTask) (w : R.World)
        (out : List Line)
        → Reach R s c a (state R task watch w out)
        → join R s c schedule task watch (w, out) ≡ some (err e, last)
        → Broken
    unfolding join
    join-Broken schedule streamed seen_last w out h q = cc
    join-Broken [] streamed receiving w out h q = cc
    join-Broken [] (opening f) watch w out h q = cc
    join-Broken [] (reading reader total) watch w out h q = cc
    join-Broken [] (writing reader chunk total) watch w out h q = cc
    join-Broken (streaming ∷ schedule) task watch w out h q =
        resumed-Broken (state R task watch w out)
          (λ task1 w1 out1. Reach R s c a (state R task1 watch w1 out1))
          (step_stream R s task (w, out)) (λ task1. join R s c schedule task1 watch) h
          ((reached R s c a).stream_keeps task watch w out h)
          (stream-Failed task watch w out (Reach-Named h named))
          (λ task1 w1 out1 h1 q1. join-Broken schedule task1 watch w1 out1 h1 q1) q
    join-Broken (watching ∷ schedule) task watch w out h q =
        resumed-Broken (state R task watch w out)
          (λ watch1 w1 out1. Reach R s c a (state R task watch1 w1 out1))
          (step_watch R c watch (w, out)) (λ watch1. join R s c schedule task watch1) h
          ((reached R s c a).watch_keeps task watch w out h) (watch-Failed task watch w out)
          (λ watch1 w1 out1 h1 q1. join-Broken schedule task watch1 w1 out1 h1 q1) q

  -- The turn of the task that fails.
  failing_turn :
      {b : State R} {e : Error} {last : R.World × List Line}
      → Fails b e last
      → (side : Side) × (run R s c (side ∷ []) b ≡ some (err e, last))
  unfolding join step_stream step_watch file_opened chunk_arrived chunk_sent event_arrived
  failing_turn (not_opened h q) = (streaming, rw q refl)
  failing_turn (not_read q) = (streaming, rw q refl)
  failing_turn (not_written q) = (streaming, rw q refl)
  failing_turn (not_received {task} {w} {w1} {out} q h) =
      (watching, watching_turn R s c task [] w out ∙ rw q refl)

-- Over any runtime: some order of the two tasks ends the join in an error, with a world and lines,
-- exactly if its transition system reaches a state in which the next operation of a task fails so.
-- The operation is the opening of the file, which is the one that was named, and the error says
-- that it could not be opened, with its path and the error of the runtime; or it is a read of the
-- input, a write to the socket or the receiving of an event, and the error is the I/O error of it.
-- The world is the one that the operation leaves, and the lines are those printed before it.
pub join-Fails_iff :
    (R : Runtime) (s : R.Stream) (c : ProgressClient R) (file : Option Text) (w : R.World)
    (out : List Line) (e : Error) (last : R.World × List Line)
    → ((schedule : List Side) × (join R s c schedule (opening file) receiving (w, out)
          ≡ some (err e, last)))
      ↔ ((b : State R) × Reach R s c (state R (opening file) receiving w out) b
          × Fails R s c file b e last)
join-Fails_iff R s c file w out e last = (
  λ (schedule, q).
      join-Broken R s c file (state R (opening file) receiving w out) refl e last schedule
        (opening file) receiving w out here q,
  λ (b, h, f).
      let (schedule, all) = schedule_of R s c h in
      let (side, stop) = failing_turn R s c file f in
      (schedule ++ (side ∷ []), all (side ∷ []) ∙ stop),
)
