-- ===== src/Cli/Join/Returns.antt =====
-- src/bin/swupdate-client.rs: the join of the streaming and the monitoring over a runtime whose
-- inputs end.
use swupdate_rs.Common.{
  ℕ, suc, ◌+◌, ◌*◌, ◌%◌, ◌^◌, ◌≡◌, ◌≤◌, refl, none, some, List, [], ◌∷◌, Bytes, length, arith,
  Bool-cases, inl, inr,
}
use swupdate_rs.Error.{Result, ok, err, IoResult, done, fault}
use swupdate_rs.Text.{Text}
use swupdate_rs.Runtime.{Runtime}
use swupdate_rs.Runtime.Finite.{Finite, NoMore, NoMore-refl}
use swupdate_rs.Types.Event.{ProgressEvent, is_terminal}
use swupdate_rs.Progress.Client.{ProgressClient, receive}
use swupdate_rs.Progress.Client.Spends.{receive_uses}
use swupdate_rs.Progress.Client.Preserves.{receive-Preserves}
use swupdate_rs.Runtime.Finite.{by_measure, passive}
use swupdate_rs.Control.Install.{chunk_size}
use swupdate_rs.Cli.Output.{Line}
use swupdate_rs.Cli.Shell.Returns.{Ended, ends, ends_later}
use swupdate_rs.Cli.Join.{
  Side, streaming, watching, StreamTask, opening, reading, writing, streamed, WatchTask, receiving,
  seen_last, join, resumed, Joined, step_stream, step_watch, file_opened, chunk_arrived, chunk_sent,
  event_arrived,
}

-- How often a schedule lets each task go on.
abbrev pub streaming_turns : List Side → ℕ
streaming_turns [] = 0
streaming_turns (streaming ∷ schedule) = suc (streaming_turns schedule)
streaming_turns (watching ∷ schedule) = streaming_turns schedule

abbrev pub watching_turns : List Side → ℕ
watching_turns [] = 0
watching_turns (streaming ∷ schedule) = watching_turns schedule
watching_turns (watching ∷ schedule) = suc (watching_turns schedule)

module _ (R : Runtime) (F : Finite R) (s : R.Stream) (c : ProgressClient R) where
  -- The turns that a task may still need: a byte costs a read and a write.
  abbrev to_stream : StreamTask R.Reader → R.World → ℕ
  to_stream (opening file) w = 2 * F.left.to_read w + 2
  to_stream (reading reader total) w = 2 * F.left.to_read w + 1
  to_stream (writing reader chunk total) w = 2 * F.left.to_read w + 2
  to_stream streamed w = 0

  abbrev to_watch : WatchTask → R.World → ℕ
  to_watch receiving w = F.left.to_receive w + 1
  to_watch seen_last w = 0

  to_stream_mono :
      (task : StreamTask R.Reader) (w1 w : R.World)
      → NoMore F.left w1 w
      → to_stream task w1 ≤ to_stream task w
  to_stream_mono (opening file) w1 w h = omega (arith, h.reads_kept)
  to_stream_mono (reading reader total) w1 w h = omega (arith, h.reads_kept)
  to_stream_mono (writing reader chunk total) w1 w h = omega (arith, h.reads_kept)
  to_stream_mono streamed w1 w h = omega arith

  to_watch_mono :
      (watch : WatchTask) (w1 w : R.World)
      → NoMore F.left w1 w
      → to_watch watch w1 ≤ to_watch watch w
  to_watch_mono receiving w1 w h = omega (arith, h.receipts_kept)
  to_watch_mono seen_last w1 w h = omega arith

  -- Behind a turn, `n` more turns are enough for the task, unless it failed.
  abbrev Turned :
      {T : Type 0} → (T → R.World → ℕ) → ℕ → R.World → Result T × (R.World × List Line) → Type 0
  Turned need n w (ok task, (w1, out)) = (need task w1 ≤ n) × NoMore F.left w1 w
  Turned need n w (err e, (w1, out)) = NoMore F.left w1 w

  file_turn :
      (n : ℕ) (path : Text) (w : R.World) (out : List Line) (r : IoResult R.Reader × R.World)
      → NoMore F.left r.1 w
      → 2 * F.left.to_read w + 2 ≤ suc n
      → Turned to_stream n w (file_opened R path out r)
  unfolding file_opened
  file_turn n path w out (done file, w1) q h = (omega (arith, q.reads_kept), q)
  file_turn n path w out (fault x, w1) q h = q

  read_turn :
      (n : ℕ) (reader : R.Reader) (total : ℕ) (w : R.World) (out : List Line)
      (r : IoResult Bytes × R.World)
      → R.read reader chunk_size w ≡ r
      → NoMore F.left r.1 w
      → 2 * F.left.to_read w + 1 ≤ suc n
      → Turned to_stream n w (chunk_arrived R reader total out r)
  unfolding chunk_arrived
  read_turn n reader total w out (done [], w1) e q h = (omega arith, q)
  read_turn n reader total w out (done (b ∷ bs), w1) e q h =
      (omega (arith, F.read_uses reader chunk_size b bs w w1 e), q)
  read_turn n reader total w out (fault x, w1) e q h = q

  write_turn :
      (n : ℕ) (reader : R.Reader) (total : ℕ) (w : R.World) (out : List Line)
      (r : IoResult (Unit {0}) × R.World)
      → NoMore F.left r.1 w
      → 2 * F.left.to_read w + 2 ≤ suc n
      → Turned to_stream n w (chunk_sent R reader total out r)
  unfolding chunk_sent
  write_turn n reader total w out (done u, w1) q h = (omega (arith, q.reads_kept), q)
  write_turn n reader total w out (fault x, w1) q h = q

  stream_turn :
      (n : ℕ) (task : StreamTask R.Reader) (w : R.World) (out : List Line)
      → to_stream task w ≤ suc n
      → Turned to_stream n w (step_stream R s task (w, out))
  unfolding step_stream
  stream_turn n (opening none) w out h = (omega arith, NoMore-refl F.left w)
  stream_turn n (opening (some path)) w out h =
      file_turn n path w out _ (F.open_file-Spends path w) h
  stream_turn n (reading reader total) w out h =
      read_turn n reader total w out _ refl (F.read-Spends reader chunk_size w) h
  stream_turn n (writing reader chunk total) w out h =
      write_turn n reader ((total + length chunk) % 2 ^ 64) w out _ (F.write_all-Spends s chunk w) h
  stream_turn n streamed w out h = (omega arith, NoMore-refl F.left w)

  event_turn :
      (n : ℕ) (w : R.World) (out : List Line) (r : Result ProgressEvent × R.World)
      → receive R c w ≡ r
      → NoMore F.left r.1 w
      → F.left.to_receive w + 1 ≤ suc n
      → Turned to_watch n w (event_arrived R out r)
  unfolding event_arrived
  event_turn n w out (err e, w1) q k h = k
  event_turn n w out (ok event, w1) q k h = elim (Bool-cases (is_terminal event)) [
    | inl over ↦ rw over (omega arith, k)
    | inr going ↦ rw going (omega (arith, receive_uses R F c event w w1 q), k)
  ]

  watch_turn :
      (n : ℕ) (watch : WatchTask) (w : R.World) (out : List Line)
      → to_watch watch w ≤ suc n
      → Turned to_watch n w (step_watch R c watch (w, out))
  unfolding step_watch
  watch_turn n receiving w out h =
      event_turn n w out _ refl (receive-Preserves R (by_measure F.left) (passive F) c w) h
  watch_turn n seen_last w out h = (omega arith, NoMore-refl F.left w)

  resumed_ends :
      {T : Type 0} (need : T → R.World → ℕ) (n : ℕ) (w : R.World)
      (r : Result T × (R.World × List Line)) (more : T → R.World × List Line → Joined R)
      → Turned need n w r
      → ((task : T) (w1 : R.World) (out1 : List Line)
          → need task w1 ≤ n
          → NoMore F.left w1 w
          → Ended F (more task (w1, out1)) w1)
      → Ended F (resumed R r more) w
  resumed_ends need n w (ok task, (w1, out1)) more (few, k) rest =
      ends_later F k (rest task w1 out1 few k)
  resumed_ends need n w (err e, (w1, out1)) more k rest = ends F _ w k

  pub join_ends :
      (schedule : List Side) (task : StreamTask R.Reader) (watch : WatchTask) (w : R.World)
      (out : List Line)
      → to_stream task w ≤ streaming_turns schedule
      → to_watch watch w ≤ watching_turns schedule
      → Ended F (join R s c schedule task watch (w, out)) w
  unfolding join
  join_ends schedule streamed seen_last w out h k = ends F _ w (NoMore-refl F.left w)
  join_ends [] streamed receiving w out h k = absurd (omega arith)
  join_ends [] (opening file) watch w out h k = absurd (omega arith)
  join_ends [] (reading reader total) watch w out h k = absurd (omega arith)
  join_ends [] (writing reader chunk total) watch w out h k = absurd (omega arith)
  join_ends (streaming ∷ schedule) task watch w out h k =
      resumed_ends to_stream (streaming_turns schedule) w (step_stream R s task (w, out))
        (λ task1. join R s c schedule task1 watch) (stream_turn _ task w out h)
        (λ task1 w1 out1 few q.
          join_ends schedule task1 watch w1 out1 few (omega (arith, k, to_watch_mono watch w1 w q)))
  join_ends (watching ∷ schedule) task watch w out h k =
      resumed_ends to_watch (watching_turns schedule) w (step_watch R c watch (w, out))
        (λ watch1. join R s c schedule task watch1) (watch_turn _ watch w out k)
        (λ watch1 w1 out1 few q.
          join_ends schedule task watch1 w1 out1 (omega (arith, h, to_stream_mono task w1 w q)) few)
