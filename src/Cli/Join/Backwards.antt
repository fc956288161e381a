-- ===== src/Cli/Join/Backwards.antt =====
-- src/bin/swupdate-client.rs: a join over the runtime in memory, against its two tasks alone. The
-- proof goes backwards: what is still to happen behind a step is turned into what was still to
-- happen before it.
use mathlib.Core.Path.{subst}
use swupdate_rs.Common.{
  none, ℕ, ◌+◌, ◌%◌, ◌^◌, ◌≡◌, refl, ap, sym, some, List, [], ◌∷◌, ◌++◌, Bytes, length, take, drop,
  length-take, length-drop, arith, inl, inr, Bool-cases,
}
use swupdate_rs.Text.{Text}
use swupdate_rs.Error.{Result, ok, err, IoResult, done, fault}
use swupdate_rs.Types.Event.{ProgressEvent, is_terminal}
use swupdate_rs.Runtime.Memory.{memory, World, to_bytes, length-to_bytes}
use swupdate_rs.Control.Install.{chunk_size}
use swupdate_rs.Progress.Client.{ProgressClient, receive}
use swupdate_rs.Cli.Output.{Line}
use swupdate_rs.Cli.Monitor.Events.{Watched, last, next}
use swupdate_rs.Cli.Join.{
  StreamTask, WatchTask, opening, reading, writing, streamed, receiving, seen_last, step_stream,
  step_watch, streamed_line, file_opened, chunk_arrived, chunk_sent, event_arrived,
}
use swupdate_rs.Runtime.Memory.Untouched.{Same, untouched, memory_untouched}
use swupdate_rs.Progress.Client.Preserves.{receive-Preserves}
use swupdate_rs.Cli.Join.Course.{Course, Counts, silently, counted, watched}
use swupdate_rs.Cli.Join.Delivered.{opened_same}
use swupdate_rs.Cli.Join.Invariant.{Kept, Invariant}

module _ (s : Text) (c : ProgressClient memory) (total : ℕ) where
  module _ (Goal : World → List Line → Type 0) where
    abbrev pub Back : StreamTask Text → WatchTask → World → List Line → Type 0
    Back task watch w out =
        (w' : World) (out' : List Line) → Course s c total task watch w w' out out' → Goal w' out'

    abbrev pub On : StreamTask Text → WatchTask → World → List Line → Type 0
    On task watch w out = Counts s c total task w × Back task watch w out

    file_step :
        (watch : WatchTask) (path : Text) (w : World) (out : List Line) (r : IoResult Text × World)
        → memory.open_file path w ≡ r
        → On (opening (some path)) watch w out
        → Kept memory s c (λ task. On task watch) (file_opened memory path out r)
    unfolding file_opened
    file_step watch path w out (done file, w1) e (count, back) =
        let same = opened_same path w file w1 e in
        (
          (omega arith, omega (arith, count, ap (λ (x : World). length x.input) same)),
          λ w' out' k. back w' out' (
              silently s c total (opening (some path)) (reading file 0) watch w w1 w' out out'
                (ap (λ x. x.answers) same) (λ others lines h. h) k),
        )
    file_step watch path w out (fault x, w1) e h = tt

    read_step :
        (watch : WatchTask) (reader : Text) (n : ℕ) (w : World) (out : List Line) (bytes : Bytes)
        → to_bytes (take chunk_size w.input) ≡ bytes
        → On (reading reader n) watch w out
        → Kept memory s c
            (λ task. On task watch)
            (chunk_arrived memory reader n out
              (done bytes, record w { input = drop chunk_size w.input }))
    unfolding chunk_arrived
    read_step watch reader n w out [] e ((small, count), back) = (
      tt,
      λ w' out' k. back w' out' (
          counted s c total reader n watch w (record w { input = drop chunk_size w.input }) w' out
            out' refl
            (ap streamed_line (
              omega (
                arith,
                small,
                count,
                length-take chunk_size w.input,
                length-to_bytes (take chunk_size w.input),
                ap (λ (xs : Bytes). length xs) e,
              )))
            k),
    )
    read_step watch reader n w out (x ∷ bytes) e ((small, count), back) = (
      (
        small,
        omega (
          arith,
          count,
          length-drop chunk_size w.input,
          length-take chunk_size w.input,
          length-to_bytes (take chunk_size w.input),
          ap (λ (xs : Bytes). length xs) e,
        ),
      ),
      λ w' out' k. back w' out' (
          silently s c total (reading reader n) (writing reader (x ∷ bytes) n) watch w
            (record w { input = drop chunk_size w.input }) w' out out' refl (λ others lines h. h)
            k),
    )

    stream_step :
        (task : StreamTask Text) (watch : WatchTask) (w : World) (out : List Line)
        → On task watch w out
        → Kept memory s c (λ task. On task watch) (step_stream memory s task (w, out))
    unfolding step_stream chunk_sent
    stream_step (opening none) watch w out (count, back) = (
      (omega arith, omega (arith, count)),
      λ w' out' k. back w' out' (
          silently s c total (opening none) (reading memory.stdin 0) watch w w w' out out' refl
            (λ others lines h. h) k),
    )
    stream_step (opening (some path)) watch w out h = file_step watch path w out _ refl h
    stream_step (reading reader n) watch w out h =
        read_step watch reader n w out (to_bytes (take chunk_size w.input)) refl h
    stream_step (writing reader chunk n) watch w out ((small, count), back) = (
      (omega arith, omega (arith, count)),
      λ w' out' k. back w' out' (
          silently s c total (writing reader chunk n) (reading reader ((n + length chunk) % 2 ^ 64))
            watch w (record w { sent = w.sent ++ chunk }) w' out out' refl (λ others lines h. h) k),
    )
    stream_step streamed watch w out h = h

    Counts-Same :
        (task : StreamTask Text) (w1 w : World)
        → Same w1 w
        → Counts s c total task w
        → Counts s c total task w1
    Counts-Same (opening file) w1 w (sent, input) h = rw input h
    Counts-Same (reading reader n) w1 w (sent, input) h = rw input h
    Counts-Same (writing reader chunk n) w1 w (sent, input) h = rw input h
    Counts-Same streamed w1 w same h = h

    event_step :
        (task : StreamTask Text) (w : World) (out : List Line) (r : Result ProgressEvent × World)
        → receive memory c w ≡ r
        → Same r.1 w
        → On task receiving w out
        → Kept memory s c (On task) (event_arrived memory out r)
    unfolding event_arrived
    event_step task w out (err x, w1) e same h = tt
    event_step task w out (ok event, w1) e same (count, back) =
        elim (Bool-cases (is_terminal event)) [
          | inl over ↦ rw over (
            Counts-Same task w1 w same count,
            λ w' out' k. back w' out' (
                watched s c total task event seen_last w w1 w' out out'
                  (λ events v (nothing, q). (
                    w1,
                    subst (λ rest. Watched memory c (event ∷ rest) w w1) (sym nothing)
                        (last e over),
                    sym q,
                  ))
                  k),
          )
          | inr going ↦ rw going (
            Counts-Same task w1 w same count,
            λ w' out' k. back w' out' (
                watched s c total task event receiving w w1 w' out out'
                  (λ events v h. (v, next e going h, refl)) k),
          )
        ]

    watch_step :
        (task : StreamTask Text) (watch : WatchTask) (w : World) (out : List Line)
        → On task watch w out
        → Kept memory s c (On task) (step_watch memory c watch (w, out))
    unfolding step_watch
    watch_step task receiving w out h =
        event_step task w out (receive memory c w) refl
          (receive-Preserves memory untouched memory_untouched c w) h
    watch_step task seen_last w out h = h

    pub back_to_start : Invariant memory s c On
    back_to_start = record { stream_keeps = stream_step; watch_keeps = watch_step }
