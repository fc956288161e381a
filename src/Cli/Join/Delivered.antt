-- ===== src/Cli/Join/Delivered.antt =====
-- src/bin/swupdate-client.rs: a join over the runtime in memory, from the input to what was sent.
use mathlib.Core.Path.{subst}
use swupdate_rs.Common.{
  ◌<◌, ℕ, ◌+◌, ◌%◌, ◌^◌, ◌≡◌, refl, ap, ◌∙◌, sym, none, some, Option, List, [], ◌∷◌, ◌++◌,
  append-nil, append_assoc, Bytes, length, take, drop, take-append-drop, length-take, length-drop,
  All, IsByte, All-drop, All-take, arith, inl, Bool-cases, inr,
}
use swupdate_rs.Error.{Result, ok, err, IoResult, done, fault}
use swupdate_rs.Types.Event.{ProgressEvent}
use swupdate_rs.Text.{Text}
use swupdate_rs.Runtime.Memory.{memory, World}
use swupdate_rs.Control.Install.{chunk_size}
use swupdate_rs.Control.Install.Delivery.{bytes_kept}
use swupdate_rs.Progress.Client.{ProgressClient, receive}
use swupdate_rs.Progress.Client.Preserves.{receive-Preserves}
use swupdate_rs.Runtime.Memory.Untouched.{Same, untouched, memory_untouched}
use swupdate_rs.Cli.Output.{Line}
use swupdate_rs.Cli.Join.{
  Side, StreamTask, WatchTask, opening, reading, writing, streamed, receiving, seen_last, join,
  step_stream, step_watch, streamed_line, file_opened, chunk_arrived, chunk_sent, event_arrived,
}
use swupdate_rs.Cli.Join.Told.{Has, Has-append, Has-append_right}
use swupdate_rs.Cli.Join.Invariant.{Kept, Invariant, join_keeps}

pub taken_nothing : (input : Bytes) → take chunk_size input ≡ [] → input ≡ []
taken_nothing [] e = refl
taken_nothing (x ∷ input) e =
    absurd (omega (arith, length-take chunk_size (x ∷ input), ap (λ (xs : Bytes). length xs) e))

pub opened_same :
    (path : Text) (w : World) (file : Text) (w1 : World)
    → memory.open_file path w ≡ (done file, w1)
    → w ≡ w1
opened_same path w file w1 e = elim (Bool-cases (w.present path)) [
  | inl there ↦ cc (rw there at e)
  | inr absent ↦ cc (rw absent at e)
]

module _ (s : Text) (c : ProgressClient memory) (total : ℕ) (whole : Bytes) where
  -- What was sent, what the task holds and what can still be read are the whole, and the task's
  -- count is that of the bytes it has written.
  abbrev Split : Bytes → ℕ → Bytes → Bytes → Type 0
  Split sent count held input =
      (sent ++ (held ++ input) ≡ whole)
      × ((count + length held + length input) % 2 ^ 64 ≡ total % 2 ^ 64)
      × All IsByte input

  abbrev Progressed : StreamTask Text → WatchTask → World → List Line → Type 0
  Progressed (opening file) watch w out = Split w.sent 0 [] w.input
  Progressed (reading reader n) watch w out = (n < 2 ^ 64) × Split w.sent n [] w.input
  Progressed (writing reader chunk n) watch w out = (n < 2 ^ 64) × Split w.sent n chunk w.input
  Progressed streamed watch w out =
      (w.sent ≡ whole) × (w.input ≡ []) × Has (streamed_line (total % 2 ^ 64)) out

  file_step :
      (watch : WatchTask) (path : Text) (w : World) (out : List Line) (r : IoResult Text × World)
      → memory.open_file path w ≡ r
      → Split w.sent 0 [] w.input
      → Kept memory s c (λ task. Progressed task watch) (file_opened memory path out r)
  unfolding file_opened
  file_step watch path w out (done file, w1) e h =
      (omega arith, subst (λ w. Split w.sent 0 [] w.input) (opened_same path w file w1 e) h)
  file_step watch path w out (fault x, w1) e h = tt

  read_step :
      (watch : WatchTask) (reader : Text) (n : ℕ) (w : World) (out : List Line) (bytes : Bytes)
      → take chunk_size w.input ≡ bytes
      → n < 2 ^ 64
      → Split w.sent n [] w.input
      → Kept memory s c
          (λ task. Progressed task watch)
          (chunk_arrived memory reader n out
            (done bytes, record w { input = drop chunk_size w.input }))
  unfolding chunk_arrived
  read_step watch reader n w out [] e small (whole_is, count, b) =
      let nothing = taken_nothing w.input e in
      (
        sym (append-nil w.sent) ∙ ap (λ input. w.sent ++ input) (sym nothing) ∙ whole_is,
        ap (drop chunk_size) nothing,
        Has-append_right _ out _ (
            inl (
              ap streamed_line
                (omega (arith, count, small, ap (λ (xs : Bytes). length xs) nothing)))),
      )
  read_step watch reader n w out (x ∷ bytes) e small (whole_is, count, b) = (
    small,
    (
      ap (λ held. w.sent ++ (held ++ drop chunk_size w.input)) (sym e)
          ∙ ap (λ input. w.sent ++ input) (take-append-drop chunk_size w.input)
          ∙ whole_is,
      omega (
        arith,
        count,
        length-drop chunk_size w.input,
        length-take chunk_size w.input,
        ap (λ (xs : Bytes). length xs) e,
      ),
      All-drop IsByte chunk_size w.input b,
    ),
  )

  stream_step :
      (task : StreamTask Text) (watch : WatchTask) (w : World) (out : List Line)
      → Progressed task watch w out
      → Kept memory s c (λ task. Progressed task watch) (step_stream memory s task (w, out))
  unfolding step_stream chunk_sent
  stream_step (opening none) watch w out h = (omega arith, h)
  stream_step (opening (some path)) watch w out h = file_step watch path w out _ refl h
  stream_step (reading reader n) watch w out (small, h) =
      subst
        (λ bytes.
          Kept memory s c (λ task. Progressed task watch)
            (chunk_arrived memory reader n out
              (done bytes, record w { input = drop chunk_size w.input })))
        (sym (bytes_kept (take chunk_size w.input) (All-take IsByte chunk_size w.input h.2)))
        (read_step watch reader n w out (take chunk_size w.input) refl small h)
  stream_step (writing reader chunk n) watch w out (small, (whole_is, count, b)) =
      (omega arith, (append_assoc w.sent chunk w.input ∙ whole_is, omega (arith, count), b))
  stream_step streamed watch w out h = h

  moved :
      (task : StreamTask Text) (watch watch' : WatchTask) (w w1 : World) (out lines : List Line)
      → Same w1 w
      → Progressed task watch w out
      → Progressed task watch' w1 (out ++ lines)
  moved (opening file) watch watch' w w1 out lines (q, k) h = rw (q, k) h
  moved (reading reader n) watch watch' w w1 out lines (q, k) h = rw (q, k) h
  moved (writing reader chunk n) watch watch' w w1 out lines (q, k) h = rw (q, k) h
  moved streamed watch watch' w w1 out lines (q, k) (a, b, t) =
      (q ∙ a, k ∙ b, Has-append _ out lines t)

  event_step :
      (task : StreamTask Text) (w : World) (out : List Line) (r : Result ProgressEvent × World)
      → Same r.1 w
      → Progressed task receiving w out
      → Kept memory s c (Progressed task) (event_arrived memory out r)
  unfolding event_arrived
  event_step task w out (ok event, w1) q h = moved task receiving _ w w1 out _ q h
  event_step task w out (err e, w1) q h = tt

  watch_step :
      (task : StreamTask Text) (watch : WatchTask) (w : World) (out : List Line)
      → Progressed task watch w out
      → Kept memory s c (Progressed task) (step_watch memory c watch (w, out))
  unfolding step_watch
  watch_step task receiving w out h =
      event_step task w out (receive memory c w)
        (receive-Preserves memory untouched memory_untouched c w) h
  watch_step task seen_last w out h = h

  progressed : Invariant memory s c Progressed
  progressed = record { stream_keeps = stream_step; watch_keeps = watch_step }

-- Over the runtime in memory, whatever bytes there are to read and in whatever order the two tasks
-- go on: if they are joined with success, exactly these bytes were sent in order behind what was
-- sent before, none is left to read, and a line tells their number modulo 2 ^ 64.
pub join-delivered :
    (s : Text) (c : ProgressClient memory) (schedule : List Side) (file : Option Text)
    (w w' : World) (out out' : List Line)
    → All IsByte w.input
    → join memory s c schedule (opening file) receiving (w, out) ≡ some (ok tt, (w', out'))
    → (w'.sent ≡ w.sent ++ w.input)
      × (w'.input ≡ [])
      × Has (streamed_line (length w.input % 2 ^ 64)) out'
join-delivered s c schedule file w w' out out' b e =
    let whole = w.sent ++ w.input in
    join_keeps memory s c (Progressed s c (length w.input) whole)
      (progressed s c (length w.input) whole) schedule (opening file) receiving w w' out out'
      (refl, omega arith, b) e
