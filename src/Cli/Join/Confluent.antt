-- ===== src/Cli/Join/Confluent.antt =====
-- src/bin/swupdate-client.rs: the join over the runtime in memory under two schedules.
use swupdate_rs.Control.Install.{chunk_size}
use mathlib.Core.Path.{subst}
use mathlib.Core.List.{Perm, perm_middle}
use mathlib.Core.List.Perm
use swupdate_rs.Common.{
  drop, ℕ, ◌+◌, ◌*◌, ◌≡◌, refl, ap, ◌∙◌, sym, Option, none, some, List, [], ◌∷◌, ◌++◌, length, All,
  IsByte, Bool-cases, inl, inr, Bytes, ◌%◌, take, ◌^◌,
}
use swupdate_rs.Text.{Text}
use swupdate_rs.Error.{Result, ok, err, done}
use swupdate_rs.Types.Event.{ProgressEvent}
use swupdate_rs.Runtime.Memory.{memory, World, to_bytes}
use swupdate_rs.Runtime.Memory.Untouched.{same_files, memory_same_files}
use swupdate_rs.Progress.Client.{ProgressClient, receive}
use swupdate_rs.Progress.Client.Preserves.{receive-Preserves}
use swupdate_rs.Cli.Output.{Line}
use swupdate_rs.Cli.Monitor.Events.{printed}
use swupdate_rs.Cli.Monitor.Alone.{Watched-unique}
use swupdate_rs.Cli.Join.{
  Side, StreamTask, WatchTask, opening, reading, writing, streamed, receiving, seen_last, join,
  step_stream, step_watch, file_opened, chunk_arrived, chunk_sent, event_arrived, streamed_line,
}
use swupdate_rs.Cli.Join.Invariant.{Kept, Invariant, join_keeps}
use swupdate_rs.Cli.Join.Turns.{IsThere}
use swupdate_rs.Cli.Join.Course.{Inserted}
use swupdate_rs.Cli.Join.Alone.{Both, join-Both}
use swupdate_rs.Cli.Join.Completes.{join-completes}
use swupdate_rs.Cli.Join.Longer.{turns, turns-enough, join-append}

module _ (s : Text) (c : ProgressClient memory) (file : Option Text) (w0 : World) where
  -- The file is opened yet, or it was there.
  abbrev Opened : StreamTask Text → WatchTask → World → List Line → Type 0
  Opened (opening f) watch w out = (f ≡ file) × (w.present ≡ w0.present)
  Opened (reading reader n) watch w out = IsThere file w0
  Opened (writing reader chunk n) watch w out = IsThere file w0
  Opened streamed watch w out = IsThere file w0

  chunk-Kept :
      (watch : WatchTask) (reader : Text) (n : ℕ) (out : List Line) (bytes : Bytes) (w : World)
      → IsThere file w0
      → Kept memory s c
          (λ task. Opened task watch)
          (chunk_arrived memory reader n out (done bytes, w))
  unfolding chunk_arrived
  chunk-Kept watch reader n out [] w h = h
  chunk-Kept watch reader n out (b ∷ bytes) w h = h

  stream_step :
      (task : StreamTask Text) (watch : WatchTask) (w : World) (out : List Line)
      → Opened task watch w out
      → Kept memory s c (λ task'. Opened task' watch) (step_stream memory s task (w, out))
  unfolding step_stream file_opened chunk_sent
  stream_step (opening none) watch w out (here, files) = subst (λ f. IsThere f w0) here tt
  stream_step (opening (some path)) watch w out (here, files) = elim (Bool-cases (w.present path)) [
    | inl there ↦
        rw there (subst (λ f. IsThere f w0) here (ap (λ present. present path) (sym files) ∙ there))
    | inr absent ↦ rw absent tt
  ]
  stream_step (reading reader n) watch w out h =
      chunk-Kept watch reader n out (to_bytes (take chunk_size w.input))
        (record w { input = drop chunk_size w.input }) h
  stream_step (writing reader chunk n) watch w out h = h
  stream_step streamed watch w out h = h

  moved :
      (task : StreamTask Text) (watch watch1 : WatchTask) (w w1 : World) (out out1 : List Line)
      → w1.present ≡ w.present
      → Opened task watch w out
      → Opened task watch1 w1 out1
  moved (opening f) watch watch1 w w1 out out1 q (here, files) = (here, q ∙ files)
  moved (reading reader n) watch watch1 w w1 out out1 q h = h
  moved (writing reader chunk n) watch watch1 w w1 out out1 q h = h
  moved streamed watch watch1 w w1 out out1 q h = h

  event-Kept :
      (task : StreamTask Text) (w : World) (out : List Line) (r : Result ProgressEvent × World)
      → r.1.present ≡ w.present
      → Opened task receiving w out
      → Kept memory s c (Opened task) (event_arrived memory out r)
  unfolding event_arrived
  event-Kept task w out (ok event, w1) q h = moved task receiving _ w w1 out _ q h
  event-Kept task w out (err e, w1) q h = tt

  watch_step :
      (task : StreamTask Text) (watch : WatchTask) (w : World) (out : List Line)
      → Opened task watch w out
      → Kept memory s c (Opened task) (step_watch memory c watch (w, out))
  unfolding step_watch
  watch_step task receiving w out h =
      event-Kept task w out (receive memory c w)
        (receive-Preserves memory same_files memory_same_files c w) h
  watch_step task seen_last w out h = h

  opened : Invariant memory s c Opened
  opened = record { stream_keeps = stream_step; watch_keeps = watch_step }

Inserted-Perm :
    (line : Line) (others lines : List Line)
    → Inserted line others lines
    → Perm lines (line ∷ others)
Inserted-Perm line others lines (before, after, e, q) = rw q (rw (← e) (perm_middle before after))

-- The same was sent and read, and the lines are the same up to their order.
pub record Agree (w1 w2 : World) (out1 out2 : List Line) : Type 0 where
  pub same_sent : w2.sent ≡ w1.sent
  pub same_input : w2.input ≡ w1.input
  pub same_answers : w2.answers ≡ w1.answers
  pub same_lines : Perm out2 out1

Both-Agree :
    (c : ProgressClient memory) (w w1 w2 : World) (out out1 out2 : List Line)
    → Both c w w1 out out1
    → Both c w w2 out out2
    → Agree w1 w2 out1 out2
Both-Agree c w w1 w2 out out1 out2 a b =
    let (events, behind) = Watched-unique c b.heard a.heard in
    let line = streamed_line (length w.input % 2 ^ 64) in
    let perm = Perm.trans (Inserted-Perm line (printed b.events) b.lines b.told) (
      subst (λ l. Perm (line ∷ printed l) a.lines) (sym events)
        (Perm.symm (Inserted-Perm line (printed a.events) a.lines a.told))) in
    record {
      same_sent = b.all_sent ∙ sym a.all_sent;
      same_input = b.all_read ∙ sym a.all_read;
      same_answers = b.answers_left ∙ ap (λ v. v.answers) behind ∙ sym a.answers_left;
      same_lines = rw (a.all_lines, b.all_lines) (Perm.append_left out perm);
    }

-- Over the runtime in memory, whatever bytes there are to read: if the join succeeds in one order
-- of its tasks, then in every order in which it comes to an end it succeeds too, and it has sent,
-- read and received the same. The lines are the same but for their order.
pub join-Agree :
    (s : Text) (c : ProgressClient memory) (first second : List Side) (file : Option Text)
    (w w1 : World) (out out1 : List Line) (r : Result (Unit {0}) × (World × List Line))
    → All IsByte w.input
    → join memory s c first (opening file) receiving (w, out) ≡ some (ok tt, (w1, out1))
    → join memory s c second (opening file) receiving (w, out) ≡ some r
    → (w2 : World) × (out2 : List Line) × (r ≡ (ok tt, (w2, out2))) × Agree w1 w2 out1 out2
join-Agree s c first second file w w1 out out1 r image e f =
    let there =
      join_keeps memory s c (Opened s c file w) (opened s c file w) first (opening file) receiving w
        w1 out out1 (refl, refl) e in
    let a = join-Both s c first file w w1 out out1 image e in
    let n = 2 * length w.input + 2 in
    let m = length a.events in
    let (often, enough) = turns-enough second n m in
    let (w2, out2, g, b, same) =
      join-completes s c (second ++ turns n m) file a.events w a.behind out image there a.heard
        often enough in
    let longer = join-append memory s c (turns n m) r second (opening file) receiving (w, out) f in
    (w2, out2, cc (longer, g), Both-Agree c w w1 w2 out out1 out2 a b)
