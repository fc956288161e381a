-- ===== src/Cli/Join/Reachable.antt =====
-- src/bin/swupdate-client.rs: the join over schedules against its transition system.
use swupdate_rs.Common.{◌≡◌, ◌↔◌, refl, ◌∙◌, some, List, [], ◌∷◌, ◌++◌, Option, append_assoc, ap}
use swupdate_rs.Text.{Text}
use swupdate_rs.Error.{ok}
use swupdate_rs.Runtime.{Runtime}
use swupdate_rs.Progress.Client.{ProgressClient}
use swupdate_rs.Cli.Output.{Line}
use swupdate_rs.Cli.Join.{
  Side, streaming, watching, StreamTask, opening, reading, writing, streamed, receiving, seen_last,
  join, Joined, step_stream, step_watch, file_opened, chunk_arrived, chunk_sent, event_arrived,
  resumed,
}
use swupdate_rs.Cli.Join.Invariant.{join_keeps}
use swupdate_rs.Cli.Join.Steps.{
  State, state, Step, from_stdin, from_file, chunk_read, input_over, chunk_written, event_seen,
  last_seen, Reach, here, later, reached,
}

module _ (R : Runtime) (s : R.Stream) (c : ProgressClient R) where
  abbrev pub run : List Side → State R → Joined R
  run schedule a = join R s c schedule a.task a.watch (a.world, a.lines)

  pub watching_turn :
      (task : StreamTask R.Reader) (more : List Side) (w : R.World) (out : List Line)
      → join R s c (watching ∷ more) task receiving (w, out)
        ≡ resumed R (step_watch R c receiving (w, out)) (λ watch. join R s c more task watch)
  unfolding join
  watching_turn (opening file) more w out = refl
  watching_turn (reading reader total) more w out = refl
  watching_turn (writing reader chunk total) more w out = refl
  watching_turn streamed more w out = refl

  -- A step is one turn of the schedule.
  turn_of :
      {a b : State R}
      → Step R s c a b
      → (side : Side) × ((more : List Side) → run (side ∷ more) a ≡ run more b)
  unfolding join step_stream step_watch file_opened chunk_arrived chunk_sent event_arrived
  turn_of from_stdin = (streaming, λ more. refl)
  turn_of (from_file e) = (streaming, λ more. rw e refl)
  turn_of (chunk_read e) = (streaming, λ more. rw e refl)
  turn_of (input_over e) = (streaming, λ more. rw e refl)
  turn_of (chunk_written e) = (streaming, λ more. rw e refl)
  turn_of (event_seen {task} {w} {out} e going) =
      (watching, λ more. watching_turn task more w out ∙ rw e (rw going refl))
  turn_of (last_seen {task} {w} {out} e over) =
      (watching, λ more. watching_turn task more w out ∙ rw e (rw over refl))

  pub schedule_of :
      {a b : State R}
      → Reach R s c a b
      → (schedule : List Side) × ((more : List Side) → run (schedule ++ more) a ≡ run more b)
  schedule_of here = ([], λ more. refl)
  schedule_of {a} (later h t) =
      let (schedule, all) = schedule_of h in
      let (side, one) = turn_of t in
      (
        schedule ++ (side ∷ []),
        λ more.
            ap (λ l. run l a) (append_assoc schedule (side ∷ []) more)
            ∙ all (side ∷ more)
            ∙ one more,
      )

  over :
      (schedule : List Side) (w : R.World) (out : List Line)
      → join R s c schedule streamed seen_last (w, out) ≡ some (ok tt, (w, out))
  unfolding join
  over schedule w out = refl

-- Some order of the two tasks leads the join to success exactly if its transition system, in which
-- either task may go on from one of its awaits to the next, reaches a state in which both are over,
-- with the same world and the same lines.
pub join_iff :
    (R : Runtime) (s : R.Stream) (c : ProgressClient R) (file : Option Text) (w w' : R.World)
    (out out' : List Line)
    → ((schedule : List Side) × (join R s c schedule (opening file) receiving (w, out)
          ≡ some (ok tt, (w', out'))))
      ↔ Reach R s c (state R (opening file) receiving w out) (state R streamed seen_last w' out')
join_iff R s c file w w' out out' = (
  λ (schedule, e).
      join_keeps R s c _ (reached R s c (state R (opening file) receiving w out)) schedule
        (opening file) receiving w w' out out' here e,
  λ h.
      let (schedule, all) = schedule_of R s c h in (schedule ++ [], all [] ∙ over R s c [] w' out'),
)
