-- ===== src/Cli/Join/Invariant.antt =====
-- src/bin/swupdate-client.rs: what every step of the two tasks of a join keeps.
use mathlib.Core.Path.{subst}
use swupdate_rs.Common.{◌≡◌, some, List, [], ◌∷◌}
use swupdate_rs.Error.{Result, ok, err}
use swupdate_rs.Runtime.{Runtime}
use swupdate_rs.Progress.Client.{ProgressClient}
use swupdate_rs.Cli.Output.{Line}
use swupdate_rs.Cli.Join.{
  Side, streaming, watching, StreamTask, WatchTask, streamed, seen_last, opening, reading, writing,
  receiving, join, Joined, resumed, step_stream, step_watch,
}

module _ (R : Runtime) (s : R.Stream) (c : ProgressClient R) where
  -- It holds behind a step that did not fail.
  abbrev pub Kept :
      {T : Type 0} → (T → R.World → List Line → Type 0) → Result T × (R.World × List Line) → Type 0
  Kept P (ok task, (w, out)) = P task w out
  Kept P (err e, log) = Unit {0}

  -- Of the two tasks, the world and the lines.
  pub record Invariant (P : StreamTask R.Reader → WatchTask → R.World → List Line → Type 0)
      : Type 0 where
    pub stream_keeps :
        (task : StreamTask R.Reader) (watch : WatchTask) (w : R.World) (out : List Line)
        → P task watch w out
        → Kept (λ task'. P task' watch) (step_stream R s task (w, out))
    pub watch_keeps :
        (task : StreamTask R.Reader) (watch : WatchTask) (w : R.World) (out : List Line)
        → P task watch w out
        → Kept (P task) (step_watch R c watch (w, out))

  module _ (P : StreamTask R.Reader → WatchTask → R.World → List Line → Type 0)
      (inv : Invariant P) where
    -- Once a join is over with success, from any start where it holds.
    abbrev Ends : (StreamTask R.Reader → WatchTask → R.World × List Line → Joined R) → Type 0
    Ends more =
        (task : StreamTask R.Reader) (watch : WatchTask) (w w' : R.World) (out out' : List Line)
        → P task watch w out
        → more task watch (w, out) ≡ some (ok tt, (w', out'))
        → P streamed seen_last w' out'

    resumed_keeps :
        {T : Type 0} (Q : T → R.World → List Line → Type 0)
        (more : T → R.World × List Line → Joined R) (r : Result T × (R.World × List Line))
        (w' : R.World) (out' : List Line)
        → ((task : T) (w : R.World) (out : List Line)
            → Q task w out
            → more task (w, out) ≡ some (ok tt, (w', out'))
            → P streamed seen_last w' out')
        → Kept Q r
        → resumed R r more ≡ some (ok tt, (w', out'))
        → P streamed seen_last w' out'
    resumed_keeps Q more (ok task, (w, out)) w' out' rest h e = rest task w out h e
    resumed_keeps Q more (err x, log) w' out' rest h e = cc

    over :
        (w w' : R.World) (out out' : List Line)
        → P streamed seen_last w out
        → ◌≡◌ {A = Joined R} (some (ok tt, (w, out))) (some (ok tt, (w', out')))
        → P streamed seen_last w' out'
    over w w' out out' h e =
        let same : ◌≡◌ {A = R.World × List Line} (w, out) (w', out') = cc in
        subst (λ log. P streamed seen_last log.0 log.1) same h

    pub join_keeps : (schedule : List Side) → Ends (join R s c schedule)
    unfolding join
    join_keeps schedule streamed seen_last w w' out out' h e = over w w' out out' h e
    join_keeps [] streamed receiving w w' out out' h e = cc
    join_keeps [] (opening file) watch w w' out out' h e = cc
    join_keeps [] (reading reader total) watch w w' out out' h e = cc
    join_keeps [] (writing reader chunk total) watch w w' out out' h e = cc
    join_keeps (streaming ∷ schedule) task watch w w' out out' h e =
        resumed_keeps (λ task'. P task' watch) (λ task'. join R s c schedule task' watch)
          (step_stream R s task (w, out)) w' out'
          (λ task1 w1 out1 h1 e1. join_keeps schedule task1 watch w1 w' out1 out' h1 e1)
          (inv.stream_keeps task watch w out h) e
    join_keeps (watching ∷ schedule) task watch w w' out out' h e =
        resumed_keeps (P task) (λ watch'. join R s c schedule task watch')
          (step_watch R c watch (w, out)) w' out'
          (λ watch1 w1 out1 h1 e1. join_keeps schedule task watch1 w1 w' out1 out' h1 e1)
          (inv.watch_keeps task watch w out h) e
