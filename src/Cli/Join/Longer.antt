-- ===== src/Cli/Join/Longer.antt =====
-- src/bin/swupdate-client.rs: a join under a schedule that goes on behind its end.
use swupdate_rs.Common.{ℕ, zero, suc, ◌≤◌, ◌≡◌, some, List, [], ◌∷◌, ◌++◌, arith, replicate}
use swupdate_rs.Error.{Result, ok, err}
use swupdate_rs.Runtime.{Runtime}
use swupdate_rs.Progress.Client.{ProgressClient}
use swupdate_rs.Cli.Output.{Line}
use swupdate_rs.Cli.Join.{
  Side, streaming, watching, StreamTask, WatchTask, opening, reading, writing, streamed, receiving,
  seen_last, join, Joined, resumed, step_stream, step_watch,
}
use swupdate_rs.Cli.Join.Returns.{streaming_turns, watching_turns}

-- So many turns for each task.
abbrev pub turns : ℕ → ℕ → List Side
turns n m = replicate n streaming ++ replicate m watching

turns_streaming : (n m : ℕ) → n ≤ streaming_turns (turns n m)
turns_streaming zero m = omega arith
turns_streaming (suc n) m = omega (arith, turns_streaming n m)

turns_watching : (n m : ℕ) → m ≤ watching_turns (turns n m)
turns_watching zero zero = omega arith
turns_watching zero (suc m) = omega (arith, turns_watching zero m)
turns_watching (suc n) m = turns_watching n m

streaming_turns-append : (xs ys : List Side) → streaming_turns ys ≤ streaming_turns (xs ++ ys)
streaming_turns-append [] ys = omega arith
streaming_turns-append (streaming ∷ xs) ys = omega (arith, streaming_turns-append xs ys)
streaming_turns-append (watching ∷ xs) ys = streaming_turns-append xs ys

watching_turns-append : (xs ys : List Side) → watching_turns ys ≤ watching_turns (xs ++ ys)
watching_turns-append [] ys = omega arith
watching_turns-append (streaming ∷ xs) ys = watching_turns-append xs ys
watching_turns-append (watching ∷ xs) ys = omega (arith, watching_turns-append xs ys)

-- Any schedule can be made one that lets both tasks go on often enough.
pub turns-enough :
    (schedule : List Side) (n m : ℕ)
    → (n ≤ streaming_turns (schedule ++ turns n m)) × (m ≤ watching_turns (schedule ++ turns n m))
turns-enough schedule n m = (
  omega (arith, turns_streaming n m, streaming_turns-append schedule (turns n m)),
  omega (arith, turns_watching n m, watching_turns-append schedule (turns n m)),
)

module _ (R : Runtime) (s : R.Stream) (c : ProgressClient R) (more : List Side)
    (r : Result (Unit {0}) × (R.World × List Line)) where
  resumed-append :
      {T : Type 0} (step : Result T × (R.World × List Line))
      (short long : T → R.World × List Line → Joined R)
      → ((task : T) (log : R.World × List Line) → short task log ≡ some r → long task log ≡ some r)
      → resumed R step short ≡ some r
      → resumed R step long ≡ some r
  resumed-append (ok task, log) short long rest e = rest task log e
  resumed-append (err x, log) short long rest e = e

  -- Once over, it stays as it is.
  pub join-append :
      (schedule : List Side) (task : StreamTask R.Reader) (watch : WatchTask)
      (log : R.World × List Line)
      → join R s c schedule task watch log ≡ some r
      → join R s c (schedule ++ more) task watch log ≡ some r
  unfolding join
  join-append schedule streamed seen_last log e = e
  join-append [] streamed receiving log e = cc
  join-append [] (opening file) watch log e = cc
  join-append [] (reading reader total) watch log e = cc
  join-append [] (writing reader chunk total) watch log e = cc
  join-append (streaming ∷ schedule) task watch log e =
      resumed-append (step_stream R s task log) (λ task1. join R s c schedule task1 watch)
        (λ task1. join R s c (schedule ++ more) task1 watch)
        (λ task1 log1 e1. join-append schedule task1 watch log1 e1) e
  join-append (watching ∷ schedule) task watch log e =
      resumed-append (step_watch R c watch log) (λ watch1. join R s c schedule task watch1)
        (λ watch1. join R s c (schedule ++ more) task watch1)
        (λ watch1 log1 e1. join-append schedule task watch1 log1 e1) e
