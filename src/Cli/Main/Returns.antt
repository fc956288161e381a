-- ===== src/Cli/Main/Returns.antt =====
-- src/bin/swupdate-client.rs: `main` over a runtime whose inputs end.
use mathlib.Core.Path.{subst, sym}
use swupdate_rs.Common.{ℕ, ◌≡◌, refl, some, List, []}
use swupdate_rs.Error.{Result, ok, err}
use swupdate_rs.Runtime.{Runtime}
use swupdate_rs.Runtime.Finite.{Finite}
use swupdate_rs.Cli.Args.{Cli, build_config}
use swupdate_rs.Cli.Join.{Side}
use swupdate_rs.Cli.Output.{Line}
use swupdate_rs.Cli.Main.{main, Exit, exit_with}
use swupdate_rs.Cli.Run.{run}
use swupdate_rs.Cli.Run.Returns.{Enough, run_command-Ends}

exit_of :
    (R : Runtime) (r : Result (Unit {0}) × (R.World × List Line))
    → (e : Exit R) × (exit_with R (some r) ≡ some e)
unfolding exit_with
exit_of R (ok u, (w, out)) = (_, refl)
exit_of R (err e, (w, out)) = (_, refl)

-- Whatever the daemon answers and whatever the arguments are: over a runtime in which the bytes to
-- read and the messages to receive are finite in number, `main` comes to an exit, given more fuel
-- than there are bytes and messages, and a schedule that lets the streaming go on twice for each
-- byte, and twice more, and the monitoring once for each message, and once more.
pub main-returns :
    (R : Runtime) (F : Finite R) (fuel : ℕ) (schedule : List Side) (cli : Cli) (w : R.World)
    → Enough R F fuel schedule w
    → (e : Exit R) × (main R fuel schedule cli w ≡ some e)
unfolding main run
main-returns R F fuel schedule cli w h =
    let ended = run_command-Ends R F fuel schedule (build_config R cli w) cli.command w [] h in
    let (e, q) = exit_of R ended.outcome in
    (e, subst (λ o. exit_with R o ≡ some e) (sym ended.returned) q)
