-- ===== src/Cli/Main/Installing.antt =====
-- src/bin/swupdate-client.rs: `main` on the command `install` with `--progress`, over any runtime.
use swupdate_rs.Common.{ℕ, ◌≡◌, ◌↔◌, refl, ap, ◌∙◌, sym, true, some, List}
use swupdate_rs.Runtime.{Runtime}
use swupdate_rs.Cli.Args.{Cli, Command, InstallArgs, build_config}
use swupdate_rs.Cli.Output.{Line}
use swupdate_rs.Cli.Join.{Side}
use swupdate_rs.Cli.Run.Installing.{Installing, run_command_iff}
use swupdate_rs.Cli.Main.{main, Exit, exit_with}
use swupdate_rs.Cli.Main.Calls.{main-command}
use swupdate_rs.Cli.Main.Watched.{zero_exit}

-- Over any runtime, for the command `install` with `--progress`: in some order of the streaming and
-- the monitoring `main` exits with 0, these lines and this world, exactly if the control socket was
-- connected, the request of the arguments acknowledged, the progress socket connected behind that,
-- and the transition system of the two tasks, started with the line of the acceptance, reaches a
-- state with these lines and this world in which both are over: the image at its end, and a terminal
-- event received.
pub main_iff :
    (R : Runtime) (fuel : ℕ) (cli : Cli) (args : InstallArgs) (w w' : R.World) (lines : List Line)
    → cli.command ≡ Command.install args
    → args.progress ≡ true
    → ((schedule : List Side) × (main R fuel schedule cli w
          ≡ some (record { code = 0; lines = lines; world = w' })))
      ↔ Installing R (build_config R cli w) args w w' lines
unfolding exit_with
main_iff R fuel cli args w w' lines q watched =
    let exit : Exit R = record { code = 0; lines = lines; world = w' } in
    let as_command =
      λ (schedule : List Side). main-command R fuel schedule cli (Command.install args) w q in
    let (into, back) = run_command_iff R (build_config R cli w) args w w' lines fuel watched in
    (
      λ (schedule, e). into (schedule, zero_exit R _ exit (sym (as_command schedule) ∙ e) refl),
      λ h. let (schedule, run) = back h in (schedule, as_command schedule ∙ ap (exit_with R) run),
    )
