-- ===== src/Cli/Main/Calls.antt =====
-- src/bin/swupdate-client.rs: `main` on a command that is one call, against the call on the daemon.
use swupdate_rs.Common.{ℕ, refl, ap, ◌≡◌, ◌∙◌, some, [], ◌∷◌, List}
use swupdate_rs.Error.{Result, ok, err}
use swupdate_rs.Error.Display.{display_error}
use swupdate_rs.Runtime.{Runtime}
use swupdate_rs.Control.Calls.{Answer, Daemon, Carries, perform, ask}
use swupdate_rs.Control.Calls.Refines.{perform-Agrees}
use swupdate_rs.Control.Messages.Formed.{Call, IsCall}
use swupdate_rs.Control.Client.{ControlClient, connect}
use swupdate_rs.Cli.Args.{Cli, Command, build_config}
use swupdate_rs.Cli.Join.{Side}
use swupdate_rs.Cli.Output.{error}
use swupdate_rs.Cli.Main.{Exit, main, exit_with}
use swupdate_rs.Cli.Run.{run, run_command}
use swupdate_rs.Cli.Run.Calls.{call_of, lines_of, run_command-call_of}
use swupdate_rs.Cli.Shell.{◌>>=◌, call, write_lines}

module _ (R : Runtime) where
  -- The exit that reports a result.
  unfoldable pub reported : Command → Result Answer → R.World → Exit R
  unfolding lines_of
  reported command (ok a) w = record { code = 0; lines = lines_of command a; world = w }
  reported command (err e) w = record { code = 1; lines = error (display_error e) ∷ []; world = w }

  reported_lem :
      (command : Command) (r : Result Answer) (w : R.World)
      → exit_with R (((call (λ w. (r, w))) >>= λ a. write_lines (lines_of command a)) (w, []))
        ≡ some (reported command r w)
  unfolding exit_with reported
  reported_lem command (ok a) w = refl
  reported_lem command (err e) w = refl

  pub main-run_command :
      (fuel : ℕ) (schedule : List Side) (cli : Cli) (w : R.World)
      → main R fuel schedule cli w
        ≡ exit_with R (run_command R fuel schedule (build_config R cli w) cli.command (w, []))
  unfolding main run
  main-run_command fuel schedule cli w = refl

  -- The same, for a command that is known.
  pub main-command :
      (fuel : ℕ) (schedule : List Side) (cli : Cli) (command : Command) (w : R.World)
      → cli.command ≡ command
      → main R fuel schedule cli w
        ≡ exit_with R (run_command R fuel schedule (build_config R cli w) command (w, []))
  main-command fuel schedule cli command w q =
      main-run_command fuel schedule cli w
      ∙ ap
          (λ command.
            exit_with R (run_command R fuel schedule (build_config R cli w) command (w, [])))
          q

  module _ (D : Daemon) (V : Carries R D) where
    -- Over a runtime that carries messages to a daemon and back: where a command stands for one
    -- call of the library, its arguments have their Rust types, and the control socket is
    -- connected, with no bytes under way, `main` returns, its exit code and its lines report the
    -- result that the call has on the daemon itself, and the daemon is left in the state that the
    -- call leaves.
    pub main-ask :
        (fuel : ℕ) (schedule : List Side) (cli : Cli) (c : Call) (w w1 : R.World)
        (ctrl : ControlClient R)
        → call_of cli.command ≡ some c
        → IsCall c
        → connect R (build_config R cli w) w ≡ (ok ctrl, w1)
        → V.Quiet w1
        → (w2 : R.World) × (main R fuel schedule cli w
            ≡ some (reported cli.command (ask D c (V.view w1)).0 w2))
          × (V.view w2 ≡ (ask D c (V.view w1)).1)
          × V.Quiet w2
    main-ask fuel schedule cli c w w1 ctrl e h k q =
        let a = perform-Agrees R D V ctrl c w1 h q in
        let (r, w2) = perform R ctrl c w1 in
        let outcome : main R fuel schedule cli w ≡ some (reported cli.command r w2) =
          main-run_command fuel schedule cli w
          ∙ ap (exit_with R) (
              run_command-call_of R fuel schedule (build_config R cli w) cli.command c w [] e
              ∙ rw k refl)
          ∙ reported_lem cli.command r w2 in
        (
          w2,
          outcome ∙ ap (λ r. some (reported cli.command r w2)) a.same_result,
          a.same_state,
          a.quiet,
        )
