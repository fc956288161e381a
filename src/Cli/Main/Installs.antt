-- ===== src/Cli/Main/Installs.antt =====
-- src/bin/swupdate-client.rs: `main` on the command `install`.
use swupdate_rs.Common.{
  ℕ, ◌≡◌, ap, ◌∙◌, true, false, some, List, [], ◌∷◌, Bytes, length, All, IsByte, from_ne_bytes,
  slice, ◌<◌,
}
use swupdate_rs.Error.{ok, err, Error}
use swupdate_rs.Error.Display.{display_error}
use swupdate_rs.Runtime.{Runtime}
use swupdate_rs.Runtime.Memory.{memory, World}
use swupdate_rs.Control.Client as Control
use swupdate_rs.Control.Install.Session.{answered_by}
use swupdate_rs.Control.Messages.{install_message}
use swupdate_rs.Cli.Args.{Cli, Command, InstallArgs, build_config}
use swupdate_rs.Cli.Output.{error}
use swupdate_rs.Cli.Join.{Side}
use swupdate_rs.Cli.Join.Turns.{IsThere}
use swupdate_rs.Cli.Run.{request_of}
use swupdate_rs.Cli.Run.Installs.{installed, report, run_command-installed, run_command-refused}
use swupdate_rs.Cli.Main.{main, exit_with}
use swupdate_rs.Cli.Main.Calls.{main-command}

-- Over the runtime in memory, for the command `install` without `--progress`: where the control
-- socket can be connected, the file is there if one is named, the daemon answers the request with
-- bytes of a message's size and the type ACK, and the fuel exceeds the number of bytes to read,
-- `main` exits with 0, has printed that the request was accepted and how many bytes were streamed
-- (modulo 2 ^ 64), and has sent the message of the request of its arguments and, behind it, exactly
-- the bytes to read, which in this runtime are the same whether a file is named or not.
pub main-installed :
    (fuel : ℕ) (schedule : List Side) (cli : Cli) (args : InstallArgs) (a : Bytes)
    (rest : List Bytes) (w : World)
    → cli.command ≡ Command.install args
    → args.progress ≡ false
    → w.slow ≡ false
    → w.present (build_config memory cli (answered_by a rest w)).ctrl_path ≡ true
    → IsThere args.file w
    → length a ≡ 3120
    → All IsByte a
    → from_ne_bytes (slice 4 4 a) ≡ 1
    → All IsByte w.input
    → length w.input < fuel
    → main memory fuel schedule cli (answered_by a rest w)
      ≡ some (record { code = 0; lines = report w; world = installed args rest w })
unfolding exit_with
main-installed fuel schedule cli args a rest w e alone quick there file sized bytes ack image
      enough =
    main-command memory fuel schedule cli (Command.install args) (answered_by a rest w) e
    ∙ ap (exit_with memory) (
        run_command-installed fuel schedule args a rest w sized bytes ack image enough
          (build_config memory cli (answered_by a rest w)) alone quick there file)

-- Over any runtime, for the command `install`: where the control socket is connected and then the
-- exchange of the request fails, by a NACK, another answer, or an I/O error, `main` exits with 1 and prints the error and nothing else, and
-- the world is as the exchange left it: no file was opened and no byte of an image was sent.
pub main-refused :
    (R : Runtime) (fuel : ℕ) (schedule : List Side) (cli : Cli) (args : InstallArgs)
    (ctrl : Control.ControlClient R) (e : Error) (w w1 w2 : R.World)
    → cli.command ≡ Command.install args
    → Control.connect R (build_config R cli w) w ≡ (ok ctrl, w1)
    → Control.send_and_expect_ack R ctrl (install_message (request_of args)) w1 ≡ (err e, w2)
    → main R fuel schedule cli w
      ≡ some (record { code = 1; lines = error (display_error e) ∷ []; world = w2 })
unfolding exit_with
main-refused R fuel schedule cli args ctrl e w w1 w2 q connected failed =
    main-command R fuel schedule cli (Command.install args) w q
    ∙ ap (exit_with R) (
        run_command-refused R fuel schedule args (build_config R cli w) ctrl e w w1 w2 connected
          failed)
