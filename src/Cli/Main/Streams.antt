-- ===== src/Cli/Main/Streams.antt =====
-- src/bin/swupdate-client.rs: `main` on the command `install` without `--progress`, over any runtime.
use swupdate_rs.Common.{
  ℕ, ◌≡◌, ◌<◌, ◌%◌, ◌^◌, ap, ◌∙◌, false, none, some, Option, List, [], ◌∷◌, Bytes, length,
}
use swupdate_rs.Error.{ok, connection, IoError}
use swupdate_rs.Error.Display.{display_error}
use swupdate_rs.Runtime.{Runtime}
use swupdate_rs.Control.Client as Control
use swupdate_rs.Control.Install.Stream.{Transfer, Stopped, size}
use swupdate_rs.Control.Messages.{install_message}
use swupdate_rs.Cli.Args.{Cli, Command, InstallArgs, build_config}
use swupdate_rs.Cli.Output.{error}
use swupdate_rs.Cli.Join.{Side, streamed_line}
use swupdate_rs.Cli.Run.{request_of}
use swupdate_rs.Cli.Run.Installs.{accepted}
use swupdate_rs.Cli.Run.Streams.{Opens, run_command-Transfer, run_command-Stopped}
use swupdate_rs.Cli.Main.{main, exit_with, Exit}
use swupdate_rs.Cli.Main.Calls.{main-command}

module _ (R : Runtime) where
  -- The chunks are transferred up to the end of the input, or an I/O error stops the transfer.
  abbrev pub Course : Option IoError → R.Stream → R.Reader → List Bytes → R.World → R.World → Type 0
  Course none s reader chunks w w' = Transfer R s reader chunks w w'
  Course (some x) s reader chunks w w' = Stopped R s reader x chunks w w'

  abbrev pub exit_behind : Option IoError → List Bytes → R.World → Exit R
  exit_behind none chunks w = record {
    code = 0;
    lines = accepted ∷ streamed_line (size chunks % 2 ^ 64) ∷ [];
    world = w;
  }
  exit_behind (some x) chunks w = record {
    code = 1;
    lines = accepted ∷ error (display_error (connection x)) ∷ [];
    world = w;
  }

-- Over any runtime, for the command `install` without `--progress`: where the control socket is
-- connected, the request acknowledged, and its input there (the file that was named, once opened, or
-- the standard input), and given more fuel than there are chunks. If the chunks of the input are
-- read and written one after the other up to its end, `main` exits with 0 and prints that the
-- request was accepted and how many bytes were streamed, modulo 2 ^ 64; if a read or a write fails
-- behind some chunks, it exits with 1 and prints the acceptance and the I/O error. In both cases
-- nothing is done behind the last of these reads and writes.
pub main-Course :
    (R : Runtime) (fuel : ℕ) (schedule : List Side) (cli : Cli) (args : InstallArgs)
    (reader : R.Reader) (ctrl : Control.ControlClient R) (failure : Option IoError)
    (chunks : List Bytes) (w w1 w2 w3 w4 : R.World)
    → cli.command ≡ Command.install args
    → args.progress ≡ false
    → Control.connect R (build_config R cli w) w ≡ (ok ctrl, w1)
    → Control.send_and_expect_ack R ctrl (install_message (request_of args)) w1 ≡ (ok tt, w2)
    → Opens R args.file reader w2 w3
    → Course R failure ctrl.stream reader chunks w3 w4
    → length chunks < fuel
    → main R fuel schedule cli w ≡ some (exit_behind R failure chunks w4)
unfolding exit_with
main-Course R fuel schedule cli args reader ctrl none chunks w w1 w2 w3 w4 q alone made acknowledged
      input course enough =
    main-command R fuel schedule cli (Command.install args) w q
    ∙ ap (exit_with R) (
        run_command-Transfer R fuel schedule args reader (build_config R cli w) ctrl w w1 w2 w3 w4
          made acknowledged alone input chunks course enough)
main-Course R fuel schedule cli args reader ctrl (some x) chunks w w1 w2 w3 w4 q alone made
      acknowledged input course enough =
    main-command R fuel schedule cli (Command.install args) w q
    ∙ ap (exit_with R) (
        run_command-Stopped R fuel schedule args reader (build_config R cli w) ctrl w w1 w2 w3 w4
          made acknowledged alone input x chunks course enough)
