-- ===== src/Cli/Run/Streams.antt =====
-- src/bin/swupdate-client.rs: the command `install` without `--progress`, over any runtime.
use mathlib.Core.Path.{subst}
use swupdate_rs.Common.{
  ℕ, ◌≡◌, ◌<◌, ◌%◌, ◌^◌, refl, ap, ◌∙◌, false, none, some, Option, List, [], ◌∷◌, Bytes, length,
}
use swupdate_rs.Text.{Text}
use swupdate_rs.Error.{Result, ok, err, connection, IoError, done}
use swupdate_rs.Runtime.{Runtime}
use swupdate_rs.Socket.{SocketConfig}
use swupdate_rs.Control.Client as Control
use swupdate_rs.Control.Install as Install
use swupdate_rs.Control.Install.{Installation}
use swupdate_rs.Control.Install.Stream.{Transfer, Stopped, size, stream-Transfer, stream-Stopped}
use swupdate_rs.Control.Install.Session.{stream_file-stream}
use swupdate_rs.Control.Messages.{install_message}
use swupdate_rs.Cli.Args.{InstallArgs, Command}
use swupdate_rs.Cli.Join.{Side, streamed_line}
use swupdate_rs.Cli.Run.{
  carried, run_command, run_install, request_of, streamed_as, stream_alone, stream_from,
}
use swupdate_rs.Cli.Run.Installs.{accepted}

-- The input is the file that was named, once opened, and otherwise the standard input.
abbrev pub Opens : (R : Runtime) → Option Text → R.Reader → R.World → R.World → Type 0
Opens R none reader w w' = (reader ≡ R.stdin) × (w' ≡ w)
Opens R (some path) reader w w' = R.open_file path w ≡ (done reader, w')

module _ (R : Runtime) (fuel : ℕ) (schedule : List Side) (args : InstallArgs) (reader : R.Reader)
    (config : SocketConfig) (ctrl : Control.ControlClient R) (w w1 w2 w3 w4 : R.World)
    (made : Control.connect R config w ≡ (ok ctrl, w1))
    (acknowledged : Control.send_and_expect_ack R ctrl (install_message (request_of args)) w1
      ≡ (ok tt, w2))
    (alone : args.progress ≡ false) (open_input : Opens R args.file reader w2 w3) where
  -- The streaming of the command is that of the library on its input.
  streamed_from :
      (i : Installation R) (file : Option Text) (r : Result ℕ)
      → Opens R file reader w2 w3
      → Install.stream R fuel i reader w3 ≡ some (r, w4)
      → stream_from R fuel schedule i file (w2, accepted ∷ []) ≡ some (r, (w4, accepted ∷ []))
  unfolding stream_from
  streamed_from i none r (is_stdin, same) e = ap (carried R fuel schedule (accepted ∷ [])) (
      subst (λ input. Install.stream R fuel i input w2 ≡ some (r, w4)) is_stdin
        (subst (λ v. Install.stream R fuel i reader v ≡ some (r, w4)) same e))
  streamed_from i (some path) r opens e =
      ap (carried R fuel schedule (accepted ∷ []))
        (stream_file-stream R fuel i path reader w2 w3 opens ∙ e)

  -- Behind the acceptance, the command streams its input.
  behind_acceptance :
      run_command R fuel schedule config (Command.install args) (w, [])
      ≡ stream_alone R fuel schedule (record { client = ctrl }) args.file (w2, accepted ∷ [])
  unfolding run_command run_install streamed_as Install.install
  behind_acceptance = rw made (rw acknowledged (rw alone refl))

  pub run_command-Transfer :
      (chunks : List Bytes)
      → Transfer R ctrl.stream reader chunks w3 w4
      → length chunks < fuel
      → run_command R fuel schedule config (Command.install args) (w, [])
        ≡ some (ok tt, (w4, accepted ∷ streamed_line (size chunks % 2 ^ 64) ∷ []))
  unfolding stream_alone
  run_command-Transfer chunks t enough =
      let i : Installation R = record { client = ctrl } in
      let run =
        streamed_from i args.file (ok (size chunks % 2 ^ 64)) open_input
          (stream-Transfer R i reader chunks fuel w3 w4 t enough) in
      behind_acceptance ∙ rw run refl

  pub run_command-Stopped :
      (x : IoError) (chunks : List Bytes)
      → Stopped R ctrl.stream reader x chunks w3 w4
      → length chunks < fuel
      → run_command R fuel schedule config (Command.install args) (w, [])
        ≡ some (err (connection x), (w4, accepted ∷ []))
  unfolding stream_alone
  run_command-Stopped x chunks t enough =
      let i : Installation R = record { client = ctrl } in
      let run =
        streamed_from i args.file (err (connection x)) open_input
          (stream-Stopped R i reader x chunks fuel w3 w4 t enough) in
      behind_acceptance ∙ rw run refl
