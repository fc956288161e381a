-- ===== src/Cli/Run/Installs.antt =====
-- src/bin/swupdate-client.rs: the command `install` without `--progress`.
use swupdate_rs.Common.{
  ℕ, ◌≡◌, refl, ap, ◌∙◌, true, false, none, some, Option, List, [], ◌∷◌, ◌++◌, Bytes, length, All,
  IsByte, from_ne_bytes, slice, ◌<◌, ◌%◌, ◌^◌,
}
use swupdate_rs.Error.{ok, err, Error}
use swupdate_rs.Text.{Text, codes}
use swupdate_rs.Runtime.{Runtime}
use swupdate_rs.Runtime.Memory.{memory, World}
use swupdate_rs.Socket.{SocketConfig, connect_ctrl, connect_socket}
use swupdate_rs.Control.Client as Control
use swupdate_rs.Control.Install as Install
use swupdate_rs.Control.Install.Session.{answered_by, exchanged, install-stream, stream_file-stream}
use swupdate_rs.Control.Messages.{install_message}
use swupdate_rs.Wire.Message.{ipc_message_to_bytes}
use swupdate_rs.Cli.Args.{InstallArgs, Command}
use swupdate_rs.Cli.Output.{Line, stdout}
use swupdate_rs.Cli.Join.Turns.{IsThere}
use swupdate_rs.Cli.Join.{Side, streamed_line}
use swupdate_rs.Cli.Run.{
  carried, run_command, run_install, request_of, streamed_as, stream_alone, stream_from,
}

pub connected :
    (config : SocketConfig) (w : World)
    → w.slow ≡ false
    → w.present config.ctrl_path ≡ true
    → Control.connect memory config w
      ≡ (ok (record { stream = config.ctrl_path; config = config }), w)
unfolding Control.connect connect_ctrl connect_socket
connected config w quick there = rw there (rw quick refl)

-- The bytes that the daemon gets, the lines, and the world behind them.
abbrev pub request_bytes : InstallArgs → Bytes
request_bytes args = ipc_message_to_bytes (install_message (request_of args))

abbrev pub installed : InstallArgs → List Bytes → World → World
installed args rest w = record w {
  sent = (w.sent ++ request_bytes args) ++ w.input;
  answers = rest;
  input = [];
}

abbrev pub accepted : Line
accepted = stdout (codes "Install request accepted")

abbrev pub report : World → List Line
report w = accepted ∷ streamed_line (length w.input % 2 ^ 64) ∷ []

module _ (fuel : ℕ) (schedule : List Side) (args : InstallArgs) (a : Bytes) (rest : List Bytes)
    (w : World) (sized : length a ≡ 3120) (bytes : All IsByte a)
    (ack : from_ne_bytes (slice 4 4 a) ≡ 1) (image : All IsByte w.input)
    (enough : length w.input < fuel) where
  streamed :
      (c : Control.ControlClient memory) (file : Option Text)
      → IsThere file w
      → stream_from memory fuel schedule
          (record { client = c })
          file
          (exchanged (request_bytes args) rest w, accepted ∷ [])
        ≡ some (ok (length w.input % 2 ^ 64), (installed args rest w, accepted ∷ []))
  unfolding stream_from
  streamed c none there =
      ap (carried memory fuel schedule (accepted ∷ []))
        (install-stream c (request_of args) a rest memory.stdin fuel w sized bytes ack image
          enough).1
  streamed c (some path) there = ap (carried memory fuel schedule (accepted ∷ [])) (
      stream_file-stream memory fuel (record { client = c }) path path
        (exchanged (request_bytes args) rest w) (exchanged (request_bytes args) rest w)
        (rw there refl)
      ∙ (install-stream c (request_of args) a rest path fuel w sized bytes ack image enough).1)

  pub run_command-installed :
      (config : SocketConfig)
      → args.progress ≡ false
      → w.slow ≡ false
      → w.present config.ctrl_path ≡ true
      → IsThere args.file w
      → run_command memory fuel schedule config (Command.install args) (answered_by a rest w, [])
        ≡ some (ok tt, (installed args rest w, report w))
  unfolding run_command run_install streamed_as stream_alone
  run_command-installed config alone quick there file =
      let c : Control.ControlClient memory = record {
        stream = config.ctrl_path;
        config = config;
      } in
      let granted =
        (install-stream c (request_of args) a rest memory.stdin fuel w sized bytes ack image
          enough).0 in
      rw (connected config (answered_by a rest w) quick there)
        (rw granted (rw alone (rw (streamed c args.file file) refl)))

-- Where the request is not acknowledged, nothing is done behind it.
pub run_command-refused :
    (R : Runtime) (fuel : ℕ) (schedule : List Side) (args : InstallArgs) (config : SocketConfig)
    (ctrl : Control.ControlClient R) (e : Error) (w w1 w2 : R.World)
    → Control.connect R config w ≡ (ok ctrl, w1)
    → Control.send_and_expect_ack R ctrl (install_message (request_of args)) w1 ≡ (err e, w2)
    → run_command R fuel schedule config (Command.install args) (w, []) ≡ some (err e, (w2, []))
unfolding run_command run_install Install.install
run_command-refused R fuel schedule args config ctrl e w w1 w2 connected failed =
    rw connected (rw failed refl)
