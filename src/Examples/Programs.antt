-- ===== src/Examples/Programs.antt =====
-- Whole runs of the command, the requests of its arguments, and error messages.
use swupdate_rs.Wire.ProgressMsg.{ack_from_bytes}
use swupdate_rs.Control.Install.{install as request_install}
use swupdate_rs.Wire.MsgType.{from_i32}
use swupdate_rs.Control.Replies.{expect_ack}
use swupdate_rs.Control.Client.{post_update, send_and_expect_ack, send_and_receive}
use swupdate_rs.Cli.Run.Requests.{see-request_of}
use swupdate_rs.Text.Lossy.{fit}
use swupdate_rs.Control.Messages.{post_update_message, install_message}
use swupdate_rs.Wire.Message.{ipc_message_to_bytes, ipc_message_from_bytes, msg_type}
use swupdate_rs.Cli.Run.{request_of}
use swupdate_rs.Text.{codes, Text}
use swupdate_rs.Types.Request.{to_raw}
use swupdate_rs.Error.Display.{display_error}
use swupdate_rs.Runtime.Memory.{memory, World}
use swupdate_rs.Progress.Client.Connect.{Made, connect-Made}
use swupdate_rs.Cli.Main.{main}
use swupdate_rs.Types.Request.Fields.{see}
use swupdate_rs.Progress.Client.{ProgressClient, connect}
use swupdate_rs.Wire.Constants.{packed}
use swupdate_rs.Common.{
  if◌then◌else◌, Bytes, ◌∷◌, List, ◌++◌, replicate, arith, from_ne_bytes, slice, All, IsByte,
  All-replicate,
}
use swupdate_rs.Cli.Output.{error, stdout}
use swupdate_rs.Common.{refl, ◌≡◌, none, some, [], true, false}
use swupdate_rs.Control.Client.{ControlClient}
use swupdate_rs.Error.{timeout, version_mismatch}
use swupdate_rs.Cli.Args.{install, build_config, InstallArgs, Command, Cli, source_of_arg}
use swupdate_rs.Cli.Args as Args
use swupdate_rs.Socket.{SocketConfig, connect_ctrl, connect_progress}
use swupdate_rs.Types.Source as Source

mismatch :
    display_error (version_mismatch 0x20000 0x10000)
    ≡ codes "version mismatch: expected 0x20000, got 0x10000"
unfolding display_error
mismatch = refl

half : display_error (timeout 1_500) ≡ codes "timeout after 1.5s"
unfolding display_error
half = refl

abbrev pub world : Bytes → List Bytes → Bytes → World
world sent answers input = record {
  env = λ (name : Text). none;
  present = λ (path : Text). true;
  slow = false;
  sent = sent;
  answers = answers;
  input = input;
  version = none;
}

abbrev pub ack : Bytes
ack = 0x01 ∷ 0x20 ∷ 0x05 ∷ 0x14 ∷ 1 ∷ 0 ∷ 0 ∷ 0 ∷ replicate 3112 0

abbrev pub nack : Bytes
nack = 0x01 ∷ 0x20 ∷ 0x05 ∷ 0x14 ∷ 2 ∷ 0 ∷ 0 ∷ 0 ∷ replicate 3112 0

abbrev pub command : Command → Cli
command c = record { ctrl_socket = none; progress_socket = none; verbose = false; command = c }

-- A refused POST_UPDATE ends the command with code 1 and the error's message.
refused :
    main memory 0 [] (command Args.post_update) (world [] (nack ∷ []) [])
    ≡ some (record {
      code = 1;
      lines = error (codes "request rejected by swupdate") ∷ [];
      world = world (ipc_message_to_bytes post_update_message) [] [];
    })
unfolding main swupdate_rs.Control.Client.connect connect_ctrl post_update send_and_expect_ack
    send_and_receive ipc_message_from_bytes expect_ack msg_type from_i32 from_ne_bytes slice
refused = refl

-- An installation from standard input: the request and then the image are sent.
abbrev pub arguments : InstallArgs
arguments = record {
  file = none;
  progress = false;
  source = Args.webserver;
  dry_run = true;
  info = codes "night";
}

installed :
    main memory 3 [] (command (install arguments)) (world [] (ack ∷ []) (9 ∷ 8 ∷ 7 ∷ []))
    ≡ some (record {
      code = 0;
      lines = stdout (codes "Install request accepted") ∷ stdout (codes "Streamed 3 bytes") ∷ [];
      world =
          world
            (ipc_message_to_bytes (install_message (request_of arguments)) ++ (9 ∷ 8 ∷ 7 ∷ []))
            []
            [];
    })
unfolding main swupdate_rs.Control.Client.connect connect_ctrl request_install send_and_expect_ack
    send_and_receive ipc_message_from_bytes expect_ack msg_type from_i32 from_ne_bytes slice
installed = refl

see-request_of_example : see (to_raw (request_of arguments)) ≡ record {
  apiversion = 1;
  source = Source.to_wire (source_of_arg Args.webserver);
  dry_run = if true then 1 else 0;
  len = 0;
  info = fit 511 (codes "night");
  software_set = [];
  running_mode = [];
  disable_store_swu = 0;
}
see-request_of_example = see-request_of arguments (omega arith, omega arith)

abbrev settings : SocketConfig
settings = record { ctrl_path = codes "/c"; progress_path = codes "/p"; connect_timeout = 5_000 }

-- The daemon welcomes a client of version 2.7.
abbrev welcoming : World
welcoming = world [] ((7 ∷ 0 ∷ 2 ∷ 0 ∷ codes "ACK" ++ (0 ∷ [])) ∷ []) []

abbrev welcomed : ProgressClient memory
welcomed = record { stream = codes "/p"; config = settings; layout = packed }

connect-Made_example : Made memory settings welcomed welcoming (world [] [] [])
unfolding connect connect_progress ack_from_bytes from_ne_bytes
connect-Made_example = connect-Made memory settings welcomed welcoming (world [] [] []) refl

pub ack-IsByte : All IsByte ack
ack-IsByte =
    let zeros = All-replicate IsByte 3112 0 (omega arith) in
    (
      omega arith,
      (
        omega arith,
        (
          omega arith,
          (omega arith, (omega arith, (omega arith, (omega arith, (omega arith, zeros))))),
        ),
      ),
    )
