-- ===== src/Examples/Installs.antt =====
-- Installations by the command, accepted and refused.
use swupdate_rs.Common.{List, true, Bytes, ◌++◌}
use swupdate_rs.Cli.Join.{Side, streaming, watching}
use swupdate_rs.Cli.Main.Orders.{main-Agree}
use swupdate_rs.Cli.Main.Installing.{main_iff}
use swupdate_rs.Cli.Run.Installing.{Installing}
use swupdate_rs.Common.{◌↔◌}
use swupdate_rs.Cli.Join.Confluent.{Agree}
use swupdate_rs.Cli.Main.Watched.{main-Completed, main-completes}
use swupdate_rs.Progress.Client.{ProgressClient, receive, connect as progress_connect}
use swupdate_rs.Cli.Monitor.Events.{Watched, last, next}
use swupdate_rs.Types.Event.{started, success, is_terminal}
use swupdate_rs.Wire.Constants.{packed}
use swupdate_rs.Error.{ok}
use swupdate_rs.Control.Install.Session.{exchanged}
use swupdate_rs.Cli.Run.Installs.{request_bytes}
use swupdate_rs.Cli.Run.Watched.{Completed}
use swupdate_rs.Cli.Output.{stdout, info}
use swupdate_rs.Examples.Commands.{message}
use swupdate_rs.Control.Install.{install as request_install}
use swupdate_rs.Wire.ProgressMsg.{ack_from_bytes, packed_from_bytes}
use swupdate_rs.Wire.Constants.{msg_size}
use swupdate_rs.Types.Event.{from_raw}
use swupdate_rs.Socket.{connect_progress}
use swupdate_rs.Common.{refl, ◌≡◌, some, [], ◌∷◌, arith, from_ne_bytes, slice}
use swupdate_rs.Error.{rejected}
use swupdate_rs.Error.Display.{display_error}
use swupdate_rs.Text.{codes}
use swupdate_rs.Control.Client.{ControlClient, send_and_expect_ack, send_and_receive, connect}
use swupdate_rs.Control.Install.Session.{answered_by}
use swupdate_rs.Control.Messages.{install_message}
use swupdate_rs.Control.Replies.{expect_ack}
use swupdate_rs.Wire.Message.{ipc_message_to_bytes, ipc_message_from_bytes, msg_type}
use swupdate_rs.Wire.MsgType.{from_i32}
use swupdate_rs.Runtime.Memory.{memory, World}
use swupdate_rs.Socket.{SocketConfig, connect_ctrl}
use swupdate_rs.Cli.Args.{Command, InstallArgs, build_config}
use swupdate_rs.Cli.Main.{main, Exit}
use swupdate_rs.Cli.Main.Installs.{main-installed, main-refused}
use swupdate_rs.Cli.Output.{error}
use swupdate_rs.Cli.Run.{request_of}
use swupdate_rs.Cli.Run.Installs.{installed, report}
use swupdate_rs.Examples.Programs.{ack, ack-IsByte, nack, command, arguments, world}

-- A file of two bytes.
abbrev from_file : InstallArgs
from_file = record arguments { file = some (codes "/tmp/image.swu") }

abbrev image : World
image = world [] [] (5 ∷ 6 ∷ [])

main-installed_example :
    main memory 3 [] (command (Command.install from_file)) (answered_by ack [] image)
    ≡ some (record { code = 0; lines = report image; world = installed from_file [] image })
unfolding from_ne_bytes slice
main-installed_example =
    main-installed 3 [] (command (Command.install from_file)) from_file ack [] image refl refl refl
      refl refl refl ack-IsByte refl (omega arith) (omega arith)

abbrev refusing : World
refusing = world [] (nack ∷ []) (5 ∷ 6 ∷ [])

abbrev config : SocketConfig
config = build_config memory (command (Command.install arguments)) refusing

abbrev ctrl : ControlClient memory
ctrl = record { stream = config.ctrl_path; config = config }

abbrev left : World
left = world (ipc_message_to_bytes (install_message (request_of arguments))) [] (5 ∷ 6 ∷ [])

main-refused_example :
    main memory 0 [] (command (Command.install arguments)) refusing
    ≡ some (record { code = 1; lines = error (display_error rejected) ∷ []; world = left })
unfolding connect connect_ctrl send_and_expect_ack send_and_receive ipc_message_from_bytes
    expect_ack msg_type from_i32 from_ne_bytes slice
main-refused_example =
    main-refused memory 0 [] (command (Command.install arguments)) arguments ctrl rejected refusing
      refusing left refl refl refl

abbrev watching_args : InstallArgs
watching_args = record arguments { progress = true }

-- A welcome of version 2.0, START and SUCCESS.
abbrev reports : List Bytes
reports = (0 ∷ 0 ∷ 2 ∷ 0 ∷ codes "ACK" ++ (0 ∷ [])) ∷ message 1 ∷ message 3 ∷ []

abbrev order : List Side
order =
    streaming ∷ watching ∷ streaming ∷ streaming ∷ watching ∷ streaming ∷ streaming ∷ streaming ∷ []

abbrev done : Exit memory
done = record {
  code = 0;
  lines =
      stdout (codes "Install request accepted")
      ∷ info (codes "Started")
      ∷ info (codes "Success")
      ∷ stdout (codes "Streamed 2 bytes")
      ∷ [];
  world =
      world (ipc_message_to_bytes (install_message (request_of watching_args)) ++ (5 ∷ 6 ∷ [])) []
        [];
}

watched :
    main memory 9 order (command (Command.install watching_args)) (answered_by ack reports image)
    ≡ some done
unfolding main connect connect_ctrl connect_progress request_install send_and_expect_ack
    send_and_receive ipc_message_from_bytes expect_ack msg_type from_i32 from_ne_bytes slice
    ack_from_bytes msg_size from_raw packed_from_bytes
watched = refl

abbrev ready : SocketConfig
ready =
    build_config memory (command (Command.install watching_args)) (answered_by ack reports image)

main-Completed_example : Completed ready watching_args reports image done.world done.lines
unfolding from_ne_bytes slice
main-Completed_example =
    main-Completed 9 order (command (Command.install watching_args)) watching_args ack reports image
      done refl refl refl refl refl ack-IsByte refl (omega arith) watched refl

abbrev progress_client : ProgressClient memory
progress_client = record { stream = ready.progress_path; config = ready; layout = packed }

-- Behind the request and the welcome, and behind the events.
abbrev welcomed : World
welcomed = exchanged (request_bytes watching_args) (message 1 ∷ message 3 ∷ []) image

abbrev reported : World
reported = exchanged (request_bytes watching_args) [] image

made :
    progress_connect memory ready (exchanged (request_bytes watching_args) reports image)
    ≡ (ok progress_client, welcomed)
unfolding progress_connect connect_progress ack_from_bytes from_ne_bytes
made = refl

heard : Watched memory progress_client (started ∷ success ∷ []) welcomed reported
unfolding receive msg_size from_raw packed_from_bytes from_ne_bytes is_terminal
heard =
    next {w1 = exchanged (request_bytes watching_args) (message 3 ∷ []) image} refl refl
      (last refl refl)

main-completes_example :
    (e : Exit memory) × (main memory 0 order
        (command (Command.install watching_args))
        (answered_by ack reports image)
      ≡ some e)
    × (e.code ≡ 0)
    × (k : Completed ready watching_args reports image e.world e.lines) × (k.events
        ≡ started ∷ success ∷ [])
unfolding from_ne_bytes slice
main-completes_example =
    main-completes 0 order (command (Command.install watching_args)) watching_args ack reports image
      welcomed reported progress_client (started ∷ success ∷ []) refl refl refl refl refl ack-IsByte
      refl (omega arith) tt made heard (omega arith) (omega arith)

-- The whole image first, and then the reports.
abbrev late : List Side
late = streaming ∷ streaming ∷ streaming ∷ streaming ∷ watching ∷ watching ∷ []

abbrev reported_late : Exit memory
reported_late = record done {
  lines =
      stdout (codes "Install request accepted")
      ∷ stdout (codes "Streamed 2 bytes")
      ∷ info (codes "Started")
      ∷ info (codes "Success")
      ∷ [];
}

watched_late :
    main memory 9 late (command (Command.install watching_args)) (answered_by ack reports image)
    ≡ some reported_late
unfolding main connect connect_ctrl connect_progress request_install send_and_expect_ack
    send_and_receive ipc_message_from_bytes expect_ack msg_type from_i32 from_ne_bytes slice
    ack_from_bytes msg_size from_raw packed_from_bytes
watched_late = refl

main-Agree_example :
    (reported_late.code ≡ 0) × Agree done.world reported_late.world done.lines reported_late.lines
unfolding from_ne_bytes slice
main-Agree_example =
    main-Agree 9 order late (command (Command.install watching_args)) watching_args ack reports
      image done reported_late refl refl refl refl refl ack-IsByte refl (omega arith) watched refl
      watched_late

main_iff_example :
    ((schedule : List Side) × (main memory 9 schedule
          (command (Command.install watching_args))
          (answered_by ack reports image)
        ≡ some (record { code = 0; lines = done.lines; world = done.world })))
    ↔ Installing memory ready watching_args (answered_by ack reports image) done.world done.lines
main_iff_example =
    main_iff memory 9 (command (Command.install watching_args)) watching_args
      (answered_by ack reports image) done.world done.lines refl refl

-- The run above is such an installation.
installing_done :
    Installing memory ready watching_args (answered_by ack reports image) done.world done.lines
installing_done =
    (main_iff memory 9 (command (Command.install watching_args)) watching_args
        (answered_by ack reports image) done.world done.lines refl refl).0
      (order, watched)
