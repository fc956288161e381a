-- ===== src/Examples/Stopped.antt =====
-- An installation whose image cannot be read.
use swupdate_rs.Common.{refl, ◌≡◌, some, [], ◌∷◌, arith, from_ne_bytes, slice}
use swupdate_rs.Text.{codes}
use swupdate_rs.Error.{fault}
use swupdate_rs.Runtime.{Runtime}
use swupdate_rs.Runtime.Memory.{memory, World}
use swupdate_rs.Socket.{SocketConfig, connect_ctrl}
use swupdate_rs.Control.Client.{ControlClient, connect, send_and_expect_ack, send_and_receive}
use swupdate_rs.Control.Install.Stream.{unread}
use swupdate_rs.Control.Messages.{install_message}
use swupdate_rs.Control.Replies.{expect_ack}
use swupdate_rs.Wire.Message.{ipc_message_to_bytes, ipc_message_from_bytes, msg_type}
use swupdate_rs.Wire.MsgType.{from_i32}
use swupdate_rs.Cli.Args.{Command, build_config}
use swupdate_rs.Cli.Main.{main}
use swupdate_rs.Cli.Main.Streams.{main-Course, exit_behind}
use swupdate_rs.Cli.Run.{request_of}
use swupdate_rs.Examples.Programs.{ack, command, arguments, world}

-- The runtime in memory, on a medium with a defect.
abbrev defective : Runtime
defective = record memory { read = λ r n w. (fault (codes "Input/output error"), w) }

abbrev accepting : World
accepting = world [] (ack ∷ []) (5 ∷ 6 ∷ [])

abbrev config : SocketConfig
config = build_config defective (command (Command.install arguments)) accepting

abbrev ctrl : ControlClient defective
ctrl = record { stream = config.ctrl_path; config = config }

abbrev requested : World
requested = world (ipc_message_to_bytes (install_message (request_of arguments))) [] (5 ∷ 6 ∷ [])

main-Course_example :
    main defective 1 [] (command (Command.install arguments)) accepting
    ≡ some (exit_behind defective (some (codes "Input/output error")) [] requested)
unfolding connect connect_ctrl send_and_expect_ack send_and_receive ipc_message_from_bytes
    expect_ack msg_type from_i32 from_ne_bytes slice
main-Course_example =
    main-Course defective 1 [] (command (Command.install arguments)) arguments defective.stdin ctrl
      (some (codes "Input/output error")) [] accepting accepting requested requested requested refl
      refl refl refl (refl, refl) (unread refl) (omega arith)
