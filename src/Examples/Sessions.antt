-- ===== src/Examples/Sessions.antt =====
-- Sessions and commands over a connection to a daemon that keeps an update state.
use swupdate_rs.Cli.Args.{Cli, Command, build_config}
use swupdate_rs.Cli.Main.Calls.{main-ask, reported}
use swupdate_rs.Cli.Main.{main}
use swupdate_rs.Cli.Run.{run_command}
use swupdate_rs.Cli.Run.Calls.{run_command-call_of, lines_of}
use swupdate_rs.Cli.Shell.{call, write_lines, ◌>>=◌}
use swupdate_rs.Control.Calls.{perform, ask}
use swupdate_rs.Socket.{connect_ctrl, connect_socket}
use swupdate_rs.Control.Messages.{
  set_update_state_message, get_update_state_message, post_update_message,
}
use swupdate_rs.Control.Replies.{expect_ack, update_state}
use swupdate_rs.Common.{
  refl, ◌≡◌, none, some, [], ◌∷◌, List, Option, replicate, All, from_ne_bytes, slice, splice,
  to_ne_bytes, false,
}
use swupdate_rs.Text.{codes}
use swupdate_rs.Error.{ok, err, rejected}
use swupdate_rs.Socket.{SocketConfig}
use swupdate_rs.Control.Client.{ControlClient, connect}
use swupdate_rs.Control.Calls.{Answer, acknowledged, Daemon, session, replay}
use swupdate_rs.Control.Calls.Refines.{Agrees, session-Agrees}
use swupdate_rs.Control.Calls.Serving.{Connection, serving, serving_carries}
use swupdate_rs.Control.Messages.Formed.{Call, edited-Accepted, with_body}
use swupdate_rs.Wire.Message.Edits.{int, Edit, IsEdit, perform_all}
use swupdate_rs.Wire.Layout.Slots.{msg_data_size, msg_head}
use swupdate_rs.Wire.Message.{RawIpcMessage, msg_type, read_int, write_int}
use swupdate_rs.Wire.MsgType.{MsgType, from_i32, as_i32}
use swupdate_rs.Types.UpdateState.{UpdateState, from_wire, to_wire}
use mathlib.Core.Option.{get_or}

-- An answer that carries an update state, or nothing.
abbrev edits : Option UpdateState → List Edit
edits none = []
edits (some s) = int msg_head (to_wire s) ∷ []

edits-IsEdit : (s : Option UpdateState) → All IsEdit (edits s)
edits-IsEdit none = tt
edits-IsEdit (some s) = (tt, tt)

abbrev answer : MsgType × Option UpdateState → RawIpcMessage
answer (t, s) = with_body t (perform_all (edits s) (replicate msg_data_size 0))

-- The daemon keeps the state that is set, gives it back, and refuses all else.
abbrev kept :
    Option MsgType → RawIpcMessage → UpdateState → (MsgType × Option UpdateState) × UpdateState
kept (some MsgType.set_update_state) m s =
    ((MsgType.ack, none), get_or (from_wire (read_int msg_head m.body)) s)
kept (some MsgType.get_update_state) m s = ((MsgType.ack, some s), s)
kept other m s = ((MsgType.nack, none), s)

abbrev keeper : Daemon
keeper = record {
  State = UpdateState;
  respond = λ m s. let (a, s') = kept (msg_type m) m s in (answer a, s');
  respond-IsMessage = λ m s h.
      let (t, carried) = (kept (msg_type m) m s).0 in
      (edited-Accepted t (edits carried) (edits-IsEdit carried)).0;
}

abbrev settings : SocketConfig
settings = record {
  ctrl_path = codes "/tmp/sockinstctrl";
  progress_path = codes "/tmp/swupdateprog";
  connect_timeout = 5_000;
}

abbrev client : ControlClient (serving keeper)
client = record { stream = codes "/tmp/sockinstctrl"; config = settings }

abbrev idle : Connection keeper
idle = record { peer = UpdateState.ok; inbox = []; outbox = [] }

abbrev calls : List Call
calls = Call.set_update_state UpdateState.testing ∷ Call.get_update_state ∷ Call.post_update ∷ []

-- The results of the three calls.
replayed : replay keeper calls UpdateState.ok ≡ (
  ok acknowledged ∷ ok (Answer.state UpdateState.testing) ∷ err rejected ∷ [],
  UpdateState.testing,
)
unfolding replay expect_ack update_state msg_type from_i32 from_wire as_i32 set_update_state_message
    read_int from_ne_bytes slice get_update_state_message write_int splice to_ne_bytes to_wire
    post_update_message
replayed = refl

session-Agrees_example :
    Agrees
      (serving keeper)
      keeper
      (serving_carries keeper)
      client
      (session (serving keeper) client calls idle)
      (replay keeper calls UpdateState.ok)
session-Agrees_example =
    session-Agrees (serving keeper) keeper (serving_carries keeper) client calls idle
      (tt, (tt, (tt, tt))) (refl, refl)

abbrev asking : Cli
asking = record {
  ctrl_socket = some (codes "/tmp/sockinstctrl");
  progress_socket = none;
  verbose = false;
  command = Command.get_state;
}

abbrev config : SocketConfig
config = build_config (serving keeper) asking idle

abbrev connection : ControlClient (serving keeper)
connection = record { stream = codes "/tmp/sockinstctrl"; config = config }

connected : connect (serving keeper) config idle ≡ (ok connection, idle)
unfolding connect connect_ctrl connect_socket build_config
connected = refl

run_command-call_of_example :
    run_command (serving keeper) 0 [] config Command.get_state (idle, [])
    ≡ (do
      ctrl ← call (connect (serving keeper) config)
      a ← call (perform (serving keeper) ctrl Call.get_update_state)
      write_lines (lines_of Command.get_state a))
        (idle, [])
run_command-call_of_example =
    run_command-call_of (serving keeper) 0 [] config Command.get_state Call.get_update_state idle []
      refl

main-ask_example :
    (w : Connection keeper) × (main (serving keeper) 0 [] asking idle
      ≡ some (
          reported
            (serving keeper)
            Command.get_state
            (ask keeper Call.get_update_state UpdateState.ok).0
            w))
    × (w.peer ≡ (ask keeper Call.get_update_state UpdateState.ok).1)
    × ((w.inbox ≡ []) × (w.outbox ≡ []))
main-ask_example =
    main-ask (serving keeper) keeper (serving_carries keeper) 0 [] asking Call.get_update_state idle
      idle connection refl tt connected (refl, refl)
