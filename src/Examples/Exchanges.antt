-- ===== src/Examples/Exchanges.antt =====
-- Exchanges on the control socket, and the streaming of an image.
use swupdate_rs.Control.Client.Reconnect.{Renewed, reconnect_iff}
use swupdate_rs.Control.Client.{reconnect}
use swupdate_rs.Control.Client.Received.{send_and_receive-Answered}
use swupdate_rs.Control.Messages.{post_update_message, get_status_message}
use swupdate_rs.Control.Client.Laws.{Exchange, get_status-empty, send_and_expect_ack-Exchange}
use swupdate_rs.Runtime.Memory.{memory, World, memory-IsLawful}
use swupdate_rs.Wire.Message.{
  IsMessage, RawIpcMessage, ipc_message_to_bytes, ipc_message_from_bytes,
}
use swupdate_rs.Socket.{SocketConfig}
use swupdate_rs.Control.Install.{Installation, stream}
use swupdate_rs.Control.Install.Stream.{
  finish, Transfer, chunk, Explained, stream-Explained, size, stream-Transfer,
}
use swupdate_rs.Text.{codes, Text}
use swupdate_rs.Common.{
  refl, ◌≡◌, from_ne_bytes, Bytes, slice, [], replicate, List, ◌∷◌, some, ◌++◌, none, ◌↔◌, ◌%◌,
  true, false, ◌^◌, arith,
}
use swupdate_rs.Error.{ok, err, rejected}
use swupdate_rs.Control.Client.{ControlClient, send_and_expect_ack, send_and_receive, get_status}
use swupdate_rs.Types.RecoveryStatus.{idle}

abbrev settings : SocketConfig
settings = record {
  ctrl_path = codes "/tmp/sockinstctrl";
  progress_path = codes "/tmp/swupdateprog";
  connect_timeout = 5_000;
}

abbrev client : ControlClient memory
client = record { stream = codes "ctrl"; config = settings }

-- A world with the given answers and input, where the given bytes were sent.
abbrev world : Bytes → List Bytes → Bytes → World
world sent answers input = record {
  env = λ (name : Text). none;
  present = λ (path : Text). true;
  slow = false;
  sent = sent;
  answers = answers;
  input = input;
  version = none;
}

-- NACK, with the given payload.
abbrev nack_with : Bytes → Bytes
nack_with body = 0x01 ∷ 0x20 ∷ 0x05 ∷ 0x14 ∷ 2 ∷ 0 ∷ 0 ∷ 0 ∷ body

abbrev nack : Bytes
nack = nack_with (replicate 3112 0)

abbrev before : World
before = world [] (nack ∷ []) []

abbrev after : RawIpcMessage → World
after msg = world (ipc_message_to_bytes msg) [] []

refused : (msg : RawIpcMessage) → Exchange memory client msg before nack (after msg)
refused msg = record {
  between = world (ipc_message_to_bytes msg) (nack ∷ []) [];
  written = refl;
  answered = refl;
}

-- The NACK, as a message.
abbrev refusal : RawIpcMessage
refusal = record { magic = 0x14052001; msg_type = 2; body = replicate 3112 0 }

send_and_receive-Answered_example :
    Exchange memory client post_update_message before
      (ipc_message_to_bytes refusal)
      (after post_update_message)
    × IsMessage refusal
unfolding send_and_receive ipc_message_from_bytes from_ne_bytes slice
send_and_receive-Answered_example =
    send_and_receive-Answered memory memory-IsLawful client post_update_message before
      (after post_update_message) refusal refl

send_and_expect_ack-Exchange_example :
    let answer = from_ne_bytes (slice 4 4 nack) in
    let outcome = send_and_expect_ack memory client post_update_message before in
    ((outcome.0 ≡ ok tt) ↔ (answer ≡ 1))
    × ((outcome.0 ≡ err rejected) ↔ (answer ≡ 2))
    × (outcome.1 ≡ after post_update_message)
send_and_expect_ack-Exchange_example =
    send_and_expect_ack-Exchange memory memory-IsLawful client before (after post_update_message)
      nack post_update_message (refused post_update_message)

get_status-empty_example :
    (get_status memory client before).0
    ≡ ok (record { current = idle; last_result = idle; error = 0; description = [] })
get_status-empty_example =
    get_status-empty memory memory-IsLawful client before (after get_status_message) nack
      (refused get_status_message) refl

-- The daemon answers with one byte.
abbrev short : World
short = world [] ((1 ∷ []) ∷ []) []

abbrev installation : Installation memory
installation = record { client = client }

-- Two chunks: a full one, and one of three bytes.
abbrev image : Bytes
image = replicate 8192 5 ++ (1 ∷ 2 ∷ 3 ∷ [])

abbrev full : Bytes
full = replicate 8192 5

abbrev rest : Bytes
rest = 1 ∷ 2 ∷ 3 ∷ []

transfer :
    Transfer memory
      (codes "ctrl")
      (codes "stdin")
      (full ∷ rest ∷ [])
      (world [] [] image)
      (world image [] [])
transfer = chunk refl refl (chunk refl refl (finish refl))

stream-Transfer_example :
    stream memory 3 installation (codes "stdin") (world [] [] image)
    ≡ some (ok (size (full ∷ rest ∷ []) % 2 ^ 64), world image [] [])
stream-Transfer_example =
    stream-Transfer memory installation (codes "stdin") (full ∷ rest ∷ []) 3 (world [] [] image)
      (world image [] []) transfer (omega arith)

stream-Explained_example :
    Explained memory (codes "ctrl") (codes "stdin") 0 (world [] [] rest) (ok 3, world rest [] [])
unfolding stream
stream-Explained_example =
    stream-Explained memory installation (codes "stdin") 2 (world [] [] rest)
      (ok 3, world rest [] []) refl

abbrev renewed : ControlClient memory
renewed = record client { stream = settings.ctrl_path }

reconnect_iff_example :
    (reconnect memory (client, before) ≡ (ok tt, (renewed, before)))
    ↔ Renewed memory client renewed before before
reconnect_iff_example = reconnect_iff memory client renewed before before
