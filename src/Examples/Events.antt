-- ===== src/Examples/Events.antt =====
-- Progress messages, handshakes and version lines.
use swupdate_rs.Progress.Client.Series.{series, series-Continues}
use swupdate_rs.Progress.Client.Recover.{Recovered, receive_or_reconnect_iff}
use swupdate_rs.Text.Format.{parse_u32, display}
use swupdate_rs.Progress.Version.Reads.{Reads, Before, detect_layout_iff}
use swupdate_rs.Progress.Version.{version_text, detect_layout}
use swupdate_rs.Progress.Version.Roundtrip.{version_line}
use swupdate_rs.Progress.Client.Handshake.{check_ack_iff}
use swupdate_rs.Types.Event.Laws.{unpack}
use swupdate_rs.Text.{codes, Text, as_bytes, IsScalar, from_utf8_lossy}
use swupdate_rs.Runtime.Memory.{memory, World}
use swupdate_rs.Wire.Constants.{
  ProgressLayout, packed, unpacked, progress_connect_ack_magic, msg_size,
}
use swupdate_rs.Socket.{SocketConfig, connect_progress}
use swupdate_rs.Wire.ProgressMsg.Parts.{IsPacked}
use swupdate_rs.Progress.Client.Receive.{Continues, receive-message}
use swupdate_rs.Types.Event.{from_raw, ProgressFields, is_terminal, from_fields}
use swupdate_rs.Wire.ProgressMsg.{
  RawProgressMsg, RawProgressAck, packed_parts, unpacked_parts, ack_from_bytes, packed_from_bytes,
}
use swupdate_rs.Common.{
  ◌≡◌, refl, ◌≡◌, List, arith, Bytes, [], replicate, true, ◌++◌, Option, ◌↔◌, ◌∷◌, none,
  to_ne_bytes, false, ◌≢◌, some, All, ◌⊎◌, from_ne_bytes, ℕ,
}
use swupdate_rs.Progress.Client.{
  ProgressClient, receive, receive_or_reconnect, check_ack, major, reconnect, handshake,
}
use swupdate_rs.Error.{ok, err, version_mismatch}
use swupdate_rs.Wire.ProgressMsg.{join}

-- A step of an installation: a handler, an image, and the rest of the fields.
abbrev step : RawProgressMsg
step = record {
  apiversion = 0x20000;
  status = 8;
  dwl_percent = 100;
  dwl_bytes = 4096;
  nsteps = 3;
  cur_step = 2;
  cur_percent = 50;
  cur_image = replicate 256 b'i';
  hnd_name = replicate 64 b'h';
  source = 4;
  infolen = 0;
  info = replicate 2048 0;
}

step-IsPacked : IsPacked step
step-IsPacked = record {
  apiversion_fits = omega arith;
  status_fits = omega arith;
  dwl_percent_fits = omega arith;
  dwl_bytes_fits = omega arith;
  nsteps_fits = omega arith;
  cur_step_fits = omega arith;
  cur_percent_fits = omega arith;
  cur_image_size = refl;
  hnd_name_size = refl;
  source_fits = omega arith;
  infolen_fits = omega arith;
  info_size = refl;
}

-- A message whose status is no code.
abbrev odd : ProgressFields
odd = record {
  status = 77;
  dwl_percent = 0;
  dwl_bytes = 0;
  nsteps = 0;
  cur_step = 0;
  cur_percent = 0;
  cur_image = [];
  hnd_name = [];
  info = [];
}

-- A number above every code ends the update.
odd_event : is_terminal (from_fields odd) ≡ true
unfolding from_fields is_terminal
odd_event = refl

-- An acknowledgement of version 2.3.
abbrev ack : RawProgressAck
ack = record { apiversion = 0x20003; magic = codes "ACK" ++ (0 ∷ []) }

check_ack_iff_example :
    ((check_ack ack ≡ ok tt) ↔ ((ack.magic ≡ progress_connect_ack_magic) × (major 0x20003 ≡ 2)))
    × ((check_ack ack ≡ err (version_mismatch 0x20000 0x20003))
        ↔ ((ack.magic ≡ progress_connect_ack_magic) × (major 0x20003 ≢ 2)))
check_ack_iff_example = check_ack_iff ack

-- A world with the given answers, and a daemon that prints the given version.
abbrev answering : List Bytes → Option Bytes → World
answering answers version = record {
  env = λ (name : Text). none;
  present = λ (path : Text). true;
  slow = false;
  sent = [];
  answers = answers;
  input = [];
  version = version;
}

abbrev settings : SocketConfig
settings = record {
  ctrl_path = codes "/run/swupdate/sockinstctrl";
  progress_path = codes "/run/swupdate/swupdateprog";
  connect_timeout = 5_000;
}

abbrev client : ProgressLayout → ProgressClient memory
client layout = record { stream = codes "old"; config = settings; layout = layout }

abbrev packed_world : World
packed_world = answering (join (packed_parts step) ∷ []) none

abbrev unpacked_world : World
unpacked_world = answering (join (unpacked_parts (unpack step 7 9)) ∷ []) none

receive-message_example :
    (receive memory (client packed) packed_world ≡ (ok (from_raw step), answering [] none))
    × (receive memory (client unpacked) unpacked_world ≡ (ok (from_raw step), answering [] none))
unfolding join packed_parts unpacked_parts to_ne_bytes
receive-message_example =
    receive-message memory (client packed) (client unpacked) step 7 9 packed_world
      (answering [] none) unpacked_world (answering [] none) step-IsPacked (omega arith)
      (omega arith) refl refl refl refl

-- The first receipt fails, the new connection is acknowledged, and a message arrives.
abbrev broken_world : World
broken_world =
    answering ([] ∷ (3 ∷ 0 ∷ 2 ∷ 0 ∷ codes "ACK" ++ (0 ∷ [])) ∷ join (packed_parts step) ∷ []) none

series-Continues_example :
    Continues memory (client packed) (series memory 3 (client packed, broken_world)).1.0
series-Continues_example = series-Continues memory 3 (client packed) broken_world

-- The message that arrives first is too short.
abbrev after_failure : World
after_failure =
    answering ((3 ∷ 0 ∷ 2 ∷ 0 ∷ codes "ACK" ++ (0 ∷ [])) ∷ join (packed_parts step) ∷ []) none

abbrev reconnected : ProgressClient memory
reconnected = record (client packed) { stream = settings.progress_path }

receive_or_reconnect_iff_example :
    (receive_or_reconnect memory (client packed, broken_world)
      ≡ (ok (from_raw step), (reconnected, answering [] none)))
    ↔ (((reconnected ≡ client packed)
          × (receive memory (client packed) broken_world ≡ (ok (from_raw step), answering [] none)))
        ⊎ Recovered memory
            (client packed)
            reconnected
            (from_raw step)
            broken_world
            (answering [] none))
receive_or_reconnect_iff_example =
    receive_or_reconnect_iff memory (client packed) reconnected (from_raw step) broken_world
      (answering [] none)

-- The client of that world does recover.
recovers :
    receive_or_reconnect memory (client packed, broken_world)
    ≡ (ok (from_raw step), (reconnected, answering [] none))
unfolding receive reconnect receive_or_reconnect handshake msg_size connect_progress ack_from_bytes
    from_ne_bytes join packed_parts to_ne_bytes packed_from_bytes
recovers = refl

-- `SWUpdate v2024.05`
abbrev spring : Text
spring = version_line 2024 5 [] (codes "\n")

abbrev spring_world : World
spring_world = answering [] (some (as_bytes spring))

spring-IsScalar : All IsScalar spring
spring-IsScalar = unfold display in omega arith

-- `swupdate` of that time has the unpacked layout.
spring_layout : (detect_layout memory spring_world).0 ≡ unpacked
unfolding detect_layout from_utf8_lossy as_bytes display parse_u32
spring_layout = refl

detect_layout_iff_example : ((detect_layout memory spring_world).0 ≡ unpacked) ↔ (
    (year : ℕ) × (month : ℕ) × Reads
      (version_text (memory.version_output spring_world).0)
      year
      month
    × Before year month)
detect_layout_iff_example = detect_layout_iff memory spring_world
