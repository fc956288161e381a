-- ===== src/Examples/Watching.antt =====
-- The command `progress`, from the daemon's messages to the lines.
use swupdate_rs.Common.{
  refl, ◌≡◌, inl, some, [], ◌∷◌, ◌++◌, Bytes, ℕ, replicate, arith, to_ne_bytes, from_ne_bytes,
  IsU32,
}
use swupdate_rs.Error.{ok}
use swupdate_rs.Text.{codes}
use swupdate_rs.Runtime.Memory.{memory, World}
use swupdate_rs.Socket.{SocketConfig, connect_progress}
use swupdate_rs.Wire.Constants.{packed, msg_size}
use swupdate_rs.Wire.ProgressMsg.{RawProgressMsg, join, packed_parts, ack_from_bytes}
use swupdate_rs.Wire.ProgressMsg.Parts.{IsPacked}
use swupdate_rs.Progress.Client.{ProgressClient, connect}
use swupdate_rs.Cli.Args.{Command, build_config}
use swupdate_rs.Cli.Main.{main}
use swupdate_rs.Cli.Main.Progress.{main-Reported, main-Lost, watched_lines}
use swupdate_rs.Cli.Monitor.Lost.{Lost, broken, report as report_lost}
use swupdate_rs.Cli.Output.{error}
use swupdate_rs.Error.{connection}
use swupdate_rs.Error.Display.{display_error}
use swupdate_rs.Cli.Monitor.Reports.{Arrives, Reported, final, report}
use swupdate_rs.Examples.Programs.{command, world}

-- A message that holds its status alone.
abbrev status_alone : ℕ → RawProgressMsg
status_alone status = record {
  apiversion = 0x20000;
  status = status;
  dwl_percent = 0;
  dwl_bytes = 0;
  nsteps = 0;
  cur_step = 0;
  cur_percent = 0;
  cur_image = replicate 256 0;
  hnd_name = replicate 64 0;
  source = 0;
  infolen = 0;
  info = replicate 2048 0;
}

status_alone-IsPacked : (status : ℕ) → IsU32 status → IsPacked (status_alone status)
status_alone-IsPacked status h = record {
  apiversion_fits = omega arith;
  status_fits = h;
  dwl_percent_fits = omega arith;
  dwl_bytes_fits = omega arith;
  nsteps_fits = omega arith;
  cur_step_fits = omega arith;
  cur_percent_fits = omega arith;
  cur_image_size = refl;
  hnd_name_size = refl;
  source_fits = omega arith;
  infolen_fits = omega arith;
  info_size = refl;
}

abbrev bytes_of : ℕ → Bytes
bytes_of status = join (packed_parts (status_alone status))

-- A welcome of version 2.0, START, SUCCESS, and a message that is not read.
abbrev reporting : World
reporting =
    world [] ((0 ∷ 0 ∷ 2 ∷ 0 ∷ codes "ACK" ++ (0 ∷ [])) ∷ bytes_of 1 ∷ bytes_of 3 ∷ bytes_of 0 ∷ [])
      []

abbrev welcomed : World
welcomed = world [] (bytes_of 1 ∷ bytes_of 3 ∷ bytes_of 0 ∷ []) []

abbrev started : World
started = world [] (bytes_of 3 ∷ bytes_of 0 ∷ []) []

abbrev over : World
over = world [] (bytes_of 0 ∷ []) []

abbrev config : SocketConfig
config = build_config memory (command Command.progress) reporting

abbrev client : ProgressClient memory
client = record { stream = config.progress_path; config = config; layout = packed }

connected : connect memory config reporting ≡ (ok client, welcomed)
unfolding connect connect_progress ack_from_bytes from_ne_bytes
connected = refl

start-Arrives : Arrives memory client (status_alone 1) welcomed started
unfolding msg_size join packed_parts to_ne_bytes
start-Arrives = record {
  fits = status_alone-IsPacked 1 (omega arith);
  bytes = bytes_of 1;
  encoded = refl;
  arrived = refl;
}

success-Arrives : Arrives memory client (status_alone 3) started over
unfolding msg_size join packed_parts to_ne_bytes
success-Arrives = record {
  fits = status_alone-IsPacked 3 (omega arith);
  bytes = bytes_of 3;
  encoded = refl;
  arrived = refl;
}

reported : Reported memory client (status_alone 1 ∷ status_alone 3 ∷ []) welcomed over
reported = report start-Arrives (λ h. omega arith) (final success-Arrives (inl refl))

main-Reported_example :
    main memory 2 [] (command Command.progress) reporting
    ≡ some (record {
      code = 0;
      lines = watched_lines (status_alone 1 ∷ status_alone 3 ∷ []);
      world = over;
    })
main-Reported_example =
    main-Reported memory 2 [] (command Command.progress) client
      (status_alone 1 ∷ status_alone 3 ∷ []) reporting welcomed over refl connected reported
      (omega arith)

-- The daemon goes away behind START.
abbrev breaking : World
breaking = world [] ((0 ∷ 0 ∷ 2 ∷ 0 ∷ codes "ACK" ++ (0 ∷ [])) ∷ bytes_of 1 ∷ []) []

abbrev last_report : World
last_report = world [] (bytes_of 1 ∷ []) []

abbrev silence : World
silence = world [] [] []

connected_first : connect memory config breaking ≡ (ok client, last_report)
unfolding connect connect_progress ack_from_bytes from_ne_bytes
connected_first = refl

first-Arrives : Arrives memory client (status_alone 1) last_report silence
unfolding msg_size join packed_parts to_ne_bytes
first-Arrives = record {
  fits = status_alone-IsPacked 1 (omega arith);
  bytes = bytes_of 1;
  encoded = refl;
  arrived = refl;
}

lost : Lost memory client (codes "early eof") (status_alone 1 ∷ []) last_report silence
lost = report_lost first-Arrives (λ h. omega arith) (broken refl)

main-Lost_example :
    main memory 2 [] (command Command.progress) breaking
    ≡ some (record {
      code = 1;
      lines =
          watched_lines (status_alone 1 ∷ [])
          ++ (error (display_error (connection (codes "early eof"))) ∷ []);
      world = silence;
    })
unfolding build_config
main-Lost_example =
    main-Lost memory 2 [] (command Command.progress) client (codes "early eof")
      (status_alone 1 ∷ []) breaking last_report silence refl connected_first lost (omega arith)
