-- ===== src/Examples/Requests.antt =====
-- Requests and commands as the daemon reads them.
use swupdate_rs.Control.Messages.Formed as Call
use swupdate_rs.Control.Messages.Formed.{message_of}
use swupdate_rs.Control.Messages.Whole.{Shows, message_of-seen}
use swupdate_rs.Control.Replies.Read.{update_status_iff}
use swupdate_rs.Types.Responses.{UpdateStatus}
use swupdate_rs.Control.Replies.{update_status}
use swupdate_rs.Types.RecoveryStatus as RecoveryStatus
use swupdate_rs.Wire.MsgType as MsgType
use swupdate_rs.Control.Messages.Formed.{install, Accepted, message_of, message_of-Accepted}
use swupdate_rs.Error.{ok}
use swupdate_rs.Text.Lossy.{fit}
use mathlib.Core.Option.{get_or}
use swupdate_rs.Wire.Layout.Slots.{status_current, status_last_result, status_error, status_desc}
use swupdate_rs.Types.Request.Fields.{IsRequest, see, see-to_raw}
use swupdate_rs.Wire.Message.{read_int, RawIpcMessage, read_cstr_at}
use swupdate_rs.Text.{codes}
use swupdate_rs.Common.{
  arith, none, ◌≡◌, some, true, ◌%◌, ◌^◌, [], if◌then◌else◌, ◌↔◌, replicate, ◌∷◌,
}
use swupdate_rs.Types.Source as Source
use swupdate_rs.Types.RunMode as RunMode
use swupdate_rs.Types.Request.{InstallRequest, to_raw}

-- A dry run with a description.
abbrev dry : InstallRequest
dry = record {
  source = Source.downloader;
  mode = RunMode.dry_run;
  info = codes "v1";
  software_set = none;
  running_mode = some (codes "copy1");
  len = some 70_000;
  store_swu = true;
}

dry-IsRequest : IsRequest dry
dry-IsRequest = record {
  info_name = (omega arith, omega arith);
  software_set_name = (tt, tt);
  running_mode_name = (omega arith, omega arith);
}

see-to_raw_example : see (to_raw dry) ≡ record {
  apiversion = 1;
  source = Source.to_wire Source.downloader;
  dry_run = RunMode.to_wire RunMode.dry_run;
  len = get_or (some 70_000) 0 % 2 ^ 64;
  info = fit 511 (codes "v1");
  software_set = fit 255 (get_or none []);
  running_mode = fit 255 (get_or (some (codes "copy1")) []);
  disable_store_swu = if true then 0 else 1;
}
see-to_raw_example = see-to_raw dry dry-IsRequest

-- Four texts, each in its own field.
abbrev upgrade : Call.Call
upgrade = Call.set_versions_range (codes "1.0") (codes "2.0") (codes "1.5") (codes "app")

message_of-seen_example : Shows upgrade (message_of upgrade).body
message_of-seen_example = message_of-seen upgrade (omega arith)

-- An answer full of zeros.
abbrev zeros : RawIpcMessage
zeros = record { magic = 0; msg_type = 3; body = replicate 3112 0 }

abbrev idle_status : UpdateStatus
idle_status = record {
  current = RecoveryStatus.idle;
  last_result = RecoveryStatus.idle;
  error = 0;
  description = [];
}

update_status_iff_example : (update_status zeros ≡ ok idle_status) ↔ (
    (RecoveryStatus.from_wire (read_int status_current zeros.body) ≡ some RecoveryStatus.idle)
    × (RecoveryStatus.from_wire (read_int status_last_result zeros.body) ≡ some RecoveryStatus.idle)
    × (read_int status_error zeros.body ≡ 0)
    × (read_cstr_at status_desc zeros.body ≡ []))
update_status_iff_example = update_status_iff zeros idle_status

-- A Rust text may hold a NUL.
abbrev with_nul : InstallRequest
with_nul = record dry { info = 118 ∷ 0 ∷ 49 ∷ [] }

message_of-Accepted_example : Accepted MsgType.req_install (message_of (install with_nul))
message_of-Accepted_example = message_of-Accepted (install with_nul) (omega arith, tt, omega arith)
