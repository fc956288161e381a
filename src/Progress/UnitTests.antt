-- ===== src/Progress/UnitTests.antt =====
-- src/progress.rs: the module `tests`. A test is the statement of its assertions, and the server of
-- a test is the runtime in memory, which has its message as the one answer.
use swupdate_rs.Text.Format.{parse_u32}
use swupdate_rs.Common.{
  ℕ, ◌≡◌, refl, true, false, none, some, Bytes, ◌∷◌, [], replicate, from_ne_bytes, to_ne_bytes,
}
use swupdate_rs.Error.{ok}
use swupdate_rs.Text.{Text, codes}
use swupdate_rs.Runtime.Memory.{memory, World}
use swupdate_rs.Socket.{default}
use swupdate_rs.Wire.Constants.{ProgressLayout, packed, unpacked, msg_size, progress_api_version}
use swupdate_rs.Wire.ProgressMsg.{
  RawProgressMsg, RawProgressMsgUnpacked, join, packed_parts, unpacked_parts, packed_from_bytes,
  unpacked_from_bytes,
}
use swupdate_rs.Types.Event.{ProgressEvent, success, from_raw, from_raw_unpacked}
use swupdate_rs.Progress.Version.{parse_swupdate_version, at_least_2025_12}
use swupdate_rs.Progress.Client.{ProgressClient, receive}

abbrev ParseVersionFull : Type 0
ParseVersionFull = parse_swupdate_version (codes "SWUpdate v2024.12.1") ≡ some (2024, 12)

parse_version_full : ParseVersionFull
unfolding parse_swupdate_version parse_u32
parse_version_full = refl

abbrev ParseVersionNoPatch : Type 0
ParseVersionNoPatch = parse_swupdate_version (codes "SWUpdate v2025.05") ≡ some (2025, 5)

parse_version_no_patch : ParseVersionNoPatch
unfolding parse_swupdate_version parse_u32
parse_version_no_patch = refl

abbrev ParseVersionFuture : Type 0
ParseVersionFuture = parse_swupdate_version (codes "SWUpdate v2025.12") ≡ some (2025, 12)

parse_version_future : ParseVersionFuture
unfolding parse_swupdate_version parse_u32
parse_version_future = refl

abbrev ParseVersionEmpty : Type 0
ParseVersionEmpty = parse_swupdate_version [] ≡ none

parse_version_empty : ParseVersionEmpty
unfolding parse_swupdate_version
parse_version_empty = refl

abbrev ParseVersionGarbage : Type 0
ParseVersionGarbage = parse_swupdate_version (codes "not a version") ≡ none

parse_version_garbage : ParseVersionGarbage
unfolding parse_swupdate_version
parse_version_garbage = refl

-- It parses, and lies before 2025.12.
abbrev LayoutFromOldVersion : Type 0
LayoutFromOldVersion =
    (year : ℕ) × (month : ℕ) × (parse_swupdate_version (codes "SWUpdate v2024.12.1")
      ≡ some (year, month))
    × (at_least_2025_12 year month ≡ false)

layout_from_old_version : LayoutFromOldVersion
unfolding parse_swupdate_version parse_u32
layout_from_old_version = (2024, 12, refl, refl)

abbrev LayoutFromNewVersion : Type 0
LayoutFromNewVersion =
    (year : ℕ) × (month : ℕ) × (parse_swupdate_version (codes "SWUpdate v2025.12")
      ≡ some (year, month))
    × (at_least_2025_12 year month ≡ true)

layout_from_new_version : LayoutFromNewVersion
unfolding parse_swupdate_version parse_u32
layout_from_new_version = (2025, 12, refl, refl)

-- The client's stream, behind which the server has written these bytes.
abbrev served : Bytes → World
served message = record {
  env = λ (name : Text). none;
  present = λ (path : Text). true;
  slow = false;
  sent = [];
  answers = message ∷ [];
  input = [];
  version = none;
}

abbrev client : ProgressLayout → World → ProgressClient memory
client layout w = record { stream = []; config = default memory w; layout = layout }

-- The bytes were received as the event.
abbrev Receives : ProgressLayout → Bytes → ProgressEvent → Type 0
Receives layout message event =
    (w' : World) × (receive memory (client layout (served message)) (served message)
      ≡ (ok event, w'))

abbrev packed_success : RawProgressMsg
packed_success = record (packed_from_bytes (replicate 2408 0)) {
  apiversion = progress_api_version;
  status = 3;
  dwl_percent = 100;
}

abbrev PackedReceive : Type 0
PackedReceive = Receives packed (join (packed_parts packed_success)) success

packed_receive : PackedReceive
unfolding receive msg_size from_raw packed_from_bytes from_ne_bytes packed_parts join to_ne_bytes
packed_receive = (_, refl)

abbrev unpacked_success : RawProgressMsgUnpacked
unpacked_success = record (unpacked_from_bytes (replicate 2416 0)) {
  apiversion = progress_api_version;
  status = 3;
  dwl_percent = 100;
}

abbrev UnpackedReceive : Type 0
UnpackedReceive = Receives unpacked (join (unpacked_parts unpacked_success)) success

unpacked_receive : UnpackedReceive
unfolding receive msg_size from_raw_unpacked unpacked_from_bytes from_ne_bytes unpacked_parts join
    to_ne_bytes
unpacked_receive = (_, refl)
