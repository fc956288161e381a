-- ===== src/Wire/UnitTests.antt =====
-- src/wire.rs: the module `tests`. A test is the statement of its assertions.
use swupdate_rs.Common.{
  ◌≡◌, ◌≤◌, refl, true, some, replicate, splice, slice, from_ne_bytes, arith, to_ne_bytes,
}
use swupdate_rs.Text.{codes, from_utf8_lossy, as_bytes}
use swupdate_rs.Wire.Constants.{
  swupdate_api_version, progress_msg_size_packed, progress_msg_size_unpacked,
}
use swupdate_rs.Wire.MsgType.{from_i32}
use swupdate_rs.Wire.MsgType as MsgType
use swupdate_rs.Wire.Layout.{
  size_of, union_size_of, raw_status_data, raw_notify_data, raw_inst_msg_data, raw_proc_msg_data,
  raw_aes_key_data, raw_versions_data, raw_revisions_data, raw_vars_data, raw_dwl_url_data,
  raw_msg_data,
}
use swupdate_rs.Wire.Layout.Slots.{req_apiversion, req_source, req_info}
use swupdate_rs.Wire.Cstring.{cstr_from_bytes, write_cstr}
use swupdate_rs.Wire.Message.{
  RawIpcMessage, new, is_valid, msg_type, ipc_message_to_bytes, ipc_message_from_bytes, write_int,
  read_int, write_cstr_at, read_cstr_at,
}
use swupdate_rs.Wire.ProgressMsg.{packed_widths, unpacked_widths, ack_widths}
use swupdate_rs.Wire.ProgressMsg.Parts.{total}

abbrev ProgressMsgPackedSize : Type 0
ProgressMsgPackedSize = total packed_widths ≡ progress_msg_size_packed

progress_msg_packed_size : ProgressMsgPackedSize
progress_msg_packed_size = refl

abbrev ProgressMsgUnpackedSize : Type 0
ProgressMsgUnpackedSize = total unpacked_widths ≡ progress_msg_size_unpacked

progress_msg_unpacked_size : ProgressMsgUnpackedSize
progress_msg_unpacked_size = refl

abbrev ProgressAckSize : Type 0
ProgressAckSize = total ack_widths ≡ 8

progress_ack_size : ProgressAckSize
progress_ack_size = refl

abbrev IpcMessageUnionLargestIsInstmsg : Type 0
IpcMessageUnionLargestIsInstmsg =
    (size_of raw_status_data ≤ size_of raw_inst_msg_data)
    × (size_of raw_notify_data ≤ size_of raw_inst_msg_data)
    × (size_of raw_proc_msg_data ≤ size_of raw_inst_msg_data)
    × (size_of raw_aes_key_data ≤ size_of raw_inst_msg_data)
    × (size_of raw_versions_data ≤ size_of raw_inst_msg_data)
    × (size_of raw_revisions_data ≤ size_of raw_inst_msg_data)
    × (size_of raw_vars_data ≤ size_of raw_inst_msg_data)
    × (size_of raw_dwl_url_data ≤ size_of raw_inst_msg_data)

ipc_message_union_largest_is_instmsg : IpcMessageUnionLargestIsInstmsg
unfolding size_of
ipc_message_union_largest_is_instmsg = omega arith

abbrev MsgdataSizeMatchesLargestVariant : Type 0
MsgdataSizeMatchesLargestVariant = union_size_of raw_msg_data ≡ size_of raw_inst_msg_data

msgdata_size_matches_largest_variant : MsgdataSizeMatchesLargestVariant
unfolding union_size_of size_of
msgdata_size_matches_largest_variant = refl

abbrev IpcMessageMagic : Type 0
IpcMessageMagic =
    let msg = new MsgType.get_status in
    (is_valid msg ≡ true) × (msg_type msg ≡ some MsgType.get_status)

ipc_message_magic : IpcMessageMagic
unfolding new is_valid msg_type from_i32
ipc_message_magic = (refl, refl)

abbrev CstrRoundtrip : Type 0
CstrRoundtrip =
    cstr_from_bytes (write_cstr (replicate 256 0) (codes "hello world")) ≡ codes "hello world"

cstr_roundtrip : CstrRoundtrip
unfolding cstr_from_bytes write_cstr from_utf8_lossy as_bytes splice
cstr_roundtrip = refl

-- Four characters and the NUL.
abbrev CstrTruncation : Type 0
CstrTruncation = cstr_from_bytes (write_cstr (replicate 5 0) (codes "hello world")) ≡ codes "hell"

cstr_truncation : CstrTruncation
unfolding cstr_from_bytes write_cstr from_utf8_lossy as_bytes splice
cstr_truncation = refl

-- `instmsg.req` starts at the first byte of the union.
abbrev test_firmware : RawIpcMessage
test_firmware =
    let msg = new MsgType.req_install in
    let versioned = write_int req_apiversion swupdate_api_version msg.body in
    let sourced = write_int req_source 4 versioned in
    record msg { body = write_cstr_at req_info (codes "test firmware") sourced }

abbrev IpcMessageRoundtrip : Type 0
IpcMessageRoundtrip =
    (msg2 : RawIpcMessage) × (ipc_message_from_bytes (ipc_message_to_bytes test_firmware)
      ≡ some msg2)
    × (is_valid msg2 ≡ true)
    × (msg_type msg2 ≡ some MsgType.req_install)
    × (read_int req_apiversion msg2.body ≡ swupdate_api_version)
    × (read_int req_source msg2.body ≡ 4)
    × (read_cstr_at req_info msg2.body ≡ codes "test firmware")

ipc_message_roundtrip : IpcMessageRoundtrip
unfolding ipc_message_from_bytes ipc_message_to_bytes new is_valid msg_type from_i32 read_int
    read_cstr_at write_int write_cstr_at cstr_from_bytes write_cstr from_utf8_lossy as_bytes splice
    slice from_ne_bytes to_ne_bytes
ipc_message_roundtrip = (_, refl, refl, refl, refl, refl, refl)
