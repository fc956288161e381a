-- ===== src/Wire/Layout/Slots.antt =====
-- src/wire.rs: the place of each field of a union variant in the bytes of `RawMsgData`, as numbers.
-- `Layout.Union` computes them from the struct declarations.
use swupdate_rs.Common.{ℕ}
use swupdate_rs.Wire.Layout.{Slot}

-- `mem::size_of::<RawMsgData>()` and `mem::size_of::<RawIpcMessage>()`
abbrev pub msg_data_size : ℕ
msg_data_size = 3112

abbrev pub ipc_message_size : ℕ
ipc_message_size = 3120

-- The variant `msg`, of which the program reads and writes the first four bytes.
abbrev pub msg_head : Slot
msg_head = record { offset = 0; size = 4 }

-- The fields of `instmsg.req`.
abbrev pub req_apiversion : Slot
req_apiversion = record { offset = 0; size = 4 }

abbrev pub req_source : Slot
req_source = record { offset = 4; size = 4 }

abbrev pub req_dry_run : Slot
req_dry_run = record { offset = 8; size = 4 }

abbrev pub req_len : Slot
req_len = record { offset = 16; size = 8 }

abbrev pub req_info : Slot
req_info = record { offset = 24; size = 512 }

abbrev pub req_software_set : Slot
req_software_set = record { offset = 536; size = 256 }

abbrev pub req_running_mode : Slot
req_running_mode = record { offset = 792; size = 256 }

abbrev pub req_disable_store_swu : Slot
req_disable_store_swu = record { offset = 1048; size = 1 }

-- The variant `status`.
abbrev pub status_current : Slot
status_current = record { offset = 0; size = 4 }

abbrev pub status_last_result : Slot
status_last_result = record { offset = 4; size = 4 }

abbrev pub status_error : Slot
status_error = record { offset = 8; size = 4 }

abbrev pub status_desc : Slot
status_desc = record { offset = 12; size = 2048 }

-- The variant `notify`.
abbrev pub notify_status : Slot
notify_status = record { offset = 0; size = 4 }

abbrev pub notify_error : Slot
notify_error = record { offset = 4; size = 4 }

abbrev pub notify_level : Slot
notify_level = record { offset = 8; size = 4 }

abbrev pub notify_msg : Slot
notify_msg = record { offset = 12; size = 2048 }

-- The variant `instmsg`.
abbrev pub instmsg_req : Slot
instmsg_req = record { offset = 0; size = 1056 }

abbrev pub instmsg_len : Slot
instmsg_len = record { offset = 1056; size = 4 }

abbrev pub instmsg_buf : Slot
instmsg_buf = record { offset = 1060; size = 2048 }

-- The variant `procmsg`.
abbrev pub procmsg_source : Slot
procmsg_source = record { offset = 0; size = 4 }

abbrev pub procmsg_cmd : Slot
procmsg_cmd = record { offset = 4; size = 4 }

abbrev pub procmsg_timeout : Slot
procmsg_timeout = record { offset = 8; size = 4 }

abbrev pub procmsg_len : Slot
procmsg_len = record { offset = 12; size = 4 }

abbrev pub procmsg_buf : Slot
procmsg_buf = record { offset = 16; size = 2048 }

-- The variant `aeskeymsg`.
abbrev pub aeskeymsg_key_ascii : Slot
aeskeymsg_key_ascii = record { offset = 0; size = 65 }

abbrev pub aeskeymsg_ivt_ascii : Slot
aeskeymsg_ivt_ascii = record { offset = 65; size = 33 }

-- The variant `versions`.
abbrev pub versions_minimum_version : Slot
versions_minimum_version = record { offset = 0; size = 256 }

abbrev pub versions_maximum_version : Slot
versions_maximum_version = record { offset = 256; size = 256 }

abbrev pub versions_current_version : Slot
versions_current_version = record { offset = 512; size = 256 }

abbrev pub versions_update_type : Slot
versions_update_type = record { offset = 768; size = 256 }

-- The variant `revisions`.
abbrev pub revisions_boardname : Slot
revisions_boardname = record { offset = 0; size = 256 }

abbrev pub revisions_revision : Slot
revisions_revision = record { offset = 256; size = 256 }

-- The variant `vars`.
abbrev pub vars_varnamespace : Slot
vars_varnamespace = record { offset = 0; size = 256 }

abbrev pub vars_varname : Slot
vars_varname = record { offset = 256; size = 256 }

abbrev pub vars_varvalue : Slot
vars_varvalue = record { offset = 512; size = 256 }

-- The variant `dwl_url`.
abbrev pub dwl_url_filename : Slot
dwl_url_filename = record { offset = 0; size = 256 }

abbrev pub dwl_url_url : Slot
dwl_url_url = record { offset = 256; size = 1024 }
