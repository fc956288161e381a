-- ===== src/Wire/Layout/Union.antt =====
-- src/wire.rs: `RawSwupdateRequest`, the variants of `RawMsgData` and `RawIpcMessage` against the
-- declarations of SWUpdate's header.
use swupdate_rs.Common.{ℕ, ◌+◌, ◌≡◌, List, [], ◌∷◌, map}
use swupdate_rs.Wire.Layout.{
  Field, Slot, place, size_of, union_size_of, int, raw_msg_data, raw_swupdate_request,
}
use swupdate_rs.Wire.Layout.Header as C
use swupdate_rs.Wire.Layout.Header.{
  Aligned, Laid, AllLaid, c_swupdate_request, c_ipc_message, c_msgdata,
}
use swupdate_rs.Wire.Layout.Slots.{
  msg_data_size, ipc_message_size, req_apiversion, req_source, req_dry_run, req_len, req_info,
  req_software_set, req_running_mode, req_disable_store_swu, status_current, status_last_result,
  status_error, status_desc, notify_status, notify_error, notify_level, notify_msg, instmsg_req,
  instmsg_len, instmsg_buf, procmsg_source, procmsg_cmd, procmsg_timeout, procmsg_len, procmsg_buf,
  aeskeymsg_key_ascii, aeskeymsg_ivt_ascii, versions_minimum_version, versions_maximum_version,
  versions_current_version, versions_update_type, revisions_boardname, revisions_revision,
  vars_varnamespace, vars_varname, vars_varvalue, dwl_url_filename, dwl_url_url,
}

-- The places of the fields of the request that the program writes.
abbrev request_slots : List Slot
request_slots =
    req_apiversion ∷ req_source ∷ req_dry_run ∷ req_len ∷ req_info ∷ req_software_set
    ∷ req_running_mode ∷ req_disable_store_swu ∷ []

-- The places of the fields of each variant, in which the program reads and writes.
abbrev variant_slots : List (List Slot)
variant_slots =
    (record { offset = 0; size = 128 } ∷ [])
    ∷ (status_current ∷ status_last_result ∷ status_error ∷ status_desc ∷ [])
    ∷ (notify_status ∷ notify_error ∷ notify_level ∷ notify_msg ∷ [])
    ∷ (instmsg_req ∷ instmsg_len ∷ instmsg_buf ∷ [])
    ∷ (procmsg_source ∷ procmsg_cmd ∷ procmsg_timeout ∷ procmsg_len ∷ procmsg_buf ∷ [])
    ∷ (aeskeymsg_key_ascii ∷ aeskeymsg_ivt_ascii ∷ [])
    ∷ (versions_minimum_version ∷ versions_maximum_version ∷ versions_current_version
        ∷ versions_update_type ∷ [])
    ∷ (revisions_boardname ∷ revisions_revision ∷ [])
    ∷ (vars_varnamespace ∷ vars_varname ∷ vars_varvalue ∷ [])
    ∷ (dwl_url_filename ∷ dwl_url_url ∷ [])
    ∷ []

-- The fields of `RawIpcMessage`.
abbrev message_fields : List Field
unfolding union_size_of
message_fields = int ∷ int ∷ record { size = union_size_of raw_msg_data; align = 8 } ∷ []

-- The places at which `ipc_message_to_bytes` writes and `ipc_message_from_bytes` reads them.
abbrev message_slots : List Slot
message_slots =
    record { offset = 0; size = 4 }
    ∷ record { offset = 4; size = 4 }
    ∷ record { offset = 8; size = msg_data_size }
    ∷ []

-- Where the last field of the request and that of the longest variant end.
abbrev request_end : ℕ
request_end = req_disable_store_swu.offset + req_disable_store_swu.size

abbrev instmsg_end : ℕ
instmsg_end = instmsg_buf.offset + instmsg_buf.size

-- The Rust structs have their fields at the places that the program uses, which are those of the
-- header, and the sizes of the struct, the union and the message are those of the header.
pub record Compatible : Type 0 where
  request_places : place 0 raw_swupdate_request ≡ request_slots
  request_laid : Laid 0 c_swupdate_request request_slots request_end
  request_size : size_of raw_swupdate_request ≡ C.c_size C.swupdate_request
  request_rounded : Aligned request_end 8 (C.c_size C.swupdate_request)
  variant_places : map (place 0) raw_msg_data ≡ variant_slots
  variants_laid : AllLaid c_msgdata variant_slots instmsg_end
  union_size : union_size_of raw_msg_data ≡ C.c_size C.msgdata
  union_rounded : Aligned instmsg_end 8 (C.c_size C.msgdata)
  message_places : place 0 message_fields ≡ message_slots
  message_laid : Laid 0 c_ipc_message message_slots ipc_message_size
  message_size : size_of message_fields ≡ ipc_message_size
