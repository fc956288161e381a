-- ===== src/Control/Messages/Whole.antt =====
-- src/control.rs: what the daemon reads in the message of a call, for all calls at once.
use mathlib.Core.Option.{get_or}
use swupdate_rs.Common.{Bytes, ◌≡◌, ap, ◌∙◌, [], ◌%◌, ◌^◌, if◌then◌else◌, IsU32}
use swupdate_rs.Text.Lossy.{fit}
use swupdate_rs.Types.Request.Fields.{IsRequest, see, see-to_raw}
use swupdate_rs.Types.Source.{to_wire as source_to_wire}
use swupdate_rs.Types.RunMode.{to_wire as mode_to_wire}
use swupdate_rs.Types.SubprocessCmd.{to_wire as cmd_to_wire}
use swupdate_rs.Types.UpdateState.{to_wire as state_to_wire}
use swupdate_rs.Wire.Layout.Slots.{
  msg_head, instmsg_req, instmsg_len, procmsg_source, procmsg_cmd, procmsg_timeout, procmsg_len,
}
use swupdate_rs.Wire.Message.{read_slot, read_int}
use swupdate_rs.Wire.Message.Texts.{AllNames, AllSeen}
use swupdate_rs.Control.Messages.Formed.{Call, message_of}
use swupdate_rs.Control.Messages.Seen.{
  set_aes_key_fields, set_versions_range_fields, set_swupdate_var_fields, get_swupdate_var_fields,
  set_delta_url_fields, install_message-seen, set_update_state_message-seen,
  set_aes_key_message-seen, set_versions_range_message-seen, set_swupdate_var_message-seen,
  get_swupdate_var_message-seen, subprocess_cmd_message-seen, set_delta_url_message-seen,
}

-- The texts of the call are Rust texts without NUL, and a timeout has 32 bits.
abbrev pub IsPlain : Call → Type 0
IsPlain (Call.install req) = IsRequest req
IsPlain (Call.set_aes_key key iv) = AllNames (set_aes_key_fields key iv)
IsPlain (Call.set_versions_range minimum maximum current update_type) =
    AllNames (set_versions_range_fields minimum maximum current update_type)
IsPlain (Call.set_swupdate_var namespace name value) =
    AllNames (set_swupdate_var_fields namespace name value)
IsPlain (Call.get_swupdate_var namespace name) = AllNames (get_swupdate_var_fields namespace name)
IsPlain (Call.subprocess_cmd source cmd timeout) = IsU32 timeout
IsPlain (Call.set_delta_url filename url) = AllNames (set_delta_url_fields filename url)
IsPlain _ = Unit {0}

-- The daemon reads each argument of the call in its own field of the union.
abbrev pub Shows : Call → Bytes → Type 0
Shows (Call.install req) body =
    (see (read_slot instmsg_req body) ≡ record {
      apiversion = 1;
      source = source_to_wire req.source;
      dry_run = mode_to_wire req.mode;
      len = get_or req.len 0 % 2 ^ 64;
      info = fit 511 req.info;
      software_set = fit 255 (get_or req.software_set []);
      running_mode = fit 255 (get_or req.running_mode []);
      disable_store_swu = if req.store_swu then 0 else 1;
    })
    × (read_int instmsg_len body ≡ 0)
Shows (Call.set_update_state s) body = read_int msg_head body ≡ state_to_wire s
Shows (Call.set_aes_key key iv) body = AllSeen body (set_aes_key_fields key iv)
Shows (Call.set_versions_range minimum maximum current update_type) body =
    AllSeen body (set_versions_range_fields minimum maximum current update_type)
Shows (Call.set_swupdate_var namespace name value) body =
    AllSeen body (set_swupdate_var_fields namespace name value)
Shows (Call.get_swupdate_var namespace name) body =
    AllSeen body (get_swupdate_var_fields namespace name)
Shows (Call.subprocess_cmd source cmd timeout) body =
    (read_int procmsg_source body ≡ source_to_wire source)
    × (read_int procmsg_cmd body ≡ cmd_to_wire cmd)
    × (read_int procmsg_timeout body ≡ timeout)
    × (read_int procmsg_len body ≡ 0)
Shows (Call.set_delta_url filename url) body = AllSeen body (set_delta_url_fields filename url)
Shows _ body = Unit {0}

-- Whatever call of the control client, its texts Rust texts without NUL and its timeout of 32 bits:
-- the daemon reads in the message each argument in its own field. A text is cut to its field's size
-- less one, a state, a source and a subprocess command are their codes, the payload lengths of
-- SWUPDATE_SUBPROCESS and REQ_INSTALL are 0, and the request inside REQ_INSTALL has API version 1,
-- its length modulo 2 ^ 64 (0 if not given), empty texts for those not given, and the store flag
-- inverted.
pub message_of-seen : (c : Call) → IsPlain c → Shows c (message_of c).body
message_of-seen (Call.install req) h =
    let (request, payload) = install_message-seen req in
    (ap see request ∙ see-to_raw req h, payload)
message_of-seen (Call.set_update_state s) h = set_update_state_message-seen s
message_of-seen (Call.set_aes_key key iv) h = set_aes_key_message-seen key iv h
message_of-seen (Call.set_versions_range minimum maximum current update_type) h =
    set_versions_range_message-seen minimum maximum current update_type h
message_of-seen (Call.set_swupdate_var namespace name value) h =
    set_swupdate_var_message-seen namespace name value h
message_of-seen (Call.get_swupdate_var namespace name) h =
    get_swupdate_var_message-seen namespace name h
message_of-seen (Call.subprocess_cmd source cmd timeout) h =
    subprocess_cmd_message-seen source cmd timeout h
message_of-seen (Call.set_delta_url filename url) h = set_delta_url_message-seen filename url h
message_of-seen Call.get_status h = tt
message_of-seen Call.get_update_state h = tt
message_of-seen Call.post_update h = tt
message_of-seen Call.get_hw_revision h = tt
