-- ===== src/Control/Messages/Formed.antt =====
-- src/control.rs: the calls that send a message, and what the daemon needs to accept one.
use swupdate_rs.Wire.Layout.Slots.{procmsg_source, procmsg_cmd, procmsg_timeout, procmsg_len}
use swupdate_rs.Control.Messages.Seen.{
  set_aes_key_fields, set_versions_range_fields, set_swupdate_var_fields, get_swupdate_var_fields,
  set_delta_url_fields,
}
use swupdate_rs.Wire.Message.Texts.{texts}
use swupdate_rs.Wire.Message.Edits.{int}
use swupdate_rs.Wire.Message.Fields.{
  length-write_int, length-write_slot, write_int-IsByte, write_slot-IsByte,
}
use swupdate_rs.Wire.Layout.Slots.{msg_data_size, instmsg_req, instmsg_len, msg_head}
use swupdate_rs.Wire.Message.Edits.{
  Edit, IsEdit, perform_all, length-perform_all, perform_all-IsByte,
}
use swupdate_rs.Wire.Constants.{ipc_magic}
use swupdate_rs.Text.{Text, IsScalar}
use swupdate_rs.Control.Messages.{
  install_message, get_status_message, get_update_state_message, post_update_message,
  get_hw_revision_message, set_update_state_message, set_aes_key_message,
  set_versions_range_message, set_swupdate_var_message, get_swupdate_var_message,
  subprocess_cmd_message, set_delta_url_message,
}
use swupdate_rs.Types.Request.Fields.{HasTexts, to_raw-IsByte}
use swupdate_rs.Common.{
  ℕ, refl, Bytes, length, List, ◌<◌, All, ◌≡◌, ◌^◌, true, arith, replicate, some, IsByte, IsU32,
  ◌∙◌, length-replicate, All-replicate, [], ◌∷◌,
}
use swupdate_rs.Wire.MsgType as MsgType
use swupdate_rs.Wire.Message.{
  new, zeroed, is_valid, msg_type, RawIpcMessage, write_slot, IsMessage, write_int,
}
use swupdate_rs.Types.Source.{to_wire as source_to_wire, Source}
use swupdate_rs.Types.SubprocessCmd.{to_wire as cmd_to_wire, SubprocessCmd}
use swupdate_rs.Types.UpdateState.{to_wire as state_to_wire, UpdateState}
use swupdate_rs.Types.Request.{InstallRequest, to_raw}

-- A method of the control client that sends a message, with its arguments.
pub data Call : Type 0 where
  install : InstallRequest → Call
  get_status get_update_state post_update get_hw_revision : Call
  set_update_state : UpdateState → Call
  set_aes_key : (key iv : Text) → Call
  set_versions_range : (minimum maximum current update_type : Text) → Call
  set_swupdate_var : (namespace name value : Text) → Call
  get_swupdate_var : (namespace name : Text) → Call
  subprocess_cmd : Source → SubprocessCmd → ℕ → Call
  set_delta_url : (filename url : Text) → Call

abbrev pub message_of : Call → RawIpcMessage
message_of (install req) = install_message req
message_of get_status = get_status_message
message_of get_update_state = get_update_state_message
message_of post_update = post_update_message
message_of get_hw_revision = get_hw_revision_message
message_of (set_update_state state) = set_update_state_message state
message_of (set_aes_key key iv) = set_aes_key_message key iv
message_of (set_versions_range minimum maximum current update_type) =
    set_versions_range_message minimum maximum current update_type
message_of (set_swupdate_var namespace name value) = set_swupdate_var_message namespace name value
message_of (get_swupdate_var namespace name) = get_swupdate_var_message namespace name
message_of (subprocess_cmd source cmd timeout) = subprocess_cmd_message source cmd timeout
message_of (set_delta_url filename url) = set_delta_url_message filename url

-- The type that SWUpdate's protocol gives the call.
abbrev pub type_of : Call → MsgType.MsgType
type_of (install req) = MsgType.req_install
type_of get_status = MsgType.get_status
type_of get_update_state = MsgType.get_update_state
type_of post_update = MsgType.post_update
type_of get_hw_revision = MsgType.get_hw_revision
type_of (set_update_state state) = MsgType.set_update_state
type_of (set_aes_key key iv) = MsgType.set_aes_key
type_of (set_versions_range minimum maximum current update_type) = MsgType.set_versions_range
type_of (set_swupdate_var namespace name value) = MsgType.set_swupdate_vars
type_of (get_swupdate_var namespace name) = MsgType.get_swupdate_vars
type_of (subprocess_cmd source cmd timeout) = MsgType.swupdate_subprocess
type_of (set_delta_url filename url) = MsgType.set_delta_url

-- The arguments are values of their Rust types.
abbrev pub IsCall : Call → Type 0
IsCall (install req) = HasTexts req
IsCall (set_aes_key key iv) = All IsScalar key × All IsScalar iv
IsCall (set_versions_range minimum maximum current update_type) =
    All IsScalar minimum × All IsScalar maximum × All IsScalar current × All IsScalar update_type
IsCall (set_swupdate_var namespace name value) =
    All IsScalar namespace × All IsScalar name × All IsScalar value
IsCall (get_swupdate_var namespace name) = All IsScalar namespace × All IsScalar name
IsCall (subprocess_cmd source cmd timeout) = IsU32 timeout
IsCall (set_delta_url filename url) = All IsScalar filename × All IsScalar url
IsCall _ = Unit {0}

-- What the daemon needs to accept the message `m` as one of type `t`.
abbrev pub Accepted : MsgType.MsgType → RawIpcMessage → Type 0
Accepted t m = IsMessage m × (is_valid m ≡ true) × (msg_type m ≡ some t)

abbrev pub with_body : MsgType.MsgType → Bytes → RawIpcMessage
with_body t body = record { magic = ipc_magic; msg_type = MsgType.as_i32 t; body = body }

as_i32-lt : (t : MsgType.MsgType) → MsgType.as_i32 t < 2 ^ 32
unfolding MsgType.as_i32
as_i32-lt t = ground arith

with_body-Accepted :
    (t : MsgType.MsgType) (body : Bytes)
    → length body ≡ msg_data_size
    → All IsByte body
    → Accepted t (with_body t body)
unfolding is_valid msg_type
with_body-Accepted t body h b = (
  record { magic_fits = omega arith; msg_type_fits = as_i32-lt t; body_size = h; body_bytes = b },
  refl,
  MsgType.from_i32-as_i32 t,
)

pub edited-Accepted :
    (t : MsgType.MsgType) (es : List Edit)
    → All IsEdit es
    → Accepted t (with_body t (perform_all es (replicate msg_data_size 0)))
edited-Accepted t es h =
    with_body-Accepted t (perform_all es (replicate msg_data_size 0))
      (length-perform_all es (replicate msg_data_size 0) ∙ length-replicate {A = ℕ} msg_data_size 0)
      (perform_all-IsByte es (replicate msg_data_size 0) h
        (All-replicate IsByte msg_data_size 0 (omega arith)))

install-Accepted :
    (req : InstallRequest) → HasTexts req → Accepted MsgType.req_install (install_message req)
unfolding install_message new zeroed
install-Accepted req h =
    let requested = write_slot instmsg_req (to_raw req) (replicate msg_data_size 0) in
    with_body-Accepted MsgType.req_install (write_int instmsg_len 0 requested)
      (length-write_int instmsg_len 0 requested
        ∙ length-write_slot instmsg_req (to_raw req) (replicate msg_data_size 0)
        ∙ length-replicate {A = ℕ} msg_data_size 0)
      (write_int-IsByte instmsg_len 0 requested (
        write_slot-IsByte instmsg_req (to_raw req) (replicate msg_data_size 0) (to_raw-IsByte req h)
          (All-replicate IsByte msg_data_size 0 (omega arith))))

-- Whatever call of the control client with arguments of their Rust types: its message is
-- well-formed, has the magic, and is of the call's type.
pub message_of-Accepted : (c : Call) → IsCall c → Accepted (type_of c) (message_of c)
unfolding get_status_message get_update_state_message post_update_message get_hw_revision_message
    set_update_state_message set_aes_key_message set_versions_range_message set_swupdate_var_message
    get_swupdate_var_message subprocess_cmd_message set_delta_url_message new zeroed
message_of-Accepted (install req) h = install-Accepted req h
message_of-Accepted get_status h = edited-Accepted MsgType.get_status [] tt
message_of-Accepted get_update_state h = edited-Accepted MsgType.get_update_state [] tt
message_of-Accepted post_update h = edited-Accepted MsgType.post_update [] tt
message_of-Accepted get_hw_revision h = edited-Accepted MsgType.get_hw_revision [] tt
message_of-Accepted (set_update_state state) h =
    edited-Accepted MsgType.set_update_state (int msg_head (state_to_wire state) ∷ []) (tt, tt)
message_of-Accepted (set_aes_key key iv) (hk, hi) =
    edited-Accepted MsgType.set_aes_key (texts (set_aes_key_fields key iv)) (hk, (hi, tt))
message_of-Accepted (set_versions_range minimum maximum current update_type) (h1, h2, h3, h4) =
    edited-Accepted MsgType.set_versions_range
      (texts (set_versions_range_fields minimum maximum current update_type))
      (h1, (h2, (h3, (h4, tt))))
message_of-Accepted (set_swupdate_var namespace name value) (h1, h2, h3) =
    edited-Accepted MsgType.set_swupdate_vars (texts (set_swupdate_var_fields namespace name value))
      (h1, (h2, (h3, tt)))
message_of-Accepted (get_swupdate_var namespace name) (h1, h2) =
    edited-Accepted MsgType.get_swupdate_vars (texts (get_swupdate_var_fields namespace name))
      (h1, (h2, tt))
message_of-Accepted (subprocess_cmd source cmd timeout) h =
    edited-Accepted MsgType.swupdate_subprocess
      (int procmsg_source (source_to_wire source)
        ∷ int procmsg_cmd (cmd_to_wire cmd)
        ∷ int procmsg_timeout timeout
        ∷ int procmsg_len 0
        ∷ [])
      (tt, (tt, (tt, (tt, tt))))
message_of-Accepted (set_delta_url filename url) (h1, h2) =
    edited-Accepted MsgType.set_delta_url (texts (set_delta_url_fields filename url)) (h1, (h2, tt))
