-- ===== src/Control/Messages/Seen.antt =====
-- src/control.rs: the fields that the daemon reads in the messages of the client.
use swupdate_rs.Common.{
  ◌<◌, ◌≡◌, [], ◌∷◌, List, replicate, take, drop, arith, ◌^◌, ℕ, IsU32, length-replicate, ◌∙◌,
}
use swupdate_rs.Text.{Text}
use swupdate_rs.Wire.Layout.{Slot}
use swupdate_rs.Wire.Layout.Slots.{
  msg_data_size, vars_varnamespace, vars_varname, vars_varvalue, dwl_url_filename,
  aeskeymsg_key_ascii, versions_minimum_version, aeskeymsg_ivt_ascii, dwl_url_url,
  versions_maximum_version, versions_current_version, versions_update_type, instmsg_req, msg_head,
  procmsg_source, instmsg_len, procmsg_cmd, procmsg_timeout, procmsg_len,
}
use swupdate_rs.Wire.Message.{read_slot, read_int}
use swupdate_rs.Wire.Message.Edits.{Edit, int, read_int-perform_all}
use swupdate_rs.Wire.Message.Fields.{
  read_slot-write_int_ne, read_slot-write_slot_self, read_int-write_int_self, length-write_slot,
}
use swupdate_rs.Wire.Message.Texts.{texts-seen, AllNames, AllSeen}
use swupdate_rs.Types.Source.{Source, to_wire as source_to_wire}
use swupdate_rs.Types.SubprocessCmd.{SubprocessCmd, to_wire as cmd_to_wire}
use swupdate_rs.Types.UpdateState.{UpdateState, to_wire as state_to_wire}
use swupdate_rs.Types.Request.{InstallRequest, to_raw}
use swupdate_rs.Types.Request.Fields.{length-to_raw}
use swupdate_rs.Control.Messages.{
  set_swupdate_var_message, set_versions_range_message, set_aes_key_message,
  get_swupdate_var_message, set_delta_url_message, subprocess_cmd_message, set_update_state_message,
  install_message,
}

-- The fields of SET_AES_KEY, with their texts.
abbrev pub set_aes_key_fields : (key iv : Text) → List (Slot × Text)
set_aes_key_fields key iv = (aeskeymsg_key_ascii, key) ∷ (aeskeymsg_ivt_ascii, iv) ∷ []

-- The fields of SET_VERSIONS_RANGE, with their texts.
abbrev pub set_versions_range_fields :
    (minimum maximum current update_type : Text) → List (Slot × Text)
set_versions_range_fields minimum maximum current update_type =
    (versions_minimum_version, minimum)
    ∷ (versions_maximum_version, maximum)
    ∷ (versions_current_version, current)
    ∷ (versions_update_type, update_type)
    ∷ []

-- The fields of SET_SWUPDATE_VARS, with their texts.
abbrev pub set_swupdate_var_fields : (namespace name value : Text) → List (Slot × Text)
set_swupdate_var_fields namespace name value =
    (vars_varnamespace, namespace) ∷ (vars_varname, name) ∷ (vars_varvalue, value) ∷ []

-- The fields of GET_SWUPDATE_VARS, with their texts.
abbrev pub get_swupdate_var_fields : (namespace name : Text) → List (Slot × Text)
get_swupdate_var_fields namespace name = (vars_varnamespace, namespace) ∷ (vars_varname, name) ∷ []

-- The fields of SET_DELTA_URL, with their texts.
abbrev pub set_delta_url_fields : (filename url : Text) → List (Slot × Text)
set_delta_url_fields filename url = (dwl_url_filename, filename) ∷ (dwl_url_url, url) ∷ []

-- In SET_AES_KEY the daemon reads each text in its own field, cut to the field's size less one,
-- where the texts are Rust texts without NUL.
pub set_aes_key_message-seen :
    (key iv : Text)
    → AllNames (set_aes_key_fields key iv)
    → AllSeen (set_aes_key_message key iv).body (set_aes_key_fields key iv)
unfolding set_aes_key_message
set_aes_key_message-seen key iv h =
    texts-seen msg_data_size (set_aes_key_fields key iv) (omega arith) h

-- In SET_VERSIONS_RANGE the daemon reads each text in its own field, cut to the field's size less
-- one, where the texts are Rust texts without NUL.
pub set_versions_range_message-seen :
    (minimum maximum current update_type : Text)
    → AllNames (set_versions_range_fields minimum maximum current update_type)
    → AllSeen
        (set_versions_range_message minimum maximum current update_type).body
        (set_versions_range_fields minimum maximum current update_type)
unfolding set_versions_range_message
set_versions_range_message-seen minimum maximum current update_type h =
    texts-seen msg_data_size (set_versions_range_fields minimum maximum current update_type)
      (omega arith) h

-- In SET_SWUPDATE_VARS the daemon reads each text in its own field, cut to the field's size less
-- one, where the texts are Rust texts without NUL.
pub set_swupdate_var_message-seen :
    (namespace name value : Text)
    → AllNames (set_swupdate_var_fields namespace name value)
    → AllSeen
        (set_swupdate_var_message namespace name value).body
        (set_swupdate_var_fields namespace name value)
unfolding set_swupdate_var_message
set_swupdate_var_message-seen namespace name value h =
    texts-seen msg_data_size (set_swupdate_var_fields namespace name value) (omega arith) h

-- In GET_SWUPDATE_VARS the daemon reads each text in its own field, cut to the field's size less
-- one, where the texts are Rust texts without NUL.
pub get_swupdate_var_message-seen :
    (namespace name : Text)
    → AllNames (get_swupdate_var_fields namespace name)
    → AllSeen
        (get_swupdate_var_message namespace name).body
        (get_swupdate_var_fields namespace name)
unfolding get_swupdate_var_message
get_swupdate_var_message-seen namespace name h =
    texts-seen msg_data_size (get_swupdate_var_fields namespace name) (omega arith) h

-- In SET_DELTA_URL the daemon reads each text in its own field, cut to the field's size less one,
-- where the texts are Rust texts without NUL.
pub set_delta_url_message-seen :
    (filename url : Text)
    → AllNames (set_delta_url_fields filename url)
    → AllSeen (set_delta_url_message filename url).body (set_delta_url_fields filename url)
unfolding set_delta_url_message
set_delta_url_message-seen filename url h =
    texts-seen msg_data_size (set_delta_url_fields filename url) (omega arith) h

state_fits : (state : UpdateState) → state_to_wire state < 2 ^ 32
unfolding state_to_wire
state_fits state = ground arith

source_fits : (source : Source) → source_to_wire source < 2 ^ 32
unfolding source_to_wire
source_fits source = ground arith

cmd_fits : (cmd : SubprocessCmd) → cmd_to_wire cmd < 2 ^ 32
unfolding cmd_to_wire
cmd_fits cmd = ground arith

-- The code of the state in SET_UPDATE_STATE.
pub set_update_state_message-seen :
    (state : UpdateState)
    → read_int msg_head (set_update_state_message state).body ≡ state_to_wire state
unfolding set_update_state_message
set_update_state_message-seen state =
    read_int-perform_all msg_data_size msg_head [] [] (state_to_wire state) (omega arith)
      (state_fits state) tt tt

-- In SWUPDATE_SUBPROCESS with a timeout of 32 bits the daemon reads the codes of the source and the
-- command, the timeout, and a payload length of 0.
pub subprocess_cmd_message-seen :
    (source : Source) (cmd : SubprocessCmd) (timeout : ℕ)
    → IsU32 timeout
    → let body = (subprocess_cmd_message source cmd timeout).body in
      (read_int procmsg_source body ≡ source_to_wire source)
      × (read_int procmsg_cmd body ≡ cmd_to_wire cmd)
      × (read_int procmsg_timeout body ≡ timeout)
      × (read_int procmsg_len body ≡ 0)
unfolding subprocess_cmd_message
subprocess_cmd_message-seen source cmd timeout h =
    let es : List Edit =
      int procmsg_source (source_to_wire source)
      ∷ int procmsg_cmd (cmd_to_wire cmd)
      ∷ int procmsg_timeout timeout
      ∷ int procmsg_len 0
      ∷ [] in
    (
      read_int-perform_all msg_data_size procmsg_source (take 0 es) (drop 1 es) _ (omega arith)
          (source_fits source) (omega arith) (omega arith),
      read_int-perform_all msg_data_size procmsg_cmd (take 1 es) (drop 2 es) _ (omega arith)
          (cmd_fits cmd) (omega arith) (omega arith),
      read_int-perform_all msg_data_size procmsg_timeout (take 2 es) (drop 3 es) _ (omega arith) h
          (omega arith) (omega arith),
      read_int-perform_all msg_data_size procmsg_len (take 3 es) (drop 4 es) _ (omega arith)
          (omega arith) (omega arith) (omega arith),
    )

-- The request inside REQ_INSTALL, and its empty payload.
requested : (req : InstallRequest) → read_slot instmsg_req (install_message req).body ≡ to_raw req
unfolding install_message
requested req =
    read_slot-write_int_ne instmsg_req instmsg_len 0 _ (omega arith)
    ∙ read_slot-write_slot_self instmsg_req (to_raw req) _ (length-to_raw req)
        (omega (arith, length-replicate {0} {A = ℕ} msg_data_size 0))

-- In REQ_INSTALL the daemon finds the request that `to_raw` wrote, and a payload length of 0.
pub install_message-seen :
    (req : InstallRequest)
    → (read_slot instmsg_req (install_message req).body ≡ to_raw req)
      × (read_int instmsg_len (install_message req).body ≡ 0)
unfolding install_message
install_message-seen req = (
  requested req,
  read_int-write_int_self instmsg_len 0 _
      (omega (
        arith,
        length-write_slot instmsg_req (to_raw req) (replicate msg_data_size 0),
        length-replicate {0} {A = ℕ} msg_data_size 0,
      ))
      (omega arith),
)
