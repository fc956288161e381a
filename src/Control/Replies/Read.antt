-- ===== src/Control/Replies/Read.antt =====
-- src/control.rs: what the client reads in an answer, and in the body of its own commands.
use swupdate_rs.Text.Lossy.{fit}
use swupdate_rs.Control.Messages.Seen.{
  set_update_state_message-seen, set_swupdate_var_fields, set_swupdate_var_message-seen,
}
use swupdate_rs.Wire.Message.Texts.{AllNames}
use swupdate_rs.Control.Messages.{set_update_state_message, set_swupdate_var_message}
use swupdate_rs.Text.{Text}
use swupdate_rs.Wire.Layout.Slots.{status_error, status_current, status_desc, status_last_result}
use swupdate_rs.Types.Responses.{UpdateStatus}
use swupdate_rs.Types.UpdateState.{UpdateState}
use swupdate_rs.Control.Replies.{update_status, swupdate_var, status_of, update_state, or_invalid}
use swupdate_rs.Common.{none, ℕ, ◌≡◌, ap, ◌∙◌, ◌↔◌, some, Option}
use swupdate_rs.Error.{ok}
use swupdate_rs.Types.RecoveryStatus.{RecoveryStatus, from_wire}
use swupdate_rs.Types.UpdateState as UpdateState
use swupdate_rs.Wire.Message.{RawIpcMessage, read_int, read_cstr_at}

status_of_iff :
    (a b : Option RecoveryStatus) (t u : Text) (m n error : ℕ) (desc : Text) (status : UpdateStatus)
    → (status_of (or_invalid a t m) (or_invalid b u n) error desc ≡ ok status) ↔ (
        (a ≡ some status.current)
        × (b ≡ some status.last_result)
        × (error ≡ status.error)
        × (desc ≡ status.description))
unfolding status_of or_invalid
status_of_iff none b t u m n error desc status = (λ h. cc, λ h. cc h.0)
status_of_iff (some a) none t u m n error desc status = (λ h. cc, λ h. cc h.1)
status_of_iff (some a) (some b) t u m n error desc status =
    (λ h. (cc, cc, cc, cc), λ h. cc (h.0, h.1, h.2, h.3))

-- A status is read exactly in an answer whose two codes stand for statuses: it holds these, and
-- the error and the description of the answer.
pub update_status_iff :
    (resp : RawIpcMessage) (status : UpdateStatus)
    → (update_status resp ≡ ok status) ↔ (
        (from_wire (read_int status_current resp.body) ≡ some status.current)
        × (from_wire (read_int status_last_result resp.body) ≡ some status.last_result)
        × (read_int status_error resp.body ≡ status.error)
        × (read_cstr_at status_desc resp.body ≡ status.description))
unfolding update_status
update_status_iff resp status = status_of_iff _ _ _ _ _ _ _ _ status

state_of_iff :
    (a : Option UpdateState.UpdateState) (t : Text) (v : ℕ) (state : UpdateState.UpdateState)
    → (or_invalid a t v ≡ ok state) ↔ (a ≡ some state)
unfolding or_invalid
state_of_iff none t v state = (λ h. cc, λ h. cc)
state_of_iff (some a) t v state = (λ h. cc, λ h. cc)

-- A daemon that answers with the body of SET_UPDATE_STATE gives back the state that was set.
pub update_state-set_update_state_message :
    (state : UpdateState.UpdateState) → update_state (set_update_state_message state) ≡ ok state
unfolding update_state
update_state-set_update_state_message state = (state_of_iff _ _ _ state).1 (
    ap UpdateState.from_wire (set_update_state_message-seen state)
    ∙ UpdateState.from_wire-to_wire state)

-- A variable that the daemon answers with the body of SET_SWUPDATE_VARS is the one that was set,
-- its texts cut to the 255 bytes of a field, where they are Rust texts without NUL.
pub swupdate_var-set_swupdate_var_message :
    (namespace name value : Text)
    → AllNames (set_swupdate_var_fields namespace name value)
    → swupdate_var (set_swupdate_var_message namespace name value)
      ≡ record { namespace = fit 255 namespace; name = fit 255 name; value = fit 255 value }
unfolding swupdate_var
swupdate_var-set_swupdate_var_message namespace name value h =
    let (spaced, (named, (valued, t))) = set_swupdate_var_message-seen namespace name value h in
    cc (spaced, named, valued)
