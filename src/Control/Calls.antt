-- ===== src/Control/Calls.antt =====
-- src/control.rs: the methods of the control client as one action on a call, what a call's answer
-- is, and a daemon as a function on messages.
pub mod Refines
pub mod Serving
pub mod Spends
pub mod Store
use swupdate_rs.Control.Client.Laws.{Exchange}
use swupdate_rs.Control.Replies.{update_status, update_state, hw_revision, swupdate_var, expect_ack}
use swupdate_rs.Types.UpdateState.{UpdateState}
use swupdate_rs.Types.Responses.{UpdateStatus, HwRevision, SwupdateVar}
use swupdate_rs.Wire.Message.{RawIpcMessage, IsMessage, ipc_message_to_bytes, msg_type}
use swupdate_rs.Common.{ℕ, List, [], ◌∷◌, ◌≡◌}
use swupdate_rs.Error.{Result, ok, err, Action, pure, ◌>>=◌, ◌>>◌}
use swupdate_rs.Runtime.{Runtime}
use swupdate_rs.Control.Messages.Formed.{Call, message_of}
use swupdate_rs.Control.Messages.Formed as Call
use swupdate_rs.Control.Client.{
  ControlClient, get_status, get_update_state, set_update_state, post_update, set_aes_key,
  set_versions_range, get_hw_revision, set_swupdate_var, get_swupdate_var, subprocess_cmd,
  set_delta_url,
}
use swupdate_rs.Control.Install.{install}

-- What a method returns.
pub data Answer : Type 0 where
  acknowledged : Answer
  status : UpdateStatus → Answer
  state : UpdateState → Answer
  revision : HwRevision → Answer
  var : SwupdateVar → Answer

module _ (R : Runtime) where
  unfoldable pub perform : ControlClient R → Call → Action R.World Answer
  unfolding install set_update_state post_update set_aes_key set_versions_range set_swupdate_var
      subprocess_cmd set_delta_url get_status get_update_state get_hw_revision get_swupdate_var
  perform c (Call.install req) = do install R c req; pure acknowledged
  perform c Call.get_status = do s ← get_status R c; pure (status s)
  perform c Call.get_update_state = do s ← get_update_state R c; pure (state s)
  perform c Call.post_update = do post_update R c; pure acknowledged
  perform c Call.get_hw_revision = do r ← get_hw_revision R c; pure (revision r)
  perform c (Call.set_update_state s) = do set_update_state R c s; pure acknowledged
  perform c (Call.set_aes_key key iv) = do set_aes_key R c key iv; pure acknowledged
  perform c (Call.set_versions_range minimum maximum current update_type) = do
    set_versions_range R c minimum maximum current update_type
    pure acknowledged
  perform c (Call.set_swupdate_var namespace name value) = do
    set_swupdate_var R c namespace name value
    pure acknowledged
  perform c (Call.get_swupdate_var namespace name) = do
    v ← get_swupdate_var R c namespace name
    pure (var v)
  perform c (Call.subprocess_cmd source cmd timeout) = do
    subprocess_cmd R c source cmd timeout
    pure acknowledged
  perform c (Call.set_delta_url filename url) = do set_delta_url R c filename url; pure acknowledged

  -- A client's calls one after the other, whatever they return.
  unfoldable pub session : ControlClient R → List Call → R.World → List (Result Answer) × R.World
  unfolding perform
  session c [] w = ([], w)
  session c (call ∷ calls) w =
      let (r, w1) = perform c call w in let (rs, w2) = session c calls w1 in (r ∷ rs, w2)

-- What is read of the message that answers a call.
abbrev pub mapped : {A B : Type 0} → (A → B) → Result A → Result B
mapped f (ok a) = ok (f a)
mapped f (err e) = err e

unfoldable pub read_answer : Call → RawIpcMessage → Result Answer
read_answer Call.get_status reply = mapped status (update_status reply)
read_answer Call.get_update_state reply = mapped state (update_state reply)
read_answer Call.get_hw_revision reply = ok (revision (hw_revision reply))
read_answer (Call.get_swupdate_var namespace name) reply = ok (var (swupdate_var reply))
read_answer _ reply = mapped (λ u. acknowledged) (expect_ack (msg_type reply))

-- A daemon: it answers each message by one, from a state of its own.
pub record Daemon : Type 1 where
  pub State : Type 0
  pub respond : RawIpcMessage → State → RawIpcMessage × State
  pub respond-IsMessage : (m : RawIpcMessage) (d : State) → IsMessage m → IsMessage (respond m d).0

module _ (D : Daemon) where
  -- A call, made on the daemon itself.
  unfoldable pub ask : Call → D.State → Result Answer × D.State
  unfolding read_answer
  ask call d = let (reply, d') = D.respond (message_of call) d in (read_answer call reply, d')

  unfoldable pub replay : List Call → D.State → List (Result Answer) × D.State
  unfolding ask
  replay [] d = ([], d)
  replay (call ∷ calls) d =
      let (r, d1) = ask call d in let (rs, d2) = replay calls d1 in (r ∷ rs, d2)

-- The runtime carries messages to the daemon and its answers back: between two calls, whenever a
-- well-formed message is written, the answer can be read, and the daemon has moved on.
pub record Carries (R : Runtime) (D : Daemon) : Type 1 where
  pub view : R.World → D.State
  -- No bytes are under way.
  pub Quiet : R.World → Type 0
  pub carried :
      (c : ControlClient R) (msg : RawIpcMessage) (w : R.World)
      → IsMessage msg
      → Quiet w
      → (w' : R.World) × Exchange R c msg w (ipc_message_to_bytes (D.respond msg (view w)).0) w'
        × (view w' ≡ (D.respond msg (view w)).1)
        × Quiet w'
