-- ===== src/Control/Calls/Store.antt =====
-- src/control.rs: what is set on a daemon that keeps it is what the client gets back.
use swupdate_rs.Common.{◌≡◌, refl, ap, ◌∙◌, some, [], ◌∷◌}
use swupdate_rs.Error.{ok}
use swupdate_rs.Runtime.{Runtime}
use swupdate_rs.Text.{Text}
use swupdate_rs.Text.Lossy.{fit}
use swupdate_rs.Types.UpdateState.{UpdateState}
use swupdate_rs.Wire.Message.{RawIpcMessage, msg_type}
use swupdate_rs.Wire.Message.Texts.{AllNames}
use swupdate_rs.Wire.MsgType.{ack}
use swupdate_rs.Control.Client.{ControlClient}
use swupdate_rs.Control.Messages.{
  set_update_state_message, get_update_state_message, set_swupdate_var_message,
  get_swupdate_var_message,
}
use swupdate_rs.Control.Messages.Seen.{set_swupdate_var_fields}
use swupdate_rs.Control.Messages.Formed as Call
use swupdate_rs.Control.Replies.{update_state, swupdate_var, expect_ack}
use swupdate_rs.Control.Replies.Read.{
  update_state-set_update_state_message, swupdate_var-set_swupdate_var_message,
}
use swupdate_rs.Control.Calls.{
  acknowledged, state, var, Daemon, Carries, session, replay, ask, read_answer, mapped,
}
use swupdate_rs.Control.Calls.Refines.{session-Agrees}

-- The daemon acknowledges a message that sets a value, and answers the next message that asks for
-- it by the body of the first.
pub record Keeps (D : Daemon) (set get : RawIpcMessage) : Type 0 where
  pub confirmed : (d : D.State) → msg_type (D.respond set d).0 ≡ some ack
  pub given_back : (d : D.State) → (D.respond get (D.respond set d).1).0.body ≡ set.body

-- The two reads, in the body alone.
swupdate_var-body : (m n : RawIpcMessage) → m.body ≡ n.body → swupdate_var m ≡ swupdate_var n
unfolding swupdate_var
swupdate_var-body m n e =
    ap (λ body. swupdate_var (record { magic = 0; msg_type = 0; body = body })) e

update_state-body : (m n : RawIpcMessage) → m.body ≡ n.body → update_state m ≡ update_state n
unfolding update_state
update_state-body m n e =
    ap (λ body. update_state (record { magic = 0; msg_type = 0; body = body })) e

confirmed_ok :
    (m : RawIpcMessage)
    → msg_type m ≡ some ack
    → mapped (λ u. acknowledged) (expect_ack (msg_type m)) ≡ ok acknowledged
unfolding expect_ack
confirmed_ok m e = rw e refl

module _ (R : Runtime) (D : Daemon) (V : Carries R D) (c : ControlClient R) where
  -- Over a runtime that carries messages to a daemon and back, with no bytes under way, where the
  -- daemon acknowledges the message that sets a variable and answers the next request for it by the
  -- body of that message: a client that sets the variable, its texts Rust texts without NUL, and
  -- then asks for it, gets an acknowledgement and then the variable, with its texts cut to the 255
  -- bytes of their fields.
  pub session-set_swupdate_var :
      (namespace name value : Text) (w : R.World)
      → Keeps D
          (set_swupdate_var_message namespace name value)
          (get_swupdate_var_message namespace name)
      → AllNames (set_swupdate_var_fields namespace name value)
      → V.Quiet w
      → (session R c
          (Call.set_swupdate_var namespace name value ∷ Call.get_swupdate_var namespace name ∷ [])
          w).0
        ≡ ok acknowledged
          ∷ ok (
              var (record {
                namespace = fit 255 namespace;
                name = fit 255 name;
                value = fit 255 value;
              }))
          ∷ []
  unfolding replay ask read_answer
  session-set_swupdate_var namespace name value w k (ns, (nm, (vl, t))) q =
      let agrees =
        session-Agrees R D V c
          (Call.set_swupdate_var namespace name value ∷ Call.get_swupdate_var namespace name ∷ []) w
          ((ns.0, nm.0, vl.0), ((ns.0, nm.0), tt)) q in
      let (m, d) = D.respond (set_swupdate_var_message namespace name value) (V.view w) in
      let reply = (D.respond (get_swupdate_var_message namespace name) d).0 in
      let back =
        swupdate_var-body reply (set_swupdate_var_message namespace name value)
          (k.given_back (V.view w)) in
      agrees.same_result
      ∙ ap (λ r. r ∷ ok (var (swupdate_var reply)) ∷ []) (confirmed_ok m (k.confirmed (V.view w)))
      ∙ ap (λ v. ok acknowledged ∷ ok (var v) ∷ [])
          (back ∙ swupdate_var-set_swupdate_var_message namespace name value (ns, (nm, (vl, t))))

  -- Where the daemon keeps the update state: a client that sets one and then asks for it gets an
  -- acknowledgement and then that state.
  pub session-set_update_state :
      (s : UpdateState) (w : R.World)
      → Keeps D (set_update_state_message s) get_update_state_message
      → V.Quiet w
      → (session R c (Call.set_update_state s ∷ Call.get_update_state ∷ []) w).0
        ≡ ok acknowledged ∷ ok (state s) ∷ []
  unfolding replay ask read_answer
  session-set_update_state s w k q =
      let agrees =
        session-Agrees R D V c (Call.set_update_state s ∷ Call.get_update_state ∷ []) w
          (tt, (tt, tt)) q in
      let (m, d) = D.respond (set_update_state_message s) (V.view w) in
      let reply = (D.respond get_update_state_message d).0 in
      let back = update_state-body reply (set_update_state_message s) (k.given_back (V.view w)) in
      agrees.same_result
      ∙ ap (λ r. r ∷ mapped state (update_state reply) ∷ [])
          (confirmed_ok m (k.confirmed (V.view w)))
      ∙ ap (λ r. ok acknowledged ∷ mapped state r ∷ [])
          (back ∙ update_state-set_update_state_message s)
