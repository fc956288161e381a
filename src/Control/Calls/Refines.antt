-- ===== src/Control/Calls/Refines.antt =====
-- src/control.rs: calls over a runtime against the same calls on the daemon itself.
use mathlib.Core.Path.{subst}
use swupdate_rs.Control.Install.{Installation}
use swupdate_rs.Control.Messages.{install_message}
use swupdate_rs.Types.Request.{InstallRequest}
use swupdate_rs.Wire.Message.Serial.{ipc_message_from_bytes-to_bytes}
use swupdate_rs.Control.Replies.{expect_ack, update_status, update_state, hw_revision, swupdate_var}
use swupdate_rs.Wire.Message.{RawIpcMessage, IsMessage, msg_type}
use swupdate_rs.Common.{refl, ap, ◌≡◌, ◌∙◌, List, [], ◌∷◌, sym}
use swupdate_rs.Error.{Result, ok, err, continue, pure}
use swupdate_rs.Runtime.{Runtime}
use swupdate_rs.Control.Client.{ControlClient, send_and_receive, send_and_expect_ack}
use swupdate_rs.Control.Messages.Formed.{Call, IsCall, message_of, message_of-Accepted}
use swupdate_rs.Control.Messages.Formed as Call
use swupdate_rs.Control.Calls.{
  status, state, revision, var, acknowledged, perform, session, Answer, mapped, Daemon, Carries,
  read_answer, ask, replay,
}

-- The end of a method, as a result.
returned :
    {A W : Type 0} (f : A → Answer) (r : Result A) (w : W)
    → continue (r, w) (λ a. pure (f a)) ≡ (mapped f r, w)
returned f (ok a) w = refl
returned f (err e) w = refl

module _ (R : Runtime) (D : Daemon) (V : Carries R D) (c : ControlClient R) where
  -- The outcome is that of the daemon, and so is the state that is left.
  pub record Agrees {A : Type 0} (out : A × R.World) (spec : A × D.State) : Type 0 where
    pub same_result : out.0 ≡ spec.0
    pub same_state : V.view out.1 ≡ spec.1
    pub quiet : V.Quiet out.1

  agrees :
      {A : Type 0} {out : A × R.World} (r : A) (w' : R.World) (d' : D.State)
      → out ≡ (r, w')
      → (V.view w' ≡ d') × V.Quiet w'
      → Agrees out (r, d')
  agrees r w' d' e (q, k) = record {
    same_result = ap (λ o. o.0) e;
    same_state = ap (λ o. V.view o.1) e ∙ q;
    quiet = subst (λ o. V.Quiet o.1) (sym e) k;
  }

  received :
      (msg : RawIpcMessage) (w : R.World)
      → IsMessage msg
      → V.Quiet w
      → (w' : R.World) × (send_and_receive R c msg w ≡ (ok (D.respond msg (V.view w)).0, w'))
        × ((V.view w' ≡ (D.respond msg (V.view w)).1) × V.Quiet w')
  unfolding send_and_receive
  received msg w h k =
      let (w', x, q, k') = V.carried c msg w h k in
      let read =
        ipc_message_from_bytes-to_bytes (D.respond msg (V.view w)).0
          (D.respond-IsMessage msg (V.view w) h) in
      (w', rw x.written (rw x.answered (rw read)), (q, k'))

  expected :
      (msg : RawIpcMessage) (w : R.World)
      → IsMessage msg
      → V.Quiet w
      → (w' : R.World) × (send_and_expect_ack R c msg w
          ≡ (expect_ack (msg_type (D.respond msg (V.view w)).0), w'))
        × ((V.view w' ≡ (D.respond msg (V.view w)).1) × V.Quiet w')
  unfolding send_and_expect_ack
  expected msg w h k = let (w', e, q) = received msg w h k in (w', rw e, q)

  -- A method that expects an acknowledgement.
  acked :
      (msg : RawIpcMessage) (w : R.World)
      → IsMessage msg
      → V.Quiet w
      → Agrees (continue (send_and_expect_ack R c msg w) (λ u. pure acknowledged)) (
        mapped (λ u. acknowledged) (expect_ack (msg_type (D.respond msg (V.view w)).0)),
        (D.respond msg (V.view w)).1,
      )
  acked msg w h k =
      let (w', e, q) = expected msg w h k in
      let r = expect_ack (msg_type (D.respond msg (V.view w)).0) in
      let same : continue (send_and_expect_ack R c msg w) (λ u. pure acknowledged)
          ≡ (mapped (λ u. acknowledged) r, w') =
        rw e (returned (λ u. acknowledged) r w') in
      agrees (mapped (λ u. acknowledged) r) w' _ same q

  -- A method that reads a result in the answer.
  answered :
      {A : Type 0} (read : RawIpcMessage → Result A) (f : A → Answer) (msg : RawIpcMessage)
      (w : R.World)
      → IsMessage msg
      → V.Quiet w
      → Agrees
          (continue
            (continue (send_and_receive R c msg w) (λ resp w1. (read resp, w1)))
            (λ a. pure (f a)))
          (mapped f (read (D.respond msg (V.view w)).0), (D.respond msg (V.view w)).1)
  answered read f msg w h k =
      let (w', e, q) = received msg w h k in
      agrees _ w' _ (rw e (returned f (read (D.respond msg (V.view w)).0) w')) q

  installed :
      (req : InstallRequest) (w : R.World)
      → IsMessage (install_message req)
      → V.Quiet w
      → Agrees (perform R c (Call.install req) w) (ask D (Call.install req) (V.view w))
  unfolding perform ask read_answer
  installed req w h k =
      let (w', e, q) = expected (install_message req) w h k in
      agrees _ w' _
        (rw e (twice (expect_ack (msg_type (D.respond (install_message req) (V.view w)).0)) w')) q
    where
      twice :
          (r : Result (Unit {0})) (w' : R.World)
          → continue
              (continue (r, w') (λ u. pure (let i : Installation R = record { client = c } in i)))
              (λ i. pure acknowledged)
            ≡ (mapped (λ u. acknowledged) r, w')
      twice (ok u) w' = refl
      twice (err e) w' = refl

  -- A call on its own.
  pub perform-Agrees :
      (call : Call.Call) (w : R.World)
      → IsCall call
      → V.Quiet w
      → Agrees (perform R c call w) (ask D call (V.view w))
  unfolding perform ask read_answer
  perform-Agrees call w h k = let formed = (message_of-Accepted call h).0 in by_call call w formed k
    where
      by_call :
          (call : Call.Call) (w : R.World)
          → IsMessage (message_of call)
          → V.Quiet w
          → Agrees (perform R c call w) (ask D call (V.view w))
      by_call (Call.install req) w f k = installed req w f k
      by_call Call.get_status w f k = answered update_status status _ w f k
      by_call Call.get_update_state w f k = answered update_state state _ w f k
      by_call Call.post_update w f k = acked _ w f k
      by_call Call.get_hw_revision w f k = answered (λ m. ok (hw_revision m)) revision _ w f k
      by_call (Call.set_update_state s) w f k = acked _ w f k
      by_call (Call.set_aes_key key iv) w f k = acked _ w f k
      by_call (Call.set_versions_range minimum maximum current update_type) w f k = acked _ w f k
      by_call (Call.set_swupdate_var namespace name value) w f k = acked _ w f k
      by_call (Call.get_swupdate_var namespace name) w f k =
          answered (λ m. ok (swupdate_var m)) var _ w f k
      by_call (Call.subprocess_cmd source cmd timeout) w f k = acked _ w f k
      by_call (Call.set_delta_url filename url) w f k = acked _ w f k

  abbrev pub AllCalls : List Call.Call → Type 0
  AllCalls [] = Unit {0}
  AllCalls (call ∷ calls) = IsCall call × AllCalls calls

  -- Over a runtime that carries messages to a daemon and back: a session of calls that begins with
  -- no bytes under way, with arguments of their Rust types, gives call by call the results that the
  -- same calls have on the daemon itself, and leaves the daemon in the same state and no bytes
  -- under way.
  pub session-Agrees :
      (calls : List Call.Call) (w : R.World)
      → AllCalls calls
      → V.Quiet w
      → Agrees (session R c calls w) (replay D calls (V.view w))
  unfolding session replay
  session-Agrees [] w h k = record { same_result = refl; same_state = refl; quiet = k }
  session-Agrees (call ∷ calls) w (h, hs) k =
      let first = perform-Agrees call w h k in
      let rest = session-Agrees calls (perform R c call w).1 hs first.quiet in
      record {
        same_result = cc (first.same_result, rest.same_result, first.same_state);
        same_state = cc (rest.same_state, first.same_state);
        quiet = rest.quiet;
      }
