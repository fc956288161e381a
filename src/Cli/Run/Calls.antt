-- ===== src/Cli/Run/Calls.antt =====
-- src/bin/swupdate-client.rs: the commands that are one call of the control client.
use mathlib.Core.Path.{subst}
use swupdate_rs.Socket.{SocketConfig}
use swupdate_rs.Cli.Join.{Side}
use swupdate_rs.Text.{Text, codes}
use swupdate_rs.Common.{
  ℕ, refl, ap, ◌≡◌, ◌∙◌, none, some, [], ◌∷◌, ◌++◌, append_assoc, Option, List,
}
use swupdate_rs.Error.{Result, ok, err, continue, pure, Action}
use swupdate_rs.Runtime.{Runtime}
use swupdate_rs.Cli.Args.{Command, state_of_arg, source_of_arg, cmd_of_arg}
use swupdate_rs.Cli.Output.{Line, stdout, debug_update_state}
use swupdate_rs.Control.Messages.Formed as Call
use swupdate_rs.Control.Client as Control
use swupdate_rs.Control.Calls.{Answer, acknowledged, status, state, revision, var, perform}
use swupdate_rs.Cli.Shell.{Shell, ◌>>=◌, ◌>>◌, beside, call, write_lines, proceed, println}
use swupdate_rs.Types.Responses.{HwRevision}
use swupdate_rs.Cli.Run.{run_command, status_lines}

-- The call of a command that makes one.
abbrev pub call_of : Command → Option Call.Call
call_of (Command.install args) = none
call_of Command.progress = none
call_of Command.get_status = some Call.get_status
call_of Command.get_state = some Call.get_update_state
call_of (Command.set_state s) = some (Call.set_update_state (state_of_arg s))
call_of Command.post_update = some Call.post_update
call_of (Command.set_aes_key key iv) = some (Call.set_aes_key key iv)
call_of (Command.set_versions_range min max current update_type) =
    some (Call.set_versions_range min max current update_type)
call_of Command.get_hw_revision = some Call.get_hw_revision
call_of (Command.set_var namespace name value) = some (Call.set_swupdate_var namespace name value)
call_of (Command.get_var namespace name) = some (Call.get_swupdate_var namespace name)
call_of (Command.subprocess source cmd timeout) =
    some (Call.subprocess_cmd (source_of_arg source) (cmd_of_arg cmd) timeout)
call_of (Command.set_delta_url filename url) = some (Call.set_delta_url filename url)

-- What it prints where the call is acknowledged.
abbrev pub confirmation : Command → Text
confirmation (Command.set_state s) = codes "State set"
confirmation Command.post_update = codes "Post-update sent"
confirmation (Command.set_aes_key key iv) = codes "AES key set"
confirmation (Command.set_versions_range min max current update_type) = codes "Versions range set"
confirmation (Command.set_var namespace name value) = codes "Variable set"
confirmation (Command.subprocess source cmd timeout) = codes "Subprocess command sent"
confirmation (Command.set_delta_url filename url) = codes "Delta URL set"
confirmation _ = []

-- What a command prints of the answer to its call.
unfoldable pub lines_of : Command → Answer → List Line
unfolding status_lines debug_update_state
lines_of command acknowledged = stdout (confirmation command) ∷ []
lines_of command (status s) = status_lines s
lines_of command (state s) = stdout (debug_update_state s) ∷ []
lines_of command (revision r) =
    stdout (codes "Board: " ++ r.boardname) ∷ stdout (codes "Revision: " ++ r.revision) ∷ []
lines_of command (var v) = stdout v.value ∷ []

module _ (R : Runtime) where
  -- A method and its printing, as a call and the printing of its answer.
  printed_alike :
      {A : Type 0} (f : A → Answer) (lines : Answer → List Line) (r : Result A × R.World)
      (out : List Line)
      → proceed (some (beside out r)) (λ a. write_lines (lines (f a)))
        ≡ proceed (some (beside out (continue r (λ a. pure (f a))))) (λ a. write_lines (lines a))
  printed_alike f lines (ok a, w) out = refl
  printed_alike f lines (err e, w) out = refl

  connected_alike :
      {A B : Type 0} (f g : A → Shell R.World B)
      → ((a : A) (w : R.World) (out : List Line) → f a (w, out) ≡ g a (w, out))
      → (r : Result A × R.World) (out : List Line)
      → proceed (some (beside out r)) f ≡ proceed (some (beside out r)) g
  connected_alike f g alike (ok a, w) out = alike a w out
  connected_alike f g alike (err e, w) out = refl

  method_alike :
      {A : Type 0} (f : A → Answer) (lines : Answer → List Line)
      (method : Control.ControlClient R → Action R.World A) (config : SocketConfig) (w : R.World)
      (out : List Line)
      → (do
        ctrl ← call (Control.connect R config)
        a ← call (method ctrl)
        write_lines (lines (f a)))
          (w, out)
        ≡ (do
          ctrl ← call (Control.connect R config)
          a ← call (λ w. continue (method ctrl w) (λ a. pure (f a)))
          write_lines (lines a))
            (w, out)
  method_alike f lines method config w out =
      connected_alike _ _ (λ ctrl w out. printed_alike f lines (method ctrl w) out)
        (Control.connect R config w) out

  done_alike :
      (lines : Answer → List Line) (method : Control.ControlClient R → Action R.World (Unit {0}))
      (config : SocketConfig) (w : R.World) (out : List Line)
      → (do
        ctrl ← call (Control.connect R config)
        a ← call (method ctrl)
        write_lines (lines acknowledged))
          (w, out)
        ≡ (do
          ctrl ← call (Control.connect R config)
          a ← call (λ w. continue (method ctrl w) (λ a. pure acknowledged))
          write_lines (lines a))
            (w, out)
  done_alike = method_alike (λ u. acknowledged)

  -- The two lines of a revision, printed one after the other or at once.
  revision_alike :
      (r : Result HwRevision × R.World) (out : List Line)
      → proceed (some (beside out r)) (λ rev.
        println (codes "Board: " ++ rev.boardname) >> println (codes "Revision: " ++ rev.revision))
        ≡ proceed
            (some (beside out r))
            (λ rev. write_lines (lines_of Command.get_hw_revision (revision rev)))
  unfolding lines_of
  revision_alike (ok rev, w) out =
      ap (λ lines. some (ok tt, (w, lines)))
        (append_assoc out (stdout (codes "Board: " ++ rev.boardname) ∷ [])
          (stdout (codes "Revision: " ++ rev.revision) ∷ []))
  revision_alike (err e, w) out = refl

  module _ (fuel : ℕ) (schedule : List Side) (config : SocketConfig) (command : Command) where
    -- The command connects to the control socket, makes the call, and prints the lines of its
    -- answer.
    abbrev pub IsOneCall : Option Call.Call → Type 0
    IsOneCall none = Unit {0}
    IsOneCall (some c) =
        (w : R.World) (out : List Line)
        → run_command R fuel schedule config command (w, out)
          ≡ (do
            ctrl ← call (Control.connect R config)
            a ← call (perform R ctrl c)
            write_lines (lines_of command a))
              (w, out)

  one_call :
      (fuel : ℕ) (schedule : List Side) (config : SocketConfig) (command : Command)
      → IsOneCall fuel schedule config command (call_of command)
  unfolding run_command perform lines_of
  one_call fuel schedule config (Command.install args) = tt
  one_call fuel schedule config Command.progress = tt
  one_call fuel schedule config Command.get_status =
      method_alike status (lines_of Command.get_status) (Control.get_status R) config
  one_call fuel schedule config Command.get_state =
      method_alike state (lines_of Command.get_state) (Control.get_update_state R) config
  one_call fuel schedule config (Command.set_state s) =
      done_alike (lines_of (Command.set_state s))
        (λ c. Control.set_update_state R c (state_of_arg s)) config
  one_call fuel schedule config Command.post_update =
      done_alike (lines_of Command.post_update) (Control.post_update R) config
  one_call fuel schedule config (Command.set_aes_key key iv) =
      done_alike (lines_of (Command.set_aes_key key iv)) (λ c. Control.set_aes_key R c key iv)
        config
  one_call fuel schedule config (Command.set_versions_range min max current update_type) =
      done_alike (lines_of (Command.set_versions_range min max current update_type))
        (λ c. Control.set_versions_range R c min max current update_type) config
  one_call fuel schedule config Command.get_hw_revision = λ w out.
      connected_alike _ _ (λ c w out. revision_alike (Control.get_hw_revision R c w) out)
        (Control.connect R config w) out
      ∙ method_alike revision (lines_of Command.get_hw_revision) (Control.get_hw_revision R) config
          w out
  one_call fuel schedule config (Command.set_var namespace name value) =
      done_alike (lines_of (Command.set_var namespace name value))
        (λ c. Control.set_swupdate_var R c namespace name value) config
  one_call fuel schedule config (Command.get_var namespace name) =
      method_alike var (lines_of (Command.get_var namespace name))
        (λ c. Control.get_swupdate_var R c namespace name) config
  one_call fuel schedule config (Command.subprocess source cmd timeout) =
      done_alike (lines_of (Command.subprocess source cmd timeout))
        (λ c. Control.subprocess_cmd R c (source_of_arg source) (cmd_of_arg cmd) timeout) config
  one_call fuel schedule config (Command.set_delta_url filename url) =
      done_alike (lines_of (Command.set_delta_url filename url))
        (λ c. Control.set_delta_url R c filename url) config

  -- A command that stands for one call of the library connects to the control socket, makes that
  -- call and no other, and prints the lines of its answer.
  pub run_command-call_of :
      (fuel : ℕ) (schedule : List Side) (config : SocketConfig) (command : Command) (c : Call.Call)
      (w : R.World) (out : List Line)
      → call_of command ≡ some c
      → run_command R fuel schedule config command (w, out)
        ≡ (do
          ctrl ← call (Control.connect R config)
          a ← call (perform R ctrl c)
          write_lines (lines_of command a))
            (w, out)
  run_command-call_of fuel schedule config command c w out e =
      subst (IsOneCall fuel schedule config command) e (one_call fuel schedule config command) w out
