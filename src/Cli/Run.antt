-- ===== src/Cli/Run.antt =====
-- src/bin/swupdate-client.rs: `run`.
pub mod Requests
pub mod Calls
pub mod Returns
pub mod Installs
pub mod Streams
pub mod Watched
pub mod Orders
pub mod Installing
use swupdate_rs.Common.{
  ℕ, Bool, true, false, Option, none, some, List, [], ◌∷◌, ◌++◌, if◌then◌else◌,
}
use swupdate_rs.Text.{Text, codes}
use swupdate_rs.Text.Format.{display_i32}
use swupdate_rs.Error.{Result}
use swupdate_rs.Runtime.{Runtime}
use swupdate_rs.Socket.{SocketConfig}
use swupdate_rs.Types.RunMode.{dry_run}
use swupdate_rs.Types.Request.{InstallRequest, with_source, with_mode, with_info}
use swupdate_rs.Types.Request as Request
use swupdate_rs.Types.Responses.{UpdateStatus}
use swupdate_rs.Control.Client.{ControlClient}
use swupdate_rs.Control.Client as Control
use swupdate_rs.Control.Install as Install
use swupdate_rs.Control.Install.{Installation}
use swupdate_rs.Progress.Client as Progress
use swupdate_rs.Cli.Args.{
  Cli, Command, InstallArgs, build_config, source_of_arg, state_of_arg, cmd_of_arg,
}
use swupdate_rs.Cli.Output.{Line, stdout, debug_recovery_status, debug_update_state}
use swupdate_rs.Cli.Shell.{Shell, ◌>>=◌, ◌>>◌, beside, call, write_lines, println}
use swupdate_rs.Cli.Monitor.{monitor}
use swupdate_rs.Cli.Join.{Side, opening, receiving, join, streamed_line}

-- `if !info_str.is_empty()`
unfoldable pub describe : Text → InstallRequest → InstallRequest
unfolding with_info
describe [] req = req
describe (c ∷ s) req = with_info (c ∷ s) req

unfoldable pub request_of : InstallArgs → InstallRequest
unfolding describe with_source with_mode Request.new
request_of args =
    let req = describe args.info (with_source (source_of_arg args.source) Request.new) in
    if args.dry_run then with_mode dry_run req else req

-- The description is printed if there is one.
description_lines : Text → List Line
description_lines [] = []
description_lines (c ∷ s) = stdout (codes "Description: " ++ (c ∷ s)) ∷ []

unfoldable pub status_lines : UpdateStatus → List Line
unfolding description_lines
status_lines status =
    stdout (codes "Current:     " ++ debug_recovery_status status.current)
    ∷ stdout (codes "Last result: " ++ debug_recovery_status status.last_result)
    ∷ stdout (codes "Error:       " ++ display_i32 status.error)
    ∷ description_lines status.description

module _ (R : Runtime) (fuel : ℕ) (schedule : List Side) where
  open R use {World}

  -- A streaming, with the lines printed so far.
  abbrev carried : List Line → Option (Result ℕ × World) → Option (Result ℕ × (World × List Line))
  carried out none = none
  carried out (some r) = some (beside out r)

  stream_from : Installation R → Option Text → Shell World ℕ
  unfolding Install.stream Install.stream_file
  stream_from installation none (w, out) =
      carried out (Install.stream R fuel installation R.stdin w)
  stream_from installation (some path) (w, out) =
      carried out (Install.stream_file R fuel installation path w)

  stream_alone : Installation R → Option Text → Shell World (Unit {0})
  unfolding stream_from
  stream_alone installation file = do
    bytes ← stream_from installation file
    write_lines (streamed_line bytes ∷ [])

  stream_and_watch : Installation R → Option Text → Shell World (Unit {0})
  unfolding join Install.progress
  stream_and_watch installation file = do
    progress_client ← call (Install.progress R installation)
    join R installation.client.stream progress_client schedule (opening file) receiving

  -- `if progress`
  streamed_as : Bool → Installation R → Option Text → Shell World (Unit {0})
  unfolding stream_and_watch stream_alone
  streamed_as true installation file = stream_and_watch installation file
  streamed_as false installation file = stream_alone installation file

  run_install : SocketConfig → InstallArgs → Shell World (Unit {0})
  unfolding streamed_as request_of
  run_install config args = do
    ctrl ← call (Control.connect R config)
    installation ← call (Install.install R ctrl (request_of args))
    println (codes "Install request accepted")
    streamed_as args.progress installation args.file

  unfoldable pub run_command : SocketConfig → Command → Shell World (Unit {0})
  unfolding run_install status_lines monitor
  run_command config (Command.install args) = run_install config args
  run_command config Command.progress = do
    progress_client ← call (Progress.connect R config)
    println (codes "Connected to progress socket, waiting for events...")
    monitor R fuel progress_client
  run_command config Command.get_status = do
    ctrl ← call (Control.connect R config)
    status ← call (Control.get_status R ctrl)
    write_lines (status_lines status)
  run_command config Command.get_state = do
    ctrl ← call (Control.connect R config)
    state ← call (Control.get_update_state R ctrl)
    println (debug_update_state state)
  run_command config (Command.set_state state) = do
    ctrl ← call (Control.connect R config)
    call (Control.set_update_state R ctrl (state_of_arg state))
    println (codes "State set")
  run_command config Command.post_update = do
    ctrl ← call (Control.connect R config)
    call (Control.post_update R ctrl)
    println (codes "Post-update sent")
  run_command config (Command.set_aes_key key iv) = do
    ctrl ← call (Control.connect R config)
    call (Control.set_aes_key R ctrl key iv)
    println (codes "AES key set")
  run_command config (Command.set_versions_range min max current update_type) = do
    ctrl ← call (Control.connect R config)
    call (Control.set_versions_range R ctrl min max current update_type)
    println (codes "Versions range set")
  run_command config Command.get_hw_revision = do
    ctrl ← call (Control.connect R config)
    rev ← call (Control.get_hw_revision R ctrl)
    println (codes "Board: " ++ rev.boardname)
    println (codes "Revision: " ++ rev.revision)
  run_command config (Command.set_var namespace name value) = do
    ctrl ← call (Control.connect R config)
    call (Control.set_swupdate_var R ctrl namespace name value)
    println (codes "Variable set")
  run_command config (Command.get_var namespace name) = do
    ctrl ← call (Control.connect R config)
    var ← call (Control.get_swupdate_var R ctrl namespace name)
    println var.value
  run_command config (Command.subprocess source cmd timeout) = do
    ctrl ← call (Control.connect R config)
    call (Control.subprocess_cmd R ctrl (source_of_arg source) (cmd_of_arg cmd) timeout)
    println (codes "Subprocess command sent")
  run_command config (Command.set_delta_url filename url) = do
    ctrl ← call (Control.connect R config)
    call (Control.set_delta_url R ctrl filename url)
    println (codes "Delta URL set")

  unfoldable pub run : Cli → Shell World (Unit {0})
  unfolding run_command build_config
  run cli (w, out) = run_command (build_config R cli w) cli.command (w, out)
