-- ===== src/Cli/Args.antt =====
-- src/bin/swupdate-client.rs: the arguments, as clap hands them over, and the configuration.
pub mod Config
use swupdate_rs.Common.{ℕ, Bool, Option, none, some}
use swupdate_rs.Text.{Text}
use swupdate_rs.Runtime.{Runtime}
use swupdate_rs.Socket.{SocketConfig, default, with_ctrl_path, with_progress_path}
use swupdate_rs.Types.Source.{Source}
use swupdate_rs.Types.UpdateState.{UpdateState}
use swupdate_rs.Types.SubprocessCmd.{SubprocessCmd}

pub data SourceArg : Type 0 where
  unknown webserver suricatta downloader local chunks_downloader : SourceArg

pub data StateArg : Type 0 where
  ok installed testing failed not_available error wait in_progress : StateArg

pub data SubprocessCmdArg : Type 0 where
  activation config enable get_status set_download_url : SubprocessCmdArg

unfoldable pub source_of_arg : SourceArg → Source
source_of_arg SourceArg.unknown = Source.unknown
source_of_arg SourceArg.webserver = Source.webserver
source_of_arg SourceArg.suricatta = Source.suricatta
source_of_arg SourceArg.downloader = Source.downloader
source_of_arg SourceArg.local = Source.local
source_of_arg SourceArg.chunks_downloader = Source.chunks_downloader

unfoldable pub state_of_arg : StateArg → UpdateState
state_of_arg StateArg.ok = UpdateState.ok
state_of_arg StateArg.installed = UpdateState.installed
state_of_arg StateArg.testing = UpdateState.testing
state_of_arg StateArg.failed = UpdateState.failed
state_of_arg StateArg.not_available = UpdateState.not_available
state_of_arg StateArg.error = UpdateState.error
state_of_arg StateArg.wait = UpdateState.wait
state_of_arg StateArg.in_progress = UpdateState.in_progress

unfoldable pub cmd_of_arg : SubprocessCmdArg → SubprocessCmd
cmd_of_arg SubprocessCmdArg.activation = SubprocessCmd.activation
cmd_of_arg SubprocessCmdArg.config = SubprocessCmd.config
cmd_of_arg SubprocessCmdArg.enable = SubprocessCmd.enable
cmd_of_arg SubprocessCmdArg.get_status = SubprocessCmd.get_status
cmd_of_arg SubprocessCmdArg.set_download_url = SubprocessCmd.set_download_url

-- The options of `install`.
pub record InstallArgs : Type 0 where
  pub file : Option Text
  pub progress : Bool
  pub source : SourceArg
  pub dry_run : Bool
  pub info : Text

pub data Command : Type 0 where
  install : InstallArgs → Command
  progress get_status get_state : Command
  set_state : StateArg → Command
  post_update : Command
  set_aes_key : (key iv : Text) → Command
  set_versions_range : (min max current update_type : Text) → Command
  get_hw_revision : Command
  set_var : (namespace name value : Text) → Command
  get_var : (namespace name : Text) → Command
  subprocess : SourceArg → SubprocessCmdArg → (timeout : ℕ) → Command
  set_delta_url : (filename url : Text) → Command

pub record Cli : Type 0 where
  pub ctrl_socket : Option Text
  pub progress_socket : Option Text
  pub verbose : Bool
  pub command : Command

override_ctrl : Option Text → SocketConfig → SocketConfig
unfolding with_ctrl_path
override_ctrl none base = base
override_ctrl (some path) base = with_ctrl_path path base

override_progress : Option Text → SocketConfig → SocketConfig
unfolding with_progress_path
override_progress none base = base
override_progress (some path) base = with_progress_path path base

unfoldable pub build_config : (R : Runtime) → Cli → R.World → SocketConfig
unfolding override_ctrl override_progress default
build_config R cli w =
    override_progress cli.progress_socket (override_ctrl cli.ctrl_socket (default R w))
