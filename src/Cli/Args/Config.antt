-- ===== src/Cli/Args/Config.antt =====
-- src/bin/swupdate-client.rs: which sockets a command uses, `build_config`.
use swupdate_rs.Text.{Text}
use swupdate_rs.Socket.Laws.{socket_dir, default-socket_dir}
use swupdate_rs.Runtime.{Runtime}
use swupdate_rs.Cli.Args.{build_config, override_ctrl, override_progress, Cli}
use swupdate_rs.Common.{refl, ◌≡◌, ◌∙◌, none, some, Option}
use mathlib.Core.Option.{get_or}
use swupdate_rs.Socket.{
  join, with_ctrl_path, with_progress_path, ctrl_socket_name, progress_socket_name, SocketConfig,
}
use swupdate_rs.Socket as Socket

overridden :
    (ctrl progress : Option Text) (config : SocketConfig)
    → override_progress progress (override_ctrl ctrl config) ≡ record {
      ctrl_path = get_or ctrl config.ctrl_path;
      progress_path = get_or progress config.progress_path;
      connect_timeout = config.connect_timeout;
    }
unfolding override_ctrl override_progress with_ctrl_path with_progress_path
overridden none none config = refl
overridden none (some path) config = refl
overridden (some path) none config = refl
overridden (some path) (some path') config = refl

-- Each socket is the one that the arguments name, and otherwise the one in the directory of
-- SWUpdate's order; the timeout for a connection is 10 s.
pub build_config_lem :
    (R : Runtime) (cli : Cli) (w : R.World)
    → build_config R cli w ≡ record {
      ctrl_path = get_or cli.ctrl_socket (join (socket_dir R w) ctrl_socket_name);
      progress_path = get_or cli.progress_socket (join (socket_dir R w) progress_socket_name);
      connect_timeout = 10_000;
    }
unfolding build_config
build_config_lem R cli w =
    overridden cli.ctrl_socket cli.progress_socket (Socket.default R w)
    ∙ unfold Socket.default in cc ((default-socket_dir R w).0, (default-socket_dir R w).1)
