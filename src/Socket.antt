-- ===== src/Socket.antt =====
-- src/socket.rs: the socket paths and the connection to one. A path is its text.
pub mod Laws
pub mod Preserves
pub mod Getters
pub mod UnitTests
use swupdate_rs.Common.{
  ℕ, Bool, true, false, not, Option, none, some, List, [], ◌∷◌, ◌++◌, ◌==◌, if◌then◌else◌,
}
use swupdate_rs.Text.{Text, codes}
use swupdate_rs.Error.{
  Duration, Error, connection, timeout, invalid_path, Result, ok, err, IoResult, done, fault,
  Action,
}
use swupdate_rs.Runtime.{Runtime}

abbrev pub ctrl_socket_name : Text
ctrl_socket_name = codes "sockinstctrl"

abbrev pub progress_socket_name : Text
progress_socket_name = codes "swupdateprog"

pub record SocketConfig : Type 0 where
  pub ctrl_path : Text
  pub progress_path : Text
  pub connect_timeout : Duration

-- The builder methods.
unfoldable pub with_ctrl_path : Text → SocketConfig → SocketConfig
with_ctrl_path path config = record config { ctrl_path = path }

unfoldable pub with_progress_path : Text → SocketConfig → SocketConfig
with_progress_path path config = record config { progress_path = path }

unfoldable pub with_connect_timeout : Duration → SocketConfig → SocketConfig
with_connect_timeout t config = record config { connect_timeout = t }

ends_with_slash : Text → Bool
ends_with_slash [] = false
ends_with_slash (c ∷ []) = c == b'/'
ends_with_slash (c ∷ d ∷ s) = ends_with_slash (d ∷ s)

-- `PathBuf::join` of a relative name.
unfoldable pub join : Text → Text → Text
unfolding ends_with_slash
join [] name = name
join (c ∷ dir) name =
    if ends_with_slash (c ∷ dir) then (c ∷ dir) ++ name else (c ∷ dir) ++ (b'/' ∷ name)

module _ (R : Runtime) where
  open R use {World, Stream, env_var, exists, connect, within}

  run_or_tmp : Text → World → Text
  unfolding join
  run_or_tmp name w =
      if exists (codes "/run/swupdate") w
      then join (codes "/run/swupdate") name
      else join (codes "/tmp") name

  tmpdir_or_run : Option Text → Text → World → Text
  unfolding join run_or_tmp
  tmpdir_or_run (some dir) name w = join dir name
  tmpdir_or_run none name w = run_or_tmp name w

  runtime_directory_or_tmpdir : Option Text → Text → World → Text
  unfolding join tmpdir_or_run
  runtime_directory_or_tmpdir (some dir) name w = join dir name
  runtime_directory_or_tmpdir none name w = tmpdir_or_run (env_var (codes "TMPDIR") w) name w

  unfoldable pub resolve_socket_path : Text → World → Text
  unfolding runtime_directory_or_tmpdir
  resolve_socket_path name w =
      runtime_directory_or_tmpdir (env_var (codes "RUNTIME_DIRECTORY") w) name w

  -- `SocketConfig::default()`, with a timeout of 10 s
  unfoldable pub default : World → SocketConfig
  unfolding resolve_socket_path
  default w = record {
    ctrl_path = resolve_socket_path ctrl_socket_name w;
    progress_path = resolve_socket_path progress_socket_name w;
    connect_timeout = 10_000;
  }

  connected : Duration → Option (IoResult Stream) × World → Result Stream × World
  connected t (some (done stream), w) = (ok stream, w)
  connected t (some (fault e), w) = (err (connection e), w)
  connected t (none, w) = (err (timeout t), w)

  unfoldable pub connect_socket : SocketConfig → Text → Action World Stream
  unfolding connected
  connect_socket config path w =
      if not (exists path w)
      then (err (invalid_path path), w)
      else connected config.connect_timeout
          (within (IoResult Stream) config.connect_timeout (connect path) w)

  unfoldable pub connect_ctrl : SocketConfig → Action World Stream
  unfolding connect_socket
  connect_ctrl config = connect_socket config config.ctrl_path

  unfoldable pub connect_progress : SocketConfig → Action World Stream
  unfolding connect_socket
  connect_progress config = connect_socket config config.progress_path
