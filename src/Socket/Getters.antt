-- ===== src/Socket/Getters.antt =====
-- src/socket.rs: the getters of `SocketConfig`.
use swupdate_rs.Error.{Duration}
use swupdate_rs.Text.{Text}
use swupdate_rs.Socket.{SocketConfig}

unfoldable pub ctrl_socket_path : SocketConfig → Text
ctrl_socket_path config = config.ctrl_path

unfoldable pub progress_socket_path : SocketConfig → Text
progress_socket_path config = config.progress_path

unfoldable pub timeout : SocketConfig → Duration
timeout config = config.connect_timeout
