-- ===== src/Socket/Laws.antt =====
-- src/socket.rs: where the sockets are looked for, and when a connection is made.
use mathlib.Core.Option.{get_or, or_else}
use swupdate_rs.Common.{◌≡◌, refl, ◌↔◌, true, false, Option, none, some, if◌then◌else◌, arith}
use swupdate_rs.Text.{Text, codes}
use swupdate_rs.Error.{ok, err, invalid_path, IoResult, done, fault}
use swupdate_rs.Runtime.{Runtime}
use swupdate_rs.Error.{Duration}
use swupdate_rs.Common.{Bool-cases, inl, inr}
use swupdate_rs.Socket.{
  connected, SocketConfig, join, resolve_socket_path, default, connect_socket, ctrl_socket_name,
  progress_socket_name,
}

module _ (R : Runtime) where
  -- The first of the four directories of SWUpdate's order that applies.
  abbrev pub socket_dir : R.World → Text
  socket_dir w =
      get_or (or_else (R.env_var (codes "RUNTIME_DIRECTORY") w) (R.env_var (codes "TMPDIR") w))
        (if R.exists (codes "/run/swupdate") w then codes "/run/swupdate" else codes "/tmp")

  resolve_socket_path-socket_dir :
      (name : Text) (w : R.World) → resolve_socket_path R name w ≡ join (socket_dir w) name
  unfolding resolve_socket_path or_else
  resolve_socket_path-socket_dir name w = ground arith

  -- By default both sockets lie in the same directory, the first that applies of
  -- RUNTIME_DIRECTORY, TMPDIR, `/run/swupdate` if it exists, and `/tmp`.
  pub default-socket_dir :
      (w : R.World)
      → ((default R w).ctrl_path ≡ join (socket_dir w) ctrl_socket_name)
        × ((default R w).progress_path ≡ join (socket_dir w) progress_socket_name)
  unfolding default
  default-socket_dir w = (
    resolve_socket_path-socket_dir ctrl_socket_name w,
    resolve_socket_path-socket_dir progress_socket_name w,
  )

  connected_iff :
      (t : Duration) (r : Option (IoResult R.Stream) × R.World) (w' : R.World) (s : R.Stream)
      → (connected R t r ≡ (ok s, w')) ↔ (r ≡ (some (done s), w'))
  unfolding connected
  connected_iff t (some (done x), w) w' s = (λ h. cc, λ h. cc)
  connected_iff t (some (fault e), w) w' s = (λ h. cc, λ h. cc)
  connected_iff t (none, w) w' s = (λ h. cc, λ h. cc)

  -- A connection is made exactly if the path exists and the attempt succeeds within the configured
  -- time.
  pub connect_socket_iff :
      (config : SocketConfig) (path : Text) (w w' : R.World) (s : R.Stream)
      → (connect_socket R config path w ≡ (ok s, w')) ↔ (
          (R.exists path w ≡ true)
          × (R.within (IoResult R.Stream) config.connect_timeout (R.connect path) w
              ≡ (some (done s), w')))
  unfolding connect_socket
  connect_socket_iff config path w w' s = elim (Bool-cases (R.exists path w)) [
    | inl there ↦
        let attempt = R.within (IoResult R.Stream) config.connect_timeout (R.connect path) w in
        rw there (
          λ h. (refl, (connected_iff config.connect_timeout attempt w' s).0 h),
          λ h. (connected_iff config.connect_timeout attempt w' s).1 h.1,
        )
    | inr missing ↦ rw missing (λ h. cc, λ h. cc h.0)
  ]

  -- Where the path does not exist, nothing is attempted.
  pub connect_socket-missing :
      (config : SocketConfig) (path : Text) (w : R.World)
      → R.exists path w ≡ false
      → connect_socket R config path w ≡ (err (invalid_path path), w)
  unfolding connect_socket
  connect_socket-missing config path w h = rw h
