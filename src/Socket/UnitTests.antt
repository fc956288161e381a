-- ===== src/Socket/UnitTests.antt =====
-- src/socket.rs: the module `tests`. A test is the statement of its assertions; what it reads of the
-- environment is any world of any runtime.
use swupdate_rs.Common.{◌≡◌, refl, ◌++◌, ◌∷◌, [], append_assoc, Bool-cases, inl, inr, sym}
use swupdate_rs.Text.{Text, codes}
use swupdate_rs.Runtime.{Runtime}
use swupdate_rs.Socket.{
  default, with_ctrl_path, with_progress_path, with_connect_timeout, ctrl_socket_name,
  progress_socket_name, ends_with_slash, join,
}
use swupdate_rs.Socket.Laws.{socket_dir, default-socket_dir}
use swupdate_rs.Socket.Getters.{ctrl_socket_path, progress_socket_path, timeout}

-- `text.ends_with(suffix)`
abbrev EndsWith : Text → Text → Type 0
EndsWith text suffix = (before : Text) × (text ≡ before ++ suffix)

abbrev DefaultConfigHasSensiblePaths : Type 1
DefaultConfigHasSensiblePaths =
    (R : Runtime) (w : R.World)
    → EndsWith (ctrl_socket_path (default R w)) ctrl_socket_name
      × EndsWith (progress_socket_path (default R w)) progress_socket_name

join-EndsWith : (dir name : Text) → EndsWith (join dir name) name
unfolding join
join-EndsWith [] name = ([], refl)
join-EndsWith (c ∷ dir) name = elim (Bool-cases (ends_with_slash (c ∷ dir))) [
  | inl slash ↦ (c ∷ dir, rw slash refl)
  | inr plain ↦ ((c ∷ dir) ++ (b'/' ∷ []), rw plain (sym (append_assoc (c ∷ dir) (b'/' ∷ []) name)))
]

default_config_has_sensible_paths : DefaultConfigHasSensiblePaths
unfolding ctrl_socket_path progress_socket_path
default_config_has_sensible_paths R w =
    let (ctrl, progress) = default-socket_dir R w in
    (
      rw ctrl (join-EndsWith (socket_dir R w) ctrl_socket_name),
      rw progress (join-EndsWith (socket_dir R w) progress_socket_name),
    )

abbrev BuilderOverrides : Type 1
BuilderOverrides =
    (R : Runtime) (w : R.World)
    → let config = with_connect_timeout 30_000 (
        with_progress_path (codes "/custom/progress")
          (with_ctrl_path (codes "/custom/ctrl") (default R w))) in
      (ctrl_socket_path config ≡ codes "/custom/ctrl")
      × (progress_socket_path config ≡ codes "/custom/progress")
      × (timeout config ≡ 30_000)

builder_overrides : BuilderOverrides
unfolding ctrl_socket_path progress_socket_path timeout with_ctrl_path with_progress_path
    with_connect_timeout
builder_overrides R w = (refl, refl, refl)
