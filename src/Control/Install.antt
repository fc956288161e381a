-- ===== src/Control/Install.antt =====
-- src/control.rs: `install`, and the streaming of an image by the handle that it returns.
pub mod Stream
pub mod Delivery
pub mod Session
pub mod Bounds
pub mod Returns
use swupdate_rs.Common.{
  ℕ, zero, suc, ◌+◌, ◌%◌, ◌^◌, Option, none, some, [], ◌∷◌, ◌++◌, Bytes, length,
}
use swupdate_rs.Text.{Text, codes}
use swupdate_rs.Error.{
  connection, protocol, Result, ok, err, IoResult, done, fault, Action, continue, ◌>>=◌, ◌>>◌, pure,
}
use swupdate_rs.Runtime.{Runtime}
use swupdate_rs.Types.Request.{InstallRequest}
use swupdate_rs.Control.Messages.{install_message}
use swupdate_rs.Control.Client.{ControlClient, send_and_expect_ack}
use swupdate_rs.Progress.Client.{ProgressClient, connect}

-- The source's field is private: the only way to a handle is `install`.
pub record Installation (R : Runtime) : Type 0 where
  pub client : ControlClient R

-- `[0u8; 8192]`
abbrev pub chunk_size : ℕ
chunk_size = 8192

module _ (R : Runtime) where
  open R use {World, Reader, write_all, open_file, read}

  unfoldable pub install : ControlClient R → InstallRequest → Action World (Installation R)
  install c req = do send_and_expect_ack R c (install_message req); pure (record { client = c })

  unfoldable pub progress : Installation R → Action World (ProgressClient R)
  unfolding connect
  progress installation = connect R installation.client.config

  -- `none` means that the fuel ran out.
  abbrev pub Streamed : Type 0
  Streamed = Option (Result ℕ × World)

  chunk_written : IoResult (Unit {0}) × World → (World → Streamed) → Streamed
  chunk_written (done u, w) more = more w
  chunk_written (fault e, w) more = some (err (connection e), w)

  chunk_read : R.Stream → ℕ → IoResult Bytes × World → (Bytes → World → Streamed) → Streamed
  unfolding chunk_written
  chunk_read s total (fault e, w) more = some (err (connection e), w)
  chunk_read s total (done [], w) more = some (ok total, w)
  chunk_read s total (done (b ∷ bs), w) more =
      chunk_written (write_all s (b ∷ bs) w) (more (b ∷ bs))

  -- The loop of `stream`, one round for each unit of fuel. `total` is a u64.
  unfoldable pub stream_loop : ℕ → R.Stream → Reader → ℕ → World → Streamed
  unfolding chunk_read
  stream_loop zero s reader total w = none
  stream_loop (suc fuel) s reader total w =
      chunk_read s total (read reader chunk_size w)
        (λ chunk. stream_loop fuel s reader ((total + length chunk) % 2 ^ 64))

  unfoldable pub stream : ℕ → Installation R → Reader → World → Streamed
  unfolding stream_loop
  stream fuel installation reader w = stream_loop fuel installation.client.stream reader 0 w

  opened : ℕ → Installation R → Text → IoResult Reader × World → Streamed
  unfolding stream
  opened fuel installation path (done file, w) = stream fuel installation file w
  opened fuel installation path (fault e, w) =
      some (err (protocol (codes "failed to open " ++ path ++ codes ": " ++ e)), w)

  unfoldable pub stream_file : ℕ → Installation R → Text → World → Streamed
  unfolding opened
  stream_file fuel installation path w = opened fuel installation path (open_file path w)
