-- ===== src/Runtime.antt =====
-- What the crate takes from outside: sockets, files, the process's environment and the timer of
-- tokio, over a state of the world that the operations change.
pub mod Memory
pub mod Passive
pub mod Finite
use swupdate_rs.Common.{ℕ, ◌≤◌, ◌≡◌, Bool, Option, some, [], Bytes, IsByte, All, length}
use swupdate_rs.Text.{Text}
use swupdate_rs.Error.{Duration, IoResult, done}

pub record Runtime : Type 1 where
  pub World : Type 0
  -- `UnixStream`
  pub Stream : Type 0
  -- `dyn AsyncRead`
  pub Reader : Type 0
  -- `std::env::var(name).ok()`
  pub env_var : Text → World → Option Text
  -- `path.exists()`
  pub exists : Text → World → Bool
  -- `UnixStream::connect`
  pub connect : Text → World → IoResult Stream × World
  pub write_all : Stream → Bytes → World → IoResult (Unit {0}) × World
  -- The bytes that fill a buffer of the given size.
  pub read_exact : Stream → ℕ → World → IoResult Bytes × World
  pub shutdown : Stream → World → IoResult (Unit {0}) × World
  -- `stream.try_write(&bytes)`: how many of the bytes were written.
  pub try_write : Stream → Bytes → World → IoResult ℕ × World
  -- `tokio::time::timeout`: nothing, once the time is over.
  pub within : (A : Type 0) → Duration → (World → A × World) → World → Option A × World
  -- `File::open`
  pub open_file : Text → World → IoResult Reader × World
  -- `tokio::io::stdin()`
  pub stdin : Reader
  -- `reader.read(&mut buf)` on a buffer of the given size: no bytes at the end of the input.
  pub read : Reader → ℕ → World → IoResult Bytes × World
  -- The standard output of `swupdate --version`, if it could be run.
  pub version_output : World → Option Bytes × World

-- The documented behaviour of tokio's operations that the theorems use.
pub record IsLawful (R : Runtime) : Type 0 where
  pub read_exact_fills :
      (s : R.Stream) (n : ℕ) (w w' : R.World) (bs : Bytes)
      → R.read_exact s n w ≡ (done bs, w')
      → (length bs ≡ n) × All IsByte bs
  pub try_write_nothing : (s : R.Stream) (w : R.World) → (R.try_write s [] w).1 ≡ w
  pub read_bounded :
      (r : R.Reader) (n : ℕ) (w w' : R.World) (bs : Bytes)
      → R.read r n w ≡ (done bs, w')
      → (length bs ≤ n) × All IsByte bs
