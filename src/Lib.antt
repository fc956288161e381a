-- ===== src/Lib.antt =====
-- Verification of swupdate-rs, the Rust client of SWUpdate's two Unix sockets: a library (`src/`)
-- and the command `swupdate-client` (`src/bin/swupdate-client.rs`).
--
-- The client sends fixed-size C structs over the control socket (commands, and the image to
-- install) and receives progress structs, in one of two layouts, from the progress socket.
--
-- Files, by the code that they model:
--   Wire      src/wire.rs: constants, `MsgType`, `RecoveryStatus`, the `repr(C)` structs
--             (Wire/Layout computes offsets and sizes from the lists of fields, and Wire/Layout/
--             Header has the C structs of tests/c_compat/swupdate_headers/network_ipc.h), C strings
--             (Wire/Cstring), `RawIpcMessage` (Wire/Message), both progress structs
--             (Wire/ProgressMsg).
--   Types     src/types.rs: one module for each public enum, Types/Event for `ProgressEvent`,
--             Types/Request for `InstallRequest`, Types/Responses for the answers.
--   Error     src/error.rs with its messages, and the results and actions that stand for `?` and
--             `async fn`.
--   Socket    src/socket.rs: `SocketConfig` and the connection.
--   Control   src/control.rs: Control/Messages builds what each method sends, Control/Replies
--             reads what the daemon answers, Control/Client has the methods, Control/Install the
--             handle that streams an image. Control/Calls makes the methods one action on a
--             call, and has the specification that they are compared with: a daemon that answers
--             each message by one, over any runtime that carries the messages (Control/Calls/
--             Serving is one).
--   Progress  src/progress.rs: Progress/Version detects the layout, Progress/Client connects,
--             shakes hands, receives and reconnects.
--   Cli       src/bin/swupdate-client.rs: arguments, printed lines, monitoring, `try_join!`,
--             `run` and `main`. Cli/Join takes a schedule, and Cli/Join/Steps is the same join as
--             a transition system.
--   Runtime   The operations of tokio and std that the code calls, as a record that the
--             definitions take as an argument; its laws are hypotheses of the theorems that need
--             them, and Runtime/Memory is an instance. Runtime/Finite says what it is for the
--             inputs of a runtime to end; modules named Spends and Returns follow it from the
--             sockets up to `main`. Runtime/Passive is what they share with other orders on
--             worlds.
--   Text      Rust's `str` as a list of code points, UTF-8 and its lossy decoder, and the number
--             formats that the code uses.
--   UnitTests Modules of that name below Wire, Types, Socket and Progress hold the tests of the
--             `mod tests` of their files, each as the statement of its assertions, with its proof.
--   Common    Names and lemmas that the other modules share.
--   Examples  Tests, and a use of each theorem that has conditions.
--
-- How state is modelled. A method is a function from the world (and the client, where it changes)
-- to a result and the world. A Rust integer is a natural number below 2 to its width; an `i32` is
-- its bit pattern. The target is little-endian LP64. A message is its two header integers and the
-- bytes of the union; a variant's field is read and written at the offset that the layout gives.
-- Padding keeps the zeros of `zeroed`. An `io::Error` is its text, a path is its text, and a
-- `Duration` is in milliseconds.
--
-- Loops. `stream` and the monitoring loop take fuel, one unit for each round, and return nothing
-- where it runs out: one more than the number of chunks is enough for `stream`, and one more than
-- the number of messages for the monitoring. `try_join!` takes the order in which its two tasks go
-- on, from one awaited operation of the runtime to the next. A decimal number has 20 digits at most,
-- which is enough for 64 bits.
--
-- The `Drop` of a client (Control/Client/Drop, Progress/Client/Drop) writes no bytes; over a lawful
-- runtime that changes nothing, so the commands do not mention it.
--
-- Not modelled: log lines of the library, `init_tracing` (a line of the model stands for the call of
-- `info!` or `error!`, whether or not the logger shows it), clap's parsing, the async executor beyond
-- the schedule of `try_join!`, and the C headers against which the repository's tests compare the
-- layouts of the progress messages.
pub mod Common
pub mod Text
pub mod Wire
pub mod Types
pub mod Error
pub mod Runtime
pub mod Socket
pub mod Progress
pub mod Control
pub mod Cli
pub mod Examples
