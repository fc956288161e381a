-- ===== src/Cli/Join.antt =====
-- src/bin/swupdate-client.rs: `tokio::try_join!` of the streaming and the monitoring. Each task is
-- the state between two of its awaits, and the schedule says which one goes on: the first error
-- ends the join, and it succeeds once both tasks are over.
pub mod Told
pub mod Reports
pub mod Returns
pub mod Invariant
pub mod Delivered
pub mod Course
pub mod Backwards
pub mod Alone
pub mod Turns
pub mod Completes
pub mod Longer
pub mod Steps
pub mod Reachable
pub mod Failures
pub mod Confluent
use swupdate_rs.Common.{
  ℕ, ◌+◌, ◌%◌, ◌^◌, Bool, true, false, Option, none, some, List, [], ◌∷◌, ◌++◌, Bytes, length,
  if◌then◌else◌,
}
use swupdate_rs.Text.{Text, codes}
use swupdate_rs.Text.Format.{display}
use swupdate_rs.Error.{connection, protocol, Result, ok, err, IoResult, done, fault}
use swupdate_rs.Runtime.{Runtime}
use swupdate_rs.Types.Event.{ProgressEvent, is_terminal}
use swupdate_rs.Progress.Client.{ProgressClient, receive}
use swupdate_rs.Control.Install.{chunk_size}
use swupdate_rs.Cli.Output.{Line, stdout, print_progress}

-- `println!("Streamed {bytes} bytes")`
abbrev pub streamed_line : ℕ → Line
streamed_line n = stdout (codes "Streamed " ++ display n ++ codes " bytes")

pub data Side : Type 0 where
  streaming watching : Side

pub data StreamTask (Reader : Type 0) : Type 0 where
  opening : Option Text → StreamTask Reader
  reading : Reader → ℕ → StreamTask Reader
  writing : Reader → Bytes → ℕ → StreamTask Reader
  streamed : StreamTask Reader

pub data WatchTask : Type 0 where
  receiving seen_last : WatchTask

module _ (R : Runtime) where
  open R use {World, Stream, Reader, write_all, open_file, stdin, read}

  abbrev pub Log : Type 0
  Log = World × List Line

  unfoldable pub file_opened :
      Text → List Line → IoResult Reader × World → Result (StreamTask Reader) × Log
  file_opened path out (done file, w) = (ok (reading file 0), (w, out))
  file_opened path out (fault e, w) =
      (err (protocol (codes "failed to open " ++ path ++ codes ": " ++ e)), (w, out))

  unfoldable pub chunk_arrived :
      Reader → ℕ → List Line → IoResult Bytes × World → Result (StreamTask Reader) × Log
  chunk_arrived reader total out (done [], w) =
      (ok streamed, (w, out ++ (streamed_line total ∷ [])))
  chunk_arrived reader total out (done (b ∷ bs), w) = (ok (writing reader (b ∷ bs) total), (w, out))
  chunk_arrived reader total out (fault e, w) = (err (connection e), (w, out))

  unfoldable pub chunk_sent :
      Reader → ℕ → List Line → IoResult (Unit {0}) × World → Result (StreamTask Reader) × Log
  chunk_sent reader total out (done u, w) = (ok (reading reader total), (w, out))
  chunk_sent reader total out (fault e, w) = (err (connection e), (w, out))

  unfoldable pub step_stream : Stream → StreamTask Reader → Log → Result (StreamTask Reader) × Log
  unfolding file_opened chunk_arrived chunk_sent
  step_stream s (opening none) log = (ok (reading stdin 0), log)
  step_stream s (opening (some path)) (w, out) = file_opened path out (open_file path w)
  step_stream s (reading reader total) (w, out) =
      chunk_arrived reader total out (read reader chunk_size w)
  step_stream s (writing reader chunk total) (w, out) =
      chunk_sent reader ((total + length chunk) % 2 ^ 64) out (write_all s chunk w)
  step_stream s streamed log = (ok streamed, log)

  unfoldable pub event_arrived : List Line → Result ProgressEvent × World → Result WatchTask × Log
  unfolding is_terminal print_progress
  event_arrived out (ok event, w) =
      (ok (if is_terminal event then seen_last else receiving), (w, out ++ print_progress event))
  event_arrived out (err e, w) = (err e, (w, out))

  unfoldable pub step_watch : ProgressClient R → WatchTask → Log → Result WatchTask × Log
  unfolding event_arrived receive
  step_watch c receiving (w, out) = event_arrived out (receive R c w)
  step_watch c seen_last log = (ok seen_last, log)

  -- `none` means that the schedule ended before the tasks.
  abbrev pub Joined : Type 0
  Joined = Option (Result (Unit {0}) × Log)

  abbrev pub resumed : {T : Type 0} → Result T × Log → (T → Log → Joined) → Joined
  resumed (ok task, log) more = more task log
  resumed (err e, log) more = some (err e, log)

  unfoldable pub join :
      Stream → ProgressClient R → List Side → StreamTask Reader → WatchTask → Log → Joined
  unfolding step_stream step_watch
  join s c schedule streamed seen_last log = some (ok tt, log)
  join s c [] task watch log = none
  join s c (streaming ∷ schedule) task watch log =
      resumed (step_stream s task log) (λ task'. join s c schedule task' watch)
  join s c (watching ∷ schedule) task watch log =
      resumed (step_watch c watch log) (λ watch'. join s c schedule task watch')
