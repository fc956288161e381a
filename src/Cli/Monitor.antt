-- ===== src/Cli/Monitor.antt =====
-- src/bin/swupdate-client.rs: the loop that prints progress events up to the first terminal one.
pub mod Events
pub mod Reports
pub mod Returns
pub mod Alone
pub mod Lost
use swupdate_rs.Common.{ℕ, zero, suc, Bool, true, false, Option, none, some, List, ◌++◌}
use swupdate_rs.Error.{Result, ok, err}
use swupdate_rs.Runtime.{Runtime}
use swupdate_rs.Types.Event.{ProgressEvent, is_terminal}
use swupdate_rs.Progress.Client.{ProgressClient, receive}
use swupdate_rs.Cli.Output.{Line, print_progress}
use swupdate_rs.Cli.Shell.{Shell}

module _ (R : Runtime) where
  after_event :
      ProgressEvent
      → Bool
      → (List Line → Option (Result (Unit {0}) × (R.World × List Line)))
      → R.World
      → List Line
      → Option (Result (Unit {0}) × (R.World × List Line))
  unfolding print_progress
  after_event event true more w out = some (ok tt, (w, out ++ print_progress event))
  after_event event false more w out = more (out ++ print_progress event)

  event_received :
      Result ProgressEvent × R.World
      → List Line
      → (R.World → List Line → Option (Result (Unit {0}) × (R.World × List Line)))
      → Option (Result (Unit {0}) × (R.World × List Line))
  unfolding after_event is_terminal
  event_received (ok event, w) out more = after_event event (is_terminal event) (more w) w out
  event_received (err e, w) out more = some (err e, (w, out))

  -- One event for each unit of fuel.
  unfoldable pub monitor : ℕ → ProgressClient R → Shell R.World (Unit {0})
  unfolding event_received
  monitor zero c (w, out) = none
  monitor (suc fuel) c (w, out) =
      event_received (receive R c w) out (λ w' out'. monitor fuel c (w', out'))
