-- ===== src/Cli/Main.antt =====
-- src/bin/swupdate-client.rs: `main`, behind the parsing of the arguments.
pub mod Calls
pub mod Returns
pub mod Installs
pub mod Streams
pub mod Watched
pub mod Orders
pub mod Installing
pub mod Progress
use swupdate_rs.Cli.Args.{Cli}
use swupdate_rs.Cli.Join.{Side}
use swupdate_rs.Error.Display.{display_error}
use swupdate_rs.Common.{ℕ, Option, none, some, [], ◌∷◌, ◌++◌, List}
use swupdate_rs.Error.{Result, ok, err}
use swupdate_rs.Runtime.{Runtime}
use swupdate_rs.Cli.Output.{Line, error}
use swupdate_rs.Cli.Run.{run}

-- The exit code, the lines, and the world that is left.
pub record Exit (R : Runtime) : Type 0 where
  pub code : ℕ
  pub lines : List Line
  pub world : R.World

unfoldable pub exit_with :
    (R : Runtime) → Option (Result (Unit {0}) × (R.World × List Line)) → Option (Exit R)
unfolding display_error
exit_with R none = none
exit_with R (some (ok u, (w, out))) = some (record { code = 0; lines = out; world = w })
exit_with R (some (err e, (w, out))) =
    some (record { code = 1; lines = out ++ (error (display_error e) ∷ []); world = w })

unfoldable pub main :
    (R : Runtime) → (fuel : ℕ) → (schedule : List Side) → Cli → R.World → Option (Exit R)
unfolding exit_with run
main R fuel schedule cli w = exit_with R (run R fuel schedule cli (w, []))
