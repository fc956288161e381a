-- ===== src/Cli/Main/Progress.antt =====
-- src/bin/swupdate-client.rs: `main` on the command `progress`.
use swupdate_rs.Common.{ℕ, ◌≡◌, refl, ap, ◌∙◌, some, List, [], ◌∷◌, map, length, ◌≤◌, suc}
use swupdate_rs.Error.{ok}
use swupdate_rs.Text.{codes}
use swupdate_rs.Runtime.{Runtime}
use swupdate_rs.Types.Event.{from_raw}
use swupdate_rs.Wire.ProgressMsg.{RawProgressMsg}
use swupdate_rs.Progress.Client.{ProgressClient}
use swupdate_rs.Progress.Client as Client
use swupdate_rs.Cli.Args.{Cli, Command, build_config}
use swupdate_rs.Cli.Join.{Side}
use swupdate_rs.Cli.Output.{Line, stdout}
use swupdate_rs.Cli.Monitor.Events.{printed, monitor-Watched}
use swupdate_rs.Common.{◌<◌, ◌++◌}
use swupdate_rs.Error.{err, connection, IoError}
use swupdate_rs.Error.Display.{display_error}
use swupdate_rs.Cli.Output.{error}
use swupdate_rs.Cli.Monitor.Lost.{Lost, Lost-Broken, monitor-Broken}
use swupdate_rs.Cli.Monitor.Reports.{Reported, Reported-Watched}
use swupdate_rs.Cli.Run.{run_command}
use swupdate_rs.Cli.Main.{main, exit_with}
use swupdate_rs.Cli.Main.Calls.{main-command}

-- The lines of the command, for the messages of an update.
abbrev pub watched_lines : List RawProgressMsg → List Line
watched_lines ms =
    stdout (codes "Connected to progress socket, waiting for events...") ∷ printed (map from_raw ms)

watch_command :
    (R : Runtime) (fuel : ℕ) (schedule : List Side) (cli : Cli) (c : ProgressClient R)
    (ms : List RawProgressMsg) (w w1 w' : R.World)
    → Client.connect R (build_config R cli w) w ≡ (ok c, w1)
    → Reported R c ms w1 w'
    → length (map from_raw ms) ≤ fuel
    → run_command R fuel schedule (build_config R cli w) Command.progress (w, [])
      ≡ some (ok tt, (w', watched_lines ms))
unfolding run_command
watch_command R fuel schedule cli c ms w w1 w' connected reported enough =
    rw connected
      (monitor-Watched R c (map from_raw ms) fuel _ (Reported-Watched R c ms reported) enough)

length-map : (ms : List RawProgressMsg) → length (map from_raw ms) ≡ length ms
length-map [] = refl
length-map (m ∷ ms) = ap suc (length-map ms)

-- Over any runtime, in either layout: where the progress socket is connected, with its handshake,
-- and the daemon's messages arrive one after the other, each with values that fit its fields, up
-- to the first whose status is SUCCESS, FAILURE, DONE or above every code, `main` on the command
-- `progress`, given a unit of fuel for each message, exits with 0, has printed the line of its
-- connection and those of the events of exactly these messages in order, and has read no further.
pub main-Reported :
    (R : Runtime) (fuel : ℕ) (schedule : List Side) (cli : Cli) (c : ProgressClient R)
    (ms : List RawProgressMsg) (w w1 w' : R.World)
    → cli.command ≡ Command.progress
    → Client.connect R (build_config R cli w) w ≡ (ok c, w1)
    → Reported R c ms w1 w'
    → length ms ≤ fuel
    → main R fuel schedule cli w ≡ some (record { code = 0; lines = watched_lines ms; world = w' })
unfolding exit_with
main-Reported R fuel schedule cli c ms w w1 w' q connected reported enough =
    main-command R fuel schedule cli Command.progress w q
    ∙ ap (exit_with R) (
        watch_command R fuel schedule cli c ms w w1 w' connected reported
          (rw (length-map ms) enough))

lost_command :
    (R : Runtime) (fuel : ℕ) (schedule : List Side) (cli : Cli) (c : ProgressClient R) (x : IoError)
    (ms : List RawProgressMsg) (w w1 w' : R.World)
    → Client.connect R (build_config R cli w) w ≡ (ok c, w1)
    → Lost R c x ms w1 w'
    → length (map from_raw ms) < fuel
    → run_command R fuel schedule (build_config R cli w) Command.progress (w, [])
      ≡ some (err (connection x), (w', watched_lines ms))
unfolding run_command
lost_command R fuel schedule cli c x ms w w1 w' connected lost enough =
    rw connected (monitor-Broken R c x (map from_raw ms) fuel _ (Lost-Broken R c x ms lost) enough)

-- Over any runtime, in either layout: where the progress socket is connected, with its handshake,
-- and some messages arrive, each with values that fit its fields and none with a status that ends
-- the update, and then a read fails, `main` on the command `progress`, given more fuel than
-- messages, exits with 1. It has printed the line of its connection, those of the events of exactly
-- these messages in order, and then the I/O error: the connection is not made anew.
pub main-Lost :
    (R : Runtime) (fuel : ℕ) (schedule : List Side) (cli : Cli) (c : ProgressClient R) (x : IoError)
    (ms : List RawProgressMsg) (w w1 w' : R.World)
    → cli.command ≡ Command.progress
    → Client.connect R (build_config R cli w) w ≡ (ok c, w1)
    → Lost R c x ms w1 w'
    → length ms < fuel
    → main R fuel schedule cli w
      ≡ some (record {
        code = 1;
        lines = watched_lines ms ++ (error (display_error (connection x)) ∷ []);
        world = w';
      })
unfolding exit_with
main-Lost R fuel schedule cli c x ms w w1 w' q connected lost enough =
    main-command R fuel schedule cli Command.progress w q
    ∙ ap (exit_with R)
        (lost_command R fuel schedule cli c x ms w w1 w' connected lost (rw (length-map ms) enough))
