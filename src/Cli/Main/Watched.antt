-- ===== src/Cli/Main/Watched.antt =====
-- src/bin/swupdate-client.rs: `main` on the command `install` with `--progress`.
use swupdate_rs.Common.{
  ℕ, ◌≡◌, ap, ◌∙◌, sym, true, false, none, some, Option, List, Bytes, length, All, IsByte,
  from_ne_bytes, slice,
}
use swupdate_rs.Error.{Result, ok, err}
use swupdate_rs.Runtime.{Runtime}
use swupdate_rs.Runtime.Memory.{memory, World}
use swupdate_rs.Control.Install.Session.{answered_by, exchanged}
use swupdate_rs.Cli.Args.{Cli, Command, InstallArgs, build_config}
use swupdate_rs.Cli.Output.{Line}
use swupdate_rs.Cli.Join.{Side}
use swupdate_rs.Common.{refl, ◌≤◌, ◌+◌, ◌*◌}
use swupdate_rs.Progress.Client.{ProgressClient, connect}
use swupdate_rs.Types.Event.{ProgressEvent}
use swupdate_rs.Cli.Monitor.Events.{Watched}
use swupdate_rs.Cli.Join.Turns.{IsThere}
use swupdate_rs.Cli.Join.Returns.{streaming_turns, watching_turns}
use swupdate_rs.Cli.Run.Installs.{request_bytes}
use swupdate_rs.Cli.Run.Watched.{Completed, run_command-Completed, run_command-completes}
use swupdate_rs.Cli.Main.{main, Exit, exit_with}
use swupdate_rs.Cli.Main.Calls.{main-command}

-- The exit code is 0 only where the command succeeded.
pub zero_exit :
    (R : Runtime) (o : Option (Result (Unit {0}) × (R.World × List Line))) (e : Exit R)
    → exit_with R o ≡ some e
    → e.code ≡ 0
    → o ≡ some (ok tt, (e.world, e.lines))
unfolding exit_with
zero_exit R none e p z = cc
zero_exit R (some (ok tt, (w, out))) e p z = cc
zero_exit R (some (err x, (w, out))) e p z = cc

-- Over the runtime in memory, for the command `install` with `--progress`, where the control socket
-- can be connected and the daemon answers the request with bytes of a message's size and the type
-- ACK: whenever `main` exits with 0, in whatever order the streaming and the monitoring went on,
-- the message of the request and behind it exactly the bytes to read were sent, and all of them
-- were read. A progress client was connected, and it received the events that it receives where
-- nothing else goes on, up to the first terminal one. The lines are that of the acceptance and then
-- those of these events, with the number of bytes modulo 2 ^ 64 among them.
pub main-Completed :
    (fuel : ℕ) (schedule : List Side) (cli : Cli) (args : InstallArgs) (a : Bytes)
    (rest : List Bytes) (w : World) (e : Exit memory)
    → cli.command ≡ Command.install args
    → args.progress ≡ true
    → w.slow ≡ false
    → w.present (build_config memory cli (answered_by a rest w)).ctrl_path ≡ true
    → length a ≡ 3120
    → All IsByte a
    → from_ne_bytes (slice 4 4 a) ≡ 1
    → All IsByte w.input
    → main memory fuel schedule cli (answered_by a rest w) ≡ some e
    → e.code ≡ 0
    → Completed (build_config memory cli (answered_by a rest w)) args rest w e.world e.lines
main-Completed fuel schedule cli args a rest w e q watched quick there sized bytes ack image run z =
    run_command-Completed fuel schedule args rest w image a
      (build_config memory cli (answered_by a rest w)) sized bytes ack watched quick there e.world
      e.lines
      (zero_exit memory _ e
        (sym (main-command memory fuel schedule cli (Command.install args) (answered_by a rest w) q)
          ∙ run)
        z)

-- Over the runtime in memory, for the command `install` with `--progress`: where the control socket
-- can be connected, the daemon answers the request with bytes of a message's size and the type ACK,
-- a file that is named is there, the progress socket can be connected behind the request, and its
-- client would receive some events up to a terminal one, `main` exits with 0 under every schedule
-- that lets the streaming go on twice for each byte to read, and twice more, and the monitoring
-- once for each event. The request and the image were then sent, exactly these events received,
-- and their lines printed with the number of bytes among them.
pub main-completes :
    (fuel : ℕ) (schedule : List Side) (cli : Cli) (args : InstallArgs) (a : Bytes)
    (rest : List Bytes) (w start v : World) (client : ProgressClient memory)
    (events : List ProgressEvent)
    → cli.command ≡ Command.install args
    → args.progress ≡ true
    → w.slow ≡ false
    → w.present (build_config memory cli (answered_by a rest w)).ctrl_path ≡ true
    → length a ≡ 3120
    → All IsByte a
    → from_ne_bytes (slice 4 4 a) ≡ 1
    → All IsByte w.input
    → IsThere args.file w
    → connect memory
        (build_config memory cli (answered_by a rest w))
        (exchanged (request_bytes args) rest w)
      ≡ (ok client, start)
    → Watched memory client events start v
    → 2 * length w.input + 2 ≤ streaming_turns schedule
    → length events ≤ watching_turns schedule
    → (e : Exit memory) × (main memory fuel schedule cli (answered_by a rest w) ≡ some e)
      × (e.code ≡ 0)
      × (k : Completed (build_config memory cli (answered_by a rest w)) args rest w e.world e.lines)
      × (k.events ≡ events)
unfolding exit_with
main-completes fuel schedule cli args a rest w start v client events q watched quick there sized
      bytes ack image file made heard turns few =
    let (w', out', run, k, same) =
      run_command-completes fuel schedule args rest w image a
        (build_config memory cli (answered_by a rest w)) sized bytes ack watched quick there client
        events start v made file heard turns few in
    (
      record { code = 0; lines = out'; world = w' },
      main-command memory fuel schedule cli (Command.install args) (answered_by a rest w) q
          ∙ ap (exit_with memory) run,
      refl,
      k,
      same,
    )
