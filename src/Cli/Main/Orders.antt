-- ===== src/Cli/Main/Orders.antt =====
-- src/bin/swupdate-client.rs: `main` on the command `install` with `--progress` under two schedules.
use swupdate_rs.Common.{
  ℕ, ◌≡◌, refl, ap, ◌∙◌, sym, true, false, none, some, Option, List, Bytes, length, All, IsByte,
  from_ne_bytes, slice,
}
use swupdate_rs.Error.{Result, ok}
use swupdate_rs.Runtime.{Runtime}
use swupdate_rs.Runtime.Memory.{memory, World}
use swupdate_rs.Control.Install.Session.{answered_by}
use swupdate_rs.Cli.Args.{Cli, Command, InstallArgs, build_config}
use swupdate_rs.Cli.Output.{Line}
use swupdate_rs.Cli.Join.{Side}
use swupdate_rs.Cli.Join.Confluent.{Agree}
use swupdate_rs.Cli.Run.Orders.{run_command-Agree}
use swupdate_rs.Cli.Main.{main, Exit, exit_with}
use swupdate_rs.Cli.Main.Calls.{main-command}
use swupdate_rs.Cli.Main.Watched.{zero_exit}

-- An exit has an outcome of the command behind it.
outcome :
    (R : Runtime) (o : Option (Result (Unit {0}) × (R.World × List Line))) (e : Exit R)
    → exit_with R o ≡ some e
    → (r : Result (Unit {0}) × (R.World × List Line)) × (o ≡ some r)
unfolding exit_with
outcome R none e h = cc
outcome R (some r) e h = (r, refl)

exit_of_success :
    (R : Runtime) (w : R.World) (out : List Line) (e : Exit R)
    → exit_with R (some (ok tt, (w, out))) ≡ some e
    → e ≡ record { code = 0; lines = out; world = w }
unfolding exit_with
exit_of_success R w out e h = cc

-- Over the runtime in memory, for the command `install` with `--progress`, where the control socket
-- can be connected and the daemon answers the request with bytes of a message's size and the type
-- ACK: if `main` exits with 0 in one order of the streaming and the monitoring, then in every order
-- in which it comes to an exit it exits with 0 too, and has sent, read and received the same. The
-- lines are the same but for their order.
pub main-Agree :
    (fuel : ℕ) (first second : List Side) (cli : Cli) (args : InstallArgs) (a : Bytes)
    (rest : List Bytes) (w : World) (e f : Exit memory)
    → cli.command ≡ Command.install args
    → args.progress ≡ true
    → w.slow ≡ false
    → w.present (build_config memory cli (answered_by a rest w)).ctrl_path ≡ true
    → length a ≡ 3120
    → All IsByte a
    → from_ne_bytes (slice 4 4 a) ≡ 1
    → All IsByte w.input
    → main memory fuel first cli (answered_by a rest w) ≡ some e
    → e.code ≡ 0
    → main memory fuel second cli (answered_by a rest w) ≡ some f
    → (f.code ≡ 0) × Agree e.world f.world e.lines f.lines
main-Agree fuel first second cli args a rest w e f q watched quick there sized bytes ack image run z
      other =
    let config = build_config memory cli (answered_by a rest w) in
    let success =
      zero_exit memory _ e
        (sym (main-command memory fuel first cli (Command.install args) (answered_by a rest w) q)
          ∙ run)
        z in
    let behind =
      sym (main-command memory fuel second cli (Command.install args) (answered_by a rest w) q)
      ∙ other in
    let (r, returned) = outcome memory _ f behind in
    let (w2, out2, is, agree) =
      run_command-Agree fuel first second args rest w image a config e.world e.lines r sized bytes
        ack watched quick there success returned in
    let exit =
      exit_of_success memory w2 out2 f
        (ap (exit_with memory) (sym (returned ∙ ap some is)) ∙ behind) in
    rw exit (refl, agree)
