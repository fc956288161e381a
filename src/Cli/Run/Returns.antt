-- ===== src/Cli/Run/Returns.antt =====
-- src/bin/swupdate-client.rs: every command over a runtime whose inputs end.
use mathlib.Core.Path.{subst, sym}
use swupdate_rs.Common.{
  ℕ, ◌+◌, ◌*◌, ◌≡◌, ◌≤◌, ◌<◌, refl, Bool, true, false, Option, none, some, List, arith,
}
use swupdate_rs.Error.{Result}
use swupdate_rs.Text.{Text}
use swupdate_rs.Runtime.{Runtime}
use swupdate_rs.Runtime.Finite.{Finite}
use swupdate_rs.Socket.{SocketConfig}
use swupdate_rs.Control.Client as Control
use swupdate_rs.Control.Client.Spends as ControlSpends
use swupdate_rs.Control.Install as Install
use swupdate_rs.Control.Install.{Installation}
use swupdate_rs.Control.Install.Returns.{Returned, stream-Returned, stream_file-Returned}
use swupdate_rs.Control.Calls.{perform}
use swupdate_rs.Control.Calls.Spends.{perform-Spends, install-Spends}
use swupdate_rs.Control.Messages.Formed as Call
use swupdate_rs.Progress.Client as Progress
use swupdate_rs.Progress.Client.Preserves as Kept
use swupdate_rs.Runtime.Finite.{by_measure, passive}
use swupdate_rs.Cli.Args.{InstallArgs, Command}
use swupdate_rs.Cli.Output.{Line}
use swupdate_rs.Cli.Shell.{call}
use swupdate_rs.Cli.Shell.Returns.{
  Ended, ends, Budget, Ends, call-Ends, write_lines-Ends, then-Ends, print-Ends,
}
use swupdate_rs.Cli.Monitor.{monitor}
use swupdate_rs.Cli.Monitor.Returns.{monitor_ends}
use swupdate_rs.Cli.Join.{Side, opening, receiving}
use swupdate_rs.Cli.Join.Returns.{streaming_turns, watching_turns, join_ends}
use swupdate_rs.Cli.Run.{
  run_command, run_install, request_of, streamed_as, stream_alone, stream_and_watch, stream_from,
  carried,
}
use swupdate_rs.Cli.Run.Calls.{call_of, run_command-call_of, lines_of}

module _ (R : Runtime) (F : Finite R) (fuel : ℕ) (schedule : List Side) where
  -- More fuel than bytes to read and messages to receive; two turns of the streaming for each byte,
  -- and two more; and a turn of the monitoring for each message, and one more.
  pub record Enough (w : R.World) : Type 0 where
    pub fuel_to_read : F.left.to_read w < fuel
    pub fuel_to_receive : F.left.to_receive w < fuel
    pub turns_to_stream : 2 * F.left.to_read w + 2 ≤ streaming_turns schedule
    pub turns_to_watch : F.left.to_receive w + 1 ≤ watching_turns schedule

  abbrev budget : Budget F
  budget = record {
    Enough = Enough;
    still = λ w' w q h. record {
      fuel_to_read = omega (arith, q.reads_kept, h.fuel_to_read);
      fuel_to_receive = omega (arith, q.receipts_kept, h.fuel_to_receive);
      turns_to_stream = omega (arith, q.reads_kept, h.turns_to_stream);
      turns_to_watch = omega (arith, q.receipts_kept, h.turns_to_watch);
    };
  }

  carried_ends :
      (o : Option (Result ℕ × R.World)) (w : R.World) (out : List Line)
      → Returned R F o w
      → Ended F (carried R fuel schedule out o) w
  carried_ends o w out h =
      subst (λ o. Ended F (carried R fuel schedule out o) w) (sym h.returned) (ends F _ w h.spent)

  stream_from-Ends :
      (i : Installation R) (file : Option Text) → Ends F budget (stream_from R fuel schedule i file)
  unfolding stream_from
  stream_from-Ends i none w out h =
      carried_ends (Install.stream R fuel i R.stdin w) w out
        (stream-Returned R F fuel i R.stdin w h.fuel_to_read)
  stream_from-Ends i (some path) w out h =
      carried_ends (Install.stream_file R fuel i path w) w out
        (stream_file-Returned R F fuel i path w h.fuel_to_read)

  stream_alone-Ends :
      (i : Installation R) (file : Option Text)
      → Ends F budget (stream_alone R fuel schedule i file)
  unfolding stream_alone
  stream_alone-Ends i file =
      then-Ends F budget (stream_from R fuel schedule i file) _ (stream_from-Ends i file)
        (λ bytes. write_lines-Ends F budget _)

  stream_and_watch-Ends :
      (i : Installation R) (file : Option Text)
      → Ends F budget (stream_and_watch R fuel schedule i file)
  unfolding stream_and_watch
  stream_and_watch-Ends i file =
      then-Ends F budget (call (Install.progress R i)) _
        (call-Ends F budget (Install.progress R i) (
          unfold Install.progress in
          Kept.connect-Preserves R (by_measure F.left) (passive F) i.client.config))
        (λ c w out h.
          join_ends R F i.client.stream c schedule (opening file) receiving w out h.turns_to_stream
            h.turns_to_watch)

  streamed_as-Ends :
      (progress : Bool) (i : Installation R) (file : Option Text)
      → Ends F budget (streamed_as R fuel schedule progress i file)
  unfolding streamed_as
  streamed_as-Ends true i file = stream_and_watch-Ends i file
  streamed_as-Ends false i file = stream_alone-Ends i file

  install-Ends :
      (config : SocketConfig) (args : InstallArgs)
      → Ends F budget (run_install R fuel schedule config args)
  unfolding run_install
  install-Ends config args =
      then-Ends F budget (call (Control.connect R config)) _
        (call-Ends F budget (Control.connect R config) (ControlSpends.connect-Spends R F config))
        (λ ctrl.
          then-Ends F budget (call (Install.install R ctrl (request_of args))) _
            (call-Ends F budget (Install.install R ctrl (request_of args))
              (install-Spends R F ctrl (request_of args)))
            (λ i.
              print-Ends F budget _ (streamed_as R fuel schedule args.progress i args.file)
                (streamed_as-Ends args.progress i args.file)))

  progress-Ends :
      (config : SocketConfig) → Ends F budget (run_command R fuel schedule config Command.progress)
  unfolding run_command
  progress-Ends config =
      then-Ends F budget (call (Progress.connect R config)) _
        (call-Ends F budget (Progress.connect R config)
          (Kept.connect-Preserves R (by_measure F.left) (passive F) config))
        (λ c.
          print-Ends F budget _ (monitor R fuel c)
            (λ w out h. monitor_ends R F fuel c w out h.fuel_to_receive))

  call_command-Ends :
      (config : SocketConfig) (command : Command) (c : Call.Call)
      → call_of command ≡ some c
      → Ends F budget (run_command R fuel schedule config command)
  call_command-Ends config command c e w out h =
      subst (λ o. Ended F o w) (sym (run_command-call_of R fuel schedule config command c w out e))
        (then-Ends F budget (call (Control.connect R config)) _
          (call-Ends F budget (Control.connect R config) (ControlSpends.connect-Spends R F config))
          (λ ctrl.
            then-Ends F budget (call (perform R ctrl c)) _
              (call-Ends F budget (perform R ctrl c) (perform-Spends R F ctrl c))
              (λ a. write_lines-Ends F budget (lines_of command a)))
          w out h)

  pub run_command-Ends :
      (config : SocketConfig) (command : Command)
      → Ends F budget (run_command R fuel schedule config command)
  run_command-Ends config (Command.install args) = unfold run_command in install-Ends config args
  run_command-Ends config Command.progress = progress-Ends config
  run_command-Ends config command = call_command-Ends config command _ refl
