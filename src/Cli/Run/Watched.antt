-- ===== src/Cli/Run/Watched.antt =====
-- src/bin/swupdate-client.rs: the command `install` with `--progress`.
use mathlib.Core.Path.{subst, sym}
use swupdate_rs.Common.{
  ℕ, ◌≡◌, ◌≤◌, ◌+◌, ◌*◌, refl, ap, ◌∙◌, true, false, suc, arith, some, List, [], ◌∷◌, ◌++◌, Bytes,
  length, All, IsByte, from_ne_bytes, slice, ◌%◌, ◌^◌,
}
use swupdate_rs.Text.{Text}
use swupdate_rs.Error.{Result, ok, err}
use swupdate_rs.Runtime.Memory.{memory, World}
use swupdate_rs.Runtime.Memory.Untouched.{
  Same, untouched, memory_untouched, same_files, memory_same_files,
}
use swupdate_rs.Socket.{SocketConfig}
use swupdate_rs.Types.Event.{ProgressEvent}
use swupdate_rs.Control.Client as Control
use swupdate_rs.Control.Install as Install
use swupdate_rs.Control.Install.Session.{answered_by, exchanged, install-stream}
use swupdate_rs.Progress.Client.{ProgressClient, connect}
use swupdate_rs.Progress.Client.Preserves as Kept
use swupdate_rs.Cli.Args.{InstallArgs, Command}
use swupdate_rs.Cli.Output.{Line}
use swupdate_rs.Cli.Monitor.Events.{Watched, printed}
use swupdate_rs.Cli.Shell.{proceed, beside}
use swupdate_rs.Cli.Join.{Side, join, opening, receiving, streamed_line}
use swupdate_rs.Cli.Join.Course.{Inserted}
use swupdate_rs.Cli.Join.Alone.{Both, join-Both}
use swupdate_rs.Cli.Join.Completes.{join-completes}
use swupdate_rs.Cli.Join.Returns.{streaming_turns, watching_turns}
use swupdate_rs.Cli.Join.Turns.{IsThere, still-IsThere}
use swupdate_rs.Cli.Run.{run_command, run_install, request_of, streamed_as, stream_and_watch}
use swupdate_rs.Cli.Run.Installs.{connected, request_bytes, accepted}

-- The request and then the image were sent, and the image was read to its end. A progress client
-- was connected, and it received the events that it receives where nothing else goes on, up to the
-- first terminal one. The lines are that of the acceptance and then those of the events, with the
-- number of bytes streamed among them.
pub record Completed (config : SocketConfig) (args : InstallArgs) (rest : List Bytes) (w w' : World)
    (out : List Line) : Type 0 where
  pub all_sent : w'.sent ≡ (w.sent ++ request_bytes args) ++ w.input
  pub all_read : w'.input ≡ []
  pub client : ProgressClient memory
  pub start : World
  pub made : connect memory config (exchanged (request_bytes args) rest w) ≡ (ok client, start)
  pub events : List ProgressEvent
  pub behind : World
  pub heard : Watched memory client events start behind
  pub answers_left : w'.answers ≡ behind.answers
  pub lines : List Line
  pub told : Inserted (streamed_line (length w.input % 2 ^ 64)) (printed events) lines
  pub all_lines : out ≡ accepted ∷ lines

module _ (fuel : ℕ) (schedule : List Side) (args : InstallArgs) (rest : List Bytes) (w : World)
    (image : All IsByte w.input) where
  -- What a join behind the connection means for the command.
  completed :
      (config : SocketConfig) (client : ProgressClient memory) (start w' : World) (out' : List Line)
      → connect memory config (exchanged (request_bytes args) rest w) ≡ (ok client, start)
      → Same start (exchanged (request_bytes args) rest w)
      → Both client start w' (accepted ∷ []) out'
      → Completed config args rest w w' out'
  completed config client start w' out' made (sent, input) b = record {
    all_sent = b.all_sent ∙ cc (sent, input);
    all_read = b.all_read;
    client = client;
    start = start;
    made = made;
    events = b.events;
    behind = b.behind;
    heard = b.heard;
    answers_left = b.answers_left;
    lines = b.lines;
    told =
        subst
          (λ (bytes : Bytes).
            Inserted (streamed_line (length bytes % 2 ^ 64)) (printed b.events) b.lines)
          input b.told;
    all_lines = b.all_lines;
  }

  connect-Same :
      (config : SocketConfig) (client : ProgressClient memory) (start : World)
      → connect memory config (exchanged (request_bytes args) rest w) ≡ (ok client, start)
      → Same start (exchanged (request_bytes args) rest w)
  connect-Same config client start made =
      subst (λ r. Same r.1 (exchanged (request_bytes args) rest w)) made
        (Kept.connect-Preserves memory untouched memory_untouched config
          (exchanged (request_bytes args) rest w))

  joined :
      (config : SocketConfig) (s : Text) (r : Result (ProgressClient memory) × World) (w' : World)
      (out' : List Line)
      → connect memory config (exchanged (request_bytes args) rest w) ≡ r
      → proceed
          (some (beside (accepted ∷ []) r))
          (λ p. join memory s p schedule (opening args.file) receiving)
        ≡ some (ok tt, (w', out'))
      → Completed config args rest w w' out'
  joined config s (err x, start) w' out' made e = cc
  joined config s (ok p, start) w' out' made e =
      let same = connect-Same config p start made in
      completed config p start w' out' made same (
        join-Both s p schedule args.file start w' (accepted ∷ []) out'
          (subst (All IsByte) (sym same.1) image) e)

  module _ (a : Bytes) (config : SocketConfig) (sized : length a ≡ 3120) (bytes : All IsByte a)
      (ack : from_ne_bytes (slice 4 4 a) ≡ 1) (watched : args.progress ≡ true)
      (quick : w.slow ≡ false) (there : w.present config.ctrl_path ≡ true) where
    -- Behind the acceptance, the command connects to the progress socket and joins its two tasks.
    pub behind_acceptance :
        run_command memory fuel schedule config (Command.install args) (answered_by a rest w, [])
        ≡ proceed
            (some (
              beside
                (accepted ∷ [])
                (connect memory config (exchanged (request_bytes args) rest w))))
            (λ p. join memory config.ctrl_path p schedule (opening args.file) receiving)
    unfolding run_command run_install streamed_as stream_and_watch Install.progress
    behind_acceptance =
        let c : Control.ControlClient memory = record {
          stream = config.ctrl_path;
          config = config;
        } in
        let granted =
          (install-stream c (request_of args) a rest memory.stdin (suc (length w.input)) w sized
            bytes ack image (omega arith)).0 in
        rw (connected config (answered_by a rest w) quick there) (rw granted (rw watched refl))

    pub run_command-Completed :
        (w' : World) (out' : List Line)
        → run_command memory fuel schedule config (Command.install args) (answered_by a rest w, [])
          ≡ some (ok tt, (w', out'))
        → Completed config args rest w w' out'
    run_command-Completed w' out' e =
        joined config config.ctrl_path
          (connect memory config (exchanged (request_bytes args) rest w)) w' out' refl
          (sym behind_acceptance ∙ e)

    pub run_command-completes :
        (client : ProgressClient memory) (events : List ProgressEvent) (start v : World)
        → connect memory config (exchanged (request_bytes args) rest w) ≡ (ok client, start)
        → IsThere args.file w
        → Watched memory client events start v
        → 2 * length w.input + 2 ≤ streaming_turns schedule
        → length events ≤ watching_turns schedule
        → (w' : World) × (out' : List Line) × (run_command memory fuel schedule config
              (Command.install args)
              (answered_by a rest w, [])
            ≡ some (ok tt, (w', out')))
          × (k : Completed config args rest w w' out') × (k.events ≡ events)
    unfolding completed
    run_command-completes client events start v made file heard turns few =
        let same = connect-Same config client start made in
        let (w', out', e, b, q) =
          join-completes config.ctrl_path client schedule args.file events start v (accepted ∷ [])
            (subst (All IsByte) (sym same.1) image)
            (still-IsThere args.file start w
              (subst (λ r. r.1.present ≡ w.present) made
                (Kept.connect-Preserves memory same_files memory_same_files config
                  (exchanged (request_bytes args) rest w)))
              file)
            heard (omega (arith, turns, ap (λ (xs : Bytes). length xs) (same.1))) few in
        (
          w',
          out',
          behind_acceptance
              ∙ ap
                  (λ r.
                    proceed (some (beside (accepted ∷ []) r))
                      (λ p. join memory config.ctrl_path p schedule (opening args.file) receiving))
                  made
              ∙ e,
          completed config client start w' out' made same b,
          q,
        )
