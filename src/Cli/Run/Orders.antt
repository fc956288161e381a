-- ===== src/Cli/Run/Orders.antt =====
-- src/bin/swupdate-client.rs: the command `install` with `--progress` under two schedules.
use mathlib.Core.Path.{subst, sym}
use swupdate_rs.Common.{
  ℕ, ◌≡◌, ◌∙◌, true, false, some, List, [], ◌∷◌, Bytes, length, All, IsByte, from_ne_bytes, slice,
}
use swupdate_rs.Text.{Text}
use swupdate_rs.Error.{Result, ok, err}
use swupdate_rs.Runtime.Memory.{memory, World}
use swupdate_rs.Runtime.Memory.Untouched.{Same, untouched, memory_untouched}
use swupdate_rs.Socket.{SocketConfig}
use swupdate_rs.Control.Install.Session.{answered_by, exchanged}
use swupdate_rs.Progress.Client.{ProgressClient, connect}
use swupdate_rs.Progress.Client.Preserves as Kept
use swupdate_rs.Cli.Args.{InstallArgs, Command}
use swupdate_rs.Cli.Output.{Line}
use swupdate_rs.Cli.Shell.{proceed, beside}
use swupdate_rs.Cli.Join.{Side, join, opening, receiving}
use swupdate_rs.Cli.Join.Confluent.{Agree, join-Agree}
use swupdate_rs.Cli.Run.{run_command}
use swupdate_rs.Cli.Run.Installs.{request_bytes, accepted}
use swupdate_rs.Cli.Run.Watched.{behind_acceptance}

abbrev Outcome : Type 0
Outcome = Result (Unit {0}) × (World × List Line)

module _ (fuel : ℕ) (first second : List Side) (args : InstallArgs) (rest : List Bytes) (w : World)
    (image : All IsByte w.input) where
  joined :
      (s : Text) (c : Result (ProgressClient memory) × World) (w1 : World) (out1 : List Line)
      (r : Outcome)
      → Same c.1 (exchanged (request_bytes args) rest w)
      → proceed
          (some (beside (accepted ∷ []) c))
          (λ p. join memory s p first (opening args.file) receiving)
        ≡ some (ok tt, (w1, out1))
      → proceed
          (some (beside (accepted ∷ []) c))
          (λ p. join memory s p second (opening args.file) receiving)
        ≡ some r
      → (w2 : World) × (out2 : List Line) × (r ≡ (ok tt, (w2, out2))) × Agree w1 w2 out1 out2
  joined s (err x, start) w1 out1 r same e f = cc
  joined s (ok p, start) w1 out1 r (sent, input) e f =
      join-Agree s p first second args.file start w1 (accepted ∷ []) out1 r
        (subst (All IsByte) (sym input) image) e f

  pub run_command-Agree :
      (a : Bytes) (config : SocketConfig) (w1 : World) (out1 : List Line) (r : Outcome)
      → length a ≡ 3120
      → All IsByte a
      → from_ne_bytes (slice 4 4 a) ≡ 1
      → args.progress ≡ true
      → w.slow ≡ false
      → w.present config.ctrl_path ≡ true
      → run_command memory fuel first config (Command.install args) (answered_by a rest w, [])
        ≡ some (ok tt, (w1, out1))
      → run_command memory fuel second config (Command.install args) (answered_by a rest w, [])
        ≡ some r
      → (w2 : World) × (out2 : List Line) × (r ≡ (ok tt, (w2, out2))) × Agree w1 w2 out1 out2
  run_command-Agree a config w1 out1 r sized bytes ack watched quick there e f =
      joined config.ctrl_path (connect memory config (exchanged (request_bytes args) rest w)) w1
        out1 r
        (Kept.connect-Preserves memory untouched memory_untouched config
          (exchanged (request_bytes args) rest w))
        (sym (
            behind_acceptance fuel first args rest w image a config sized bytes ack watched quick
              there)
          ∙ e)
        (sym (
            behind_acceptance fuel second args rest w image a config sized bytes ack watched quick
              there)
          ∙ f)
