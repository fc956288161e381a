-- ===== src/Cli/Run/Installing.antt =====
-- src/bin/swupdate-client.rs: the command `install` with `--progress`, over any runtime.
use swupdate_rs.Common.{ℕ, ◌≡◌, ◌↔◌, refl, ap, ◌∙◌, sym, true, some, List, [], ◌∷◌}
use swupdate_rs.Error.{Result, ok, err, continue, pure}
use swupdate_rs.Runtime.{Runtime}
use swupdate_rs.Socket.{SocketConfig}
use swupdate_rs.Control.Client as Control
use swupdate_rs.Control.Install as Install
use swupdate_rs.Control.Install.{Installation}
use swupdate_rs.Control.Messages.{install_message}
use swupdate_rs.Progress.Client.{ProgressClient, connect}
use swupdate_rs.Cli.Args.{InstallArgs, Command}
use swupdate_rs.Cli.Output.{Line}
use swupdate_rs.Cli.Shell.{Shell, proceed, beside}
use swupdate_rs.Cli.Join.{Side, join, opening, receiving, streamed, seen_last}
use swupdate_rs.Cli.Join.Steps.{Reach, state}
use swupdate_rs.Cli.Join.Reachable.{join_iff}
use swupdate_rs.Cli.Run.{run_command, run_install, request_of, streamed_as, stream_and_watch}
use swupdate_rs.Cli.Run.Installs.{accepted}

-- What a successful step of a command was.
proceed-ok :
    {W A B : Type 0} (r : Result A × W) (out : List Line) (f : A → Shell W B) {b : B}
    {last : W × List Line}
    → proceed (some (beside out r)) f ≡ some (ok b, last)
    → (a : A) × (w : W) × (r ≡ (ok a, w)) × (f a (w, out) ≡ some (ok b, last))
proceed-ok (ok a, w) out f e = (a, w, refl, e)
proceed-ok (err x, w) out f e = cc

module _ (R : Runtime) (config : SocketConfig) (args : InstallArgs) (w w' : R.World)
    (out : List Line) where
  -- The control socket was connected, the request acknowledged, and the progress socket connected,
  -- and then the two tasks were carried out in some order, up to this world and these lines.
  pub record Installing : Type 0 where
    pub ctrl : Control.ControlClient R
    pub client : ProgressClient R
    pub connected : R.World
    pub granted : R.World
    pub start : R.World
    pub made : Control.connect R config w ≡ (ok ctrl, connected)
    pub acknowledged :
        Control.send_and_expect_ack R ctrl (install_message (request_of args)) connected
        ≡ (ok tt, granted)
    pub watching : connect R ctrl.config granted ≡ (ok client, start)
    pub carried_out :
        Reach R ctrl.stream client
          (state R (opening args.file) receiving start (accepted ∷ []))
          (state R streamed seen_last w' out)

  module _ (fuel : ℕ) (watched : args.progress ≡ true) where
    abbrev pub Succeeds : List Side → Type 0
    Succeeds schedule =
        run_command R fuel schedule config (Command.install args) (w, []) ≡ some (ok tt, (w', out))

    install_ok :
        (ctrl : Control.ControlClient R) (i : Installation R) (w1 w2 : R.World)
        → Install.install R ctrl (request_of args) w1 ≡ (ok i, w2)
        → (Control.send_and_expect_ack R ctrl (install_message (request_of args)) w1 ≡ (ok tt, w2))
          × (i ≡ record { client = ctrl })
    unfolding Install.install
    install_ok ctrl i w1 w2 e =
        by_answer (Control.send_and_expect_ack R ctrl (install_message (request_of args)) w1) e
      where
        by_answer :
            (r : Result (Unit {0}) × R.World)
            → continue r (λ u. pure (record { client = ctrl })) ≡ (ok i, w2)
            → (r ≡ (ok tt, w2)) × (i ≡ record { client = ctrl })
        by_answer (ok tt, w3) h = (cc h, cc h)
        by_answer (err x, w3) h = cc h

    -- Behind the acceptance, the command connects to the progress socket and joins its two tasks.
    behind_acceptance :
        (schedule : List Side) (ctrl : Control.ControlClient R) (w1 w2 : R.World)
        → Control.connect R config w ≡ (ok ctrl, w1)
        → Control.send_and_expect_ack R ctrl (install_message (request_of args)) w1 ≡ (ok tt, w2)
        → run_command R fuel schedule config (Command.install args) (w, [])
          ≡ proceed
              (some (beside (accepted ∷ []) (connect R ctrl.config w2)))
              (λ p. join R ctrl.stream p schedule (opening args.file) receiving)
    unfolding run_command run_install streamed_as stream_and_watch Install.install Install.progress
    behind_acceptance schedule ctrl w1 w2 made ack = rw made (rw ack (rw watched refl))

    -- What a success had behind it before the acceptance.
    accepted_first :
        (schedule : List Side)
        → Succeeds schedule
        → (ctrl : Control.ControlClient R) × (w1 : R.World) × (w2 : R.World) × (Control.connect R
              config w
            ≡ (ok ctrl, w1))
          × (Control.send_and_expect_ack R ctrl (install_message (request_of args)) w1
              ≡ (ok tt, w2))
    unfolding run_command run_install
    accepted_first schedule e =
        let (ctrl, w1, made, e1) = proceed-ok (Control.connect R config w) [] _ e in
        let (i, w2, granted, e2) =
          proceed-ok (Install.install R ctrl (request_of args) w1) [] _ e1 in
        (ctrl, w1, w2, made, (install_ok ctrl i w1 w2 granted).0)

    pub run_command_iff : ((schedule : List Side) × Succeeds schedule) ↔ Installing
    run_command_iff = (
      λ (schedule, e).
          let (ctrl, w1, w2, made, ack) = accepted_first schedule e in
          let (client, w3, watching, run) =
            proceed-ok (connect R ctrl.config w2) (accepted ∷ [])
              (λ p. join R ctrl.stream p schedule (opening args.file) receiving)
              (sym (behind_acceptance schedule ctrl w1 w2 made ack) ∙ e) in
          record {
            ctrl = ctrl;
            client = client;
            connected = w1;
            granted = w2;
            start = w3;
            made = made;
            acknowledged = ack;
            watching = watching;
            carried_out =
                (join_iff R ctrl.stream client args.file w3 w' (accepted ∷ []) out).0
                  (schedule, run);
          },
      λ h.
          let (schedule, run) =
            (join_iff R h.ctrl.stream h.client args.file h.start w' (accepted ∷ []) out).1
              h.carried_out in
          (
            schedule,
            behind_acceptance schedule h.ctrl h.connected h.granted h.made h.acknowledged
                ∙ ap
                    (λ r.
                      proceed (some (beside (accepted ∷ []) r))
                        (λ p. join R h.ctrl.stream p schedule (opening args.file) receiving))
                    h.watching
                ∙ run,
          ),
    )
