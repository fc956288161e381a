-- ===== src/Cli/Monitor/Alone.antt =====
-- src/bin/swupdate-client.rs: over the runtime in memory, the events watched depend on the answers
-- alone.
use mathlib.Core.Path.{subst}
use swupdate_rs.Common.{◌≡◌, ap, ◌∙◌, List, ◌≤◌, length, arith}
use swupdate_rs.Error.{ok}
use swupdate_rs.Types.Event.{ProgressEvent}
use swupdate_rs.Runtime.Memory.{memory, World}
use swupdate_rs.Progress.Client.{ProgressClient, receive}
use swupdate_rs.Progress.Client.Answers.{receive-Alike}
use swupdate_rs.Cli.Monitor.Events.{Watched, last, next}

module _ (c : ProgressClient memory) where
  -- The same event arrives where the answers are the same.
  pub arrives_too :
      (event : ProgressEvent) (w w1 v : World)
      → receive memory c w ≡ (ok event, w1)
      → v.answers ≡ w.answers
      → (v1 : World) × (receive memory c v ≡ (ok event, v1)) × (v1.answers ≡ w1.answers)
  arrives_too event w w1 v e same =
      let alike = receive-Alike c v w same in
      let first : (receive memory c v).0 ≡ ok event = alike.0 ∙ ap (λ r. r.0) e in
      (
        (receive memory c v).1,
        ap (λ r. (r, (receive memory c v).1)) first,
        alike.1 ∙ ap (λ r. r.1.answers) e,
      )

  pub Watched-Alike :
      {events : List ProgressEvent} {w w' : World} (v : World)
      → Watched memory c events w w'
      → v.answers ≡ w.answers
      → (v' : World) × Watched memory c events v v' × (v'.answers ≡ w'.answers)
  Watched-Alike v (last {event} {w} {w'} e over) same =
      let (v1, f, q) = arrives_too event w w' v e same in (v1, last f over, q)
  Watched-Alike v (next {event} {events} {w} {w1} {w'} e going rest) same =
      let (v1, f, q) = arrives_too event w w1 v e same in
      let (v', again, q') = Watched-Alike v1 rest q in (v', next f going again, q')

  -- Watching from one world has one course.
  pub Watched-unique :
      {events events' : List ProgressEvent} {w v v' : World}
      → Watched memory c events w v
      → Watched memory c events' w v'
      → (events ≡ events') × (v ≡ v')
  Watched-unique (last e over) (last f over') = (cc (e, f), cc (e, f))
  Watched-unique (last e over) (next f going rest) = cc (e, f, over, going)
  Watched-unique (next e going rest) (last f over) = cc (e, f, over, going)
  Watched-unique (next {event} {w1} e going rest)
        (next {event = event'} {events = events'} {w1 = w1'} {w' = v'} f going' rest') =
      let here : w1' ≡ w1 = cc (e, f) in
      let (same, there) =
        Watched-unique rest (subst (λ w2. Watched memory c events' w2 v') here rest') in
      (cc (e, f, same), there)

  pub Watched-some :
      {events : List ProgressEvent} {w v : World} → Watched memory c events w v → 1 ≤ length events
  Watched-some (last e over) = omega arith
  Watched-some (next e going rest) = omega arith
