-- ===== src/Cli/Monitor/Events.antt =====
-- src/bin/swupdate-client.rs: the monitoring loop against the relation on the events watched.
use swupdate_rs.Progress.Client.Receive.{receive-error}
use mathlib.Core.Path.{subst}
use swupdate_rs.Cli.Output.{Line, print_progress}
use swupdate_rs.Types.Event.{ProgressEvent, is_terminal}
use swupdate_rs.Runtime.{Runtime}
use swupdate_rs.Common.{
  refl, inl, inr, zero, suc, ℕ, ◌≡◌, sym, ap, ◌∙◌, append_assoc, List, ◌∷◌, length, suc, ◌≤◌, false,
  some, true, ◌++◌, [], arith, append-nil, Option, Bool-cases,
}
use swupdate_rs.Error.{Error, ok, err, Result, IoError, connection}
use swupdate_rs.Progress.Client.{ProgressClient, receive}
use swupdate_rs.Cli.Monitor.{monitor}

-- The lines of a run of events.
abbrev pub printed : List ProgressEvent → List Line
printed [] = []
printed (event ∷ events) = print_progress event ++ printed events

module _ (R : Runtime) (c : ProgressClient R) where
  -- The events were received one after the other, and the last one alone is terminal.
  pub data Watched : List ProgressEvent → R.World → R.World → Type 0 where
    last :
        {event : ProgressEvent} {w w' : R.World}
        → receive R c w ≡ (ok event, w')
        → is_terminal event ≡ true
        → Watched (event ∷ []) w w'
    next :
        {event : ProgressEvent} {events : List ProgressEvent} {w w1 w' : R.World}
        → receive R c w ≡ (ok event, w1)
        → is_terminal event ≡ false
        → Watched events w1 w'
        → Watched (event ∷ events) w w'

  last_round :
      (fuel : ℕ) {event : ProgressEvent} (w : R.World) {w' : R.World} (out : List Line)
      → receive R c w ≡ (ok event, w')
      → is_terminal event ≡ true
      → monitor R (suc fuel) c (w, out) ≡ some (ok tt, (w', out ++ print_progress event))
  unfolding monitor
  last_round fuel w out e t = rw e (rw t)

  pub next_round :
      (fuel : ℕ) {event : ProgressEvent} (w : R.World) {w' : R.World} (out : List Line)
      → receive R c w ≡ (ok event, w')
      → is_terminal event ≡ false
      → monitor R (suc fuel) c (w, out) ≡ monitor R fuel c (w', out ++ print_progress event)
  unfolding monitor
  next_round fuel w out e t = rw e (rw t)

  pub failed_round :
      (fuel : ℕ) {e : Error} (w : R.World) {w' : R.World} (out : List Line)
      → receive R c w ≡ (err e, w')
      → monitor R (suc fuel) c (w, out) ≡ some (err e, (w', out))
  unfolding monitor
  failed_round fuel w out e = rw e

  -- With a unit of fuel for each event, the loop ends behind the first terminal event and has
  -- printed the lines of every event up to it, in order.
  pub monitor-Watched :
      (events : List ProgressEvent) (fuel : ℕ) (out : List Line) {w w' : R.World}
      → Watched events w w'
      → length events ≤ fuel
      → monitor R fuel c (w, out) ≡ some (ok tt, (w', out ++ printed events))
  monitor-Watched [] fuel out t h = elim t [ ]
  monitor-Watched (event ∷ events) zero out t h = absurd (omega arith)
  monitor-Watched (event ∷ []) (suc fuel) out {w'} (last e t) h =
      last_round fuel _ out e t
      ∙ ap (λ lines. some (ok tt, (w', out ++ lines))) (sym (append-nil (print_progress event)))
  monitor-Watched (event ∷ events) (suc fuel) out {w'} (next e t rest) h =
      next_round fuel _ out e t
      ∙ monitor-Watched events fuel (out ++ print_progress event) rest (omega arith)
      ∙ ap (λ lines. some (ok tt, (w', lines)))
          (append_assoc out (print_progress event) (printed events))

  -- Events that are not terminal were received one after the other, and then a receipt failed.
  pub data Broken (x : IoError) : List ProgressEvent → R.World → R.World → Type 0 where
    failed : {w w' : R.World} → receive R c w ≡ (err (connection x), w') → Broken x [] w w'
    behind :
        {event : ProgressEvent} {events : List ProgressEvent} {w w1 w' : R.World}
        → receive R c w ≡ (ok event, w1)
        → is_terminal event ≡ false
        → Broken x events w1 w'
        → Broken x (event ∷ events) w w'

  -- What a monitoring that returned was.
  abbrev pub Ended : List Line → R.World → Result (Unit {0}) × (R.World × List Line) → Type 0
  Ended out w (ok u, (w', out')) =
      (events : List ProgressEvent) × Watched events w w' × (out' ≡ out ++ printed events)
  Ended out w (err e, (w', out')) =
      (x : IoError) × (events : List ProgressEvent) × Broken x events w w'
      × (out' ≡ out ++ printed events)
      × (e ≡ connection x)

  extended :
      (w : R.World) {event : ProgressEvent} {w1 : R.World} (out : List Line)
      (r : Result (Unit {0}) × (R.World × List Line))
      → receive R c w ≡ (ok event, w1)
      → is_terminal event ≡ false
      → Ended (out ++ print_progress event) w1 r
      → Ended out w r
  extended w {event} out (ok u, (w', out')) e t (events, rest, q) =
      (event ∷ events, next e t rest, q ∙ append_assoc out (print_progress event) (printed events))
  extended w {event} out (err e', (w', out')) e t (x, events, rest, q, h) = (
    x,
    event ∷ events,
    behind e t rest,
    q ∙ append_assoc out (print_progress event) (printed events),
    h,
  )

  returned :
      {a b : Result (Unit {0}) × (R.World × List Line)}
      {o : Option (Result (Unit {0}) × (R.World × List Line))}
      → o ≡ some a
      → o ≡ some b
      → a ≡ b
  returned p q = cc

  stopped :
      {w : R.World} {out : List Line} (e : Error) (w' : R.World)
      → receive R c w ≡ (err e, w')
      → (x : IoError) × (e ≡ connection x)
      → Ended out w (err e, (w', out))
  stopped {w} {out} e w' q (x, h) =
      (x, [], failed (q ∙ ap (λ e. (err e, w')) h), sym (append-nil out), h)

  -- Whenever the monitoring loop returns, whatever the fuel: events were received up to the first
  -- terminal one, or events that are not terminal and then a receipt failed by the I/O error that is
  -- returned; in both cases exactly the lines of these events were printed, in order.
  pub monitor-Ended :
      (fuel : ℕ) (w : R.World) (out : List Line) (r : Result (Unit {0}) × (R.World × List Line))
      → monitor R fuel c (w, out) ≡ some r
      → Ended out w r
  monitor-Ended zero w out r e = unfold monitor in cc
  monitor-Ended (suc fuel) w out r e =
      received_result (receive R c w) refl (λ w' out'. monitor-Ended fuel w' out' r)
    where
      Rest : Type 0
      Rest =
          (w' : R.World) (out' : List Line) → monitor R fuel c (w', out') ≡ some r → Ended out' w' r

      received_event :
          (event : ProgressEvent) (w1 : R.World)
          → receive R c w ≡ (ok event, w1)
          → Rest
          → Ended out w r
      received_event event w1 q rest = elim (Bool-cases (is_terminal event)) [
        | inl over ↦
            subst (Ended out w) (returned (last_round fuel w out q over) e) (
              event ∷ [],
              last q over,
              ap (λ l. out ++ l) (sym (append-nil (print_progress event))),
            )
        | inr going ↦
            extended w out r q going
              (rest w1 (out ++ print_progress event) (sym (next_round fuel w out q going) ∙ e))
      ]

      received_result :
          (x : Result ProgressEvent × R.World) → receive R c w ≡ x → Rest → Ended out w r
      received_result (ok event, w1) q rest = received_event event w1 q rest
      received_result (err x, w1) q rest =
          subst (Ended out w) (returned (failed_round fuel w out q) e)
            (stopped x w1 q (receive-error R c w w1 x q))
