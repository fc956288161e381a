-- ===== src/Progress/Client/Recover.antt =====
-- src/progress.rs: the ways in which `receive_or_reconnect` comes to an event.
use mathlib.Core.Path.{subst}
use swupdate_rs.Common.{sym, ◌≡◌, ◌⊎◌, ◌↔◌, refl, ap, ◌∙◌, inl, inr}
use swupdate_rs.Error.{Result, ok, err, connection, IoError, continue}
use swupdate_rs.Runtime.{Runtime}
use swupdate_rs.Socket.{connect_progress}
use swupdate_rs.Types.Event.{ProgressEvent}
use swupdate_rs.Progress.Client.Connect.{Welcomed, handshake-Welcomed, Welcomed-handshake}
use swupdate_rs.Progress.Client.{
  ProgressClient, receive, reconnect, receive_or_reconnect, first_received, replaced, greeted,
  received, receive_again,
}

module _ (R : Runtime) where
  -- A stream was opened at the configured path once the old one was shut down, and a compatible
  -- acknowledgement arrived on it.
  pub record Renewed (c d : ProgressClient R) (w w' : R.World) : Type 0 where
    pub opened_in : R.World
    pub opened : connect_progress R c.config (R.shutdown c.stream w).1 ≡ (ok d.stream, opened_in)
    pub welcomed : Welcomed R d.stream opened_in w'
    pub same_rest : d ≡ record c { stream = d.stream }

  -- The connection failed, it was renewed, and the event arrived on the new stream.
  pub record Recovered (c d : ProgressClient R) (event : ProgressEvent) (w w' : R.World)
      : Type 0 where
    pub fault : IoError
    pub failed_in : R.World
    pub renewed_in : R.World
    pub failed : receive R c w ≡ (err (connection fault), failed_in)
    pub renewed : Renewed c d failed_in renewed_in
    pub arrived : receive R d renewed_in ≡ (ok event, w')

  replaced_to :
      (c d : ProgressClient R) (w w' : R.World) (r : Result R.Stream × R.World)
      → connect_progress R c.config (R.shutdown c.stream w).1 ≡ r
      → replaced R c r ≡ (ok tt, (d, w'))
      → Renewed c d w w'
  unfolding replaced greeted
  replaced_to c d w w' (ok s, w1) q e =
      let stream : s ≡ d.stream = ap (λ o. o.1.0.stream) e in
      record {
        opened_in = w1;
        opened = q ∙ ap (λ t. (ok t, w1)) stream;
        welcomed =
            subst (λ t. Welcomed R t w1 w') stream
              (handshake-Welcomed R s w1 w' (ap (λ o. (o.0, o.1.1)) e));
        same_rest = sym (ap (λ o. o.1.0) e) ∙ ap (λ t. record c { stream = t }) stream;
      }
  replaced_to c d w w' (err x, w1) q e = cc

  Renewed-reconnect :
      (c d : ProgressClient R) (w w' : R.World)
      → Renewed c d w w'
      → reconnect R (c, w) ≡ (ok tt, (d, w'))
  unfolding reconnect replaced greeted
  Renewed-reconnect c d w w' h =
      ap (replaced R c) h.opened
      ∙ ap (λ r. (r.0, (record c { stream = d.stream }, r.1)))
          (Welcomed-handshake R d.stream h.opened_in w' h.welcomed)
      ∙ ap (λ e. (ok tt, (e, w'))) (sym h.same_rest)

  reconnect_iff :
      (c d : ProgressClient R) (w w' : R.World)
      → (reconnect R (c, w) ≡ (ok tt, (d, w'))) ↔ Renewed c d w w'
  unfolding reconnect
  reconnect_iff c d w w' = (replaced_to c d w w' _ refl, Renewed-reconnect c d w w')

  -- What `receive_or_reconnect` did, from the result of its first receipt.
  abbrev Came : ProgressClient R → ProgressClient R → ProgressEvent → R.World → R.World → Type 0
  Came c d event w w' = ((d ≡ c) × (receive R c w ≡ (ok event, w'))) ⊎ Recovered c d event w w'

  came :
      (c d : ProgressClient R) (event : ProgressEvent) (w w' : R.World)
      (r : Result ProgressEvent × R.World)
      → receive R c w ≡ r
      → first_received R c r ≡ (ok event, (d, w'))
      → Came c d event w w'
  unfolding first_received received
  came c d event w w' (ok a, w1) q e = inl (cc, cc)
  came c d event w w' (err (connection x), w1) q e = again (reconnect R (c, w1)) refl e
    where
      again :
          (t : Result (Unit {0}) × (ProgressClient R × R.World))
          → reconnect R (c, w1) ≡ t
          → continue t (λ _. receive_again R) ≡ (ok event, (d, w'))
          → Came c d event w w'
      again (ok tt, (c', w2)) p e =
          let same : c' ≡ d = ap (λ o. o.1.0) e in
          inr (record {
            fault = x;
            failed_in = w1;
            renewed_in = w2;
            failed = q;
            renewed = (reconnect_iff c d w1 w2).0 (p ∙ ap (λ t. (ok tt, (t, w2))) same);
            arrived = ap (λ t. receive R t w2) (sym same) ∙ ap (λ o. (o.0, o.1.1)) e;
          })
      again (err y, s) p e = cc
  came c d event w w' (err _, w1) q e = cc

  Came-receive_or_reconnect :
      (c d : ProgressClient R) (event : ProgressEvent) (w w' : R.World)
      → Came c d event w w'
      → receive_or_reconnect R (c, w) ≡ (ok event, (d, w'))
  unfolding receive_or_reconnect first_received received
  Came-receive_or_reconnect c d event w w' (inl (same, e)) =
      ap (first_received R c) e ∙ ap (λ t. (ok event, (t, w'))) (sym same)
  Came-receive_or_reconnect c d event w w' (inr h) =
      ap (first_received R c) h.failed
      ∙ ap (λ t. continue t (λ _. receive_again R)) (Renewed-reconnect c d _ _ h.renewed)
      ∙ ap (λ o. (o.0, (d, o.1))) h.arrived

  -- `receive_or_reconnect` returns an event in two ways and no other: the event arrived on the
  -- stream that the client has, or the receipt failed by an I/O error, a stream was opened at the
  -- configured path within its time, a compatible acknowledgement arrived on it within 5 s, the
  -- client took that stream over, and the event arrived on it.
  pub receive_or_reconnect_iff :
      (c d : ProgressClient R) (event : ProgressEvent) (w w' : R.World)
      → (receive_or_reconnect R (c, w) ≡ (ok event, (d, w')))
        ↔ (((d ≡ c) × (receive R c w ≡ (ok event, w'))) ⊎ Recovered c d event w w')
  unfolding receive_or_reconnect
  receive_or_reconnect_iff c d event w w' =
      (came c d event w w' (receive R c w) refl, Came-receive_or_reconnect c d event w w')
