-- ===== src/Control/Client/Reconnect.antt =====
-- src/control.rs: when `reconnect` succeeds, and what it exchanges.
use swupdate_rs.Common.{◌≡◌, ◌↔◌, ap, ◌∙◌, sym, true, some}
use swupdate_rs.Error.{Result, ok, err, IoResult, done}
use swupdate_rs.Runtime.{Runtime}
use swupdate_rs.Socket.{connect_ctrl}
use swupdate_rs.Socket.Laws.{connect_socket_iff}
use swupdate_rs.Control.Client.{ControlClient, reconnect, reconnected}

module _ (R : Runtime) (c d : ControlClient R) (w w' : R.World) where
  -- The path exists once the old stream was shut down, a new stream was opened within the
  -- configured time, and it alone is exchanged.
  pub record Renewed : Type 0 where
    pub there : R.exists c.config.ctrl_path (R.shutdown c.stream w).1 ≡ true
    pub opened :
        R.within
          (IoResult R.Stream)
          c.config.connect_timeout
          (R.connect c.config.ctrl_path)
          (R.shutdown c.stream w).1
        ≡ (some (done d.stream), w')
    pub same_rest : d ≡ record c { stream = d.stream }

  exchanged :
      (r : Result R.Stream × R.World)
      → reconnected R c r ≡ (ok tt, (d, w'))
      → (r ≡ (ok d.stream, w')) × (d ≡ record c { stream = d.stream })
  unfolding reconnected
  exchanged (ok s, w1) e =
      let same : s ≡ d.stream = ap (λ o. o.1.0.stream) e in
      (
        cc (same, ap (λ o. o.1.1) e),
        sym (ap (λ o. o.1.0) e) ∙ ap (λ t. record c { stream = t }) same,
      )
  exchanged (err x, w1) e = cc

  -- `reconnect` succeeds exactly if, once the old stream was shut down, whatever came of that, the
  -- configured path exists and a connection to it is made within the configured time; the client
  -- then holds the new stream, and its configuration is the old one.
  pub reconnect_iff : (reconnect R (c, w) ≡ (ok tt, (d, w'))) ↔ Renewed
  unfolding reconnect connect_ctrl
  reconnect_iff =
      let connecting =
        connect_socket_iff R c.config c.config.ctrl_path (R.shutdown c.stream w).1 w' d.stream in
      (
        λ e.
            let (made, rest) = exchanged (connect_ctrl R c.config (R.shutdown c.stream w).1) e in
            let (there, opened) = connecting.0 made in
            record { there = there; opened = opened; same_rest = rest },
        λ h. ap (reconnected R c) (connecting.1 (h.there, h.opened)) ∙ back h,
      )
    where
      back : (h : Renewed) → reconnected R c (ok d.stream, w') ≡ (ok tt, (d, w'))
      back h = unfold reconnected in ap (λ e. (ok tt, (e, w'))) (sym h.same_rest)
