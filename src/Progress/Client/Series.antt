-- ===== src/Progress/Client/Series.antt =====
-- src/progress.rs: a series of calls of `receive_or_reconnect` on one client.
use mathlib.Core.Path.{subst}
use swupdate_rs.Common.{ℕ, zero, suc, ◌≡◌, refl, ap, ◌∙◌, sym, inl, inr, ◌⊎◌, List, [], ◌∷◌}
use swupdate_rs.Error.{Result, ok}
use swupdate_rs.Runtime.{Runtime}
use swupdate_rs.Socket.{connect_progress}
use swupdate_rs.Types.Event.{ProgressEvent}
use swupdate_rs.Progress.Client.{ProgressClient, receive_or_reconnect}
use swupdate_rs.Progress.Client.Receive.{Continues, receive_or_reconnect-Continues}

module _ (R : Runtime) where
  -- The results of so many calls, whatever they are, and the client and the world behind them.
  unfoldable pub series :
      ℕ → ProgressClient R × R.World → List (Result ProgressEvent) × (ProgressClient R × R.World)
  series zero s = ([], s)
  series (suc n) s =
      let (r, s1) = receive_or_reconnect R s in let (rs, s2) = series n s1 in (r ∷ rs, s2)

  Continues-trans : (c d e : ProgressClient R) → Continues R c d → Continues R d e → Continues R c e
  Continues-trans c d e (config, layout, stream) (config', layout', inl same) = (
    config' ∙ config,
    layout' ∙ layout,
    subst (λ t. (t ≡ c.stream) ⊎ ((w w' : R.World) × (connect_progress R c.config w ≡ (ok t, w'))))
        (sym same) stream,
  )
  Continues-trans c d e (config, layout, stream) (config', layout', inr (w, w', opened)) = (
    config' ∙ config,
    layout' ∙ layout,
    inr (w, w', ap (λ t. connect_progress R t w) (sym config) ∙ opened),
  )

  -- After any number of calls of `receive_or_reconnect`, whatever they returned, the client has the
  -- settings and the layout that it started with, and its stream is the one that it started with
  -- or one that was opened at the configured path.
  pub series-Continues :
      (n : ℕ) (c : ProgressClient R) (w : R.World) → Continues R c (series n (c, w)).1.0
  unfolding series
  series-Continues zero c w = (refl, refl, inl refl)
  series-Continues (suc n) c w =
      let (d, w1) = (receive_or_reconnect R (c, w)).1 in
      Continues-trans c d (series n (d, w1)).1.0 (receive_or_reconnect-Continues R c w)
        (series-Continues n d w1)
