-- ===== src/Progress/Client/Connect.antt =====
-- src/progress.rs: what a connection that was made went through.
use swupdate_rs.Progress.Version.{detect_layout}
use swupdate_rs.Socket.{SocketConfig, connect_progress}
use mathlib.Core.Path.{subst}
use swupdate_rs.Error.{continue, pure}
use swupdate_rs.Wire.Constants.{progress_connect_ack_magic, ProgressLayout}
use swupdate_rs.Progress.Client.Handshake.{check_ack_iff}
use swupdate_rs.Wire.ProgressMsg.{RawProgressAck}
use swupdate_rs.Runtime.{Runtime}
use swupdate_rs.Common.{none, refl, ◌≡◌, some, Option, ◌∙◌, ap, sym}
use swupdate_rs.Error.{Result, ok, err}
use swupdate_rs.Progress.Client.{
  handshake, read_ack, acknowledged, handshake_timeout, major, connect, greet, ProgressClient,
}

module _ (R : Runtime) where
  -- A compatible acknowledgement arrived on the stream within the handshake's time.
  pub record Welcomed (s : R.Stream) (w w' : R.World) : Type 0 where
    pub ack : RawProgressAck
    pub arrived :
        R.within (Result RawProgressAck) handshake_timeout (read_ack R s) w ≡ (some (ok ack), w')
    pub magic_right : ack.magic ≡ progress_connect_ack_magic
    pub major_right : major ack.apiversion ≡ 2

  acknowledged-Welcomed :
      (s : R.Stream) (w w' : R.World) (r : Option (Result RawProgressAck) × R.World)
      → R.within (Result RawProgressAck) handshake_timeout (read_ack R s) w ≡ r
      → acknowledged R r ≡ (ok tt, w')
      → Welcomed s w w'
  unfolding acknowledged
  acknowledged-Welcomed s w w' (some (ok ack), w1) q e =
      let (magic_right, major_right) = ((check_ack_iff ack).0).0 cc in
      record {
        ack = ack;
        arrived = cc (q, e);
        magic_right = magic_right;
        major_right = major_right;
      }
  acknowledged-Welcomed s w w' (some (err x), w1) q e = cc
  acknowledged-Welcomed s w w' (none, w1) q e = cc

  pub handshake-Welcomed :
      (s : R.Stream) (w w' : R.World) → handshake R s w ≡ (ok tt, w') → Welcomed s w w'
  unfolding handshake
  handshake-Welcomed s w w' e = acknowledged-Welcomed s w w' _ refl e

  pub Welcomed-handshake :
      (s : R.Stream) (w w' : R.World) → Welcomed s w w' → handshake R s w ≡ (ok tt, w')
  unfolding handshake acknowledged
  Welcomed-handshake s w w' h =
      let accepted = ((check_ack_iff h.ack).0).1 (h.magic_right, h.major_right) in
      ap (acknowledged R) h.arrived ∙ ap (λ r. (r, w')) accepted

  -- How a client came to be: the layout was detected first, then a stream was opened at the
  -- configured path, and a compatible acknowledgement arrived on it.
  pub record Made (config : SocketConfig) (c : ProgressClient R) (w w' : R.World) : Type 0 where
    pub after_detection : R.World
    pub after_opening : R.World
    pub same_config : c.config ≡ config
    pub detected : detect_layout R w ≡ (c.layout, after_detection)
    pub opened : connect_progress R config after_detection ≡ (ok c.stream, after_opening)
    pub welcomed : Welcomed c.stream after_opening w'

  greet-Welcomed :
      (config : SocketConfig) (layout : ProgressLayout) (s : R.Stream) (c : ProgressClient R)
      (w w' : R.World)
      → greet R config layout s w ≡ (ok c, w')
      → (c ≡ record { stream = s; config = config; layout = layout }) × Welcomed s w w'
  unfolding greet
  greet-Welcomed config layout s c w w' e = shaken (handshake R s w) refl e
    where
      shaken :
          (r : Result (Unit {0}) × R.World)
          → handshake R s w ≡ r
          → continue r (λ _. pure (record { stream = s; config = config; layout = layout }))
            ≡ (ok c, w')
          → (c ≡ record { stream = s; config = config; layout = layout }) × Welcomed s w w'
      shaken (ok tt, w1) q e =
          let end : w1 ≡ w' = cc in (cc, handshake-Welcomed s w w' (q ∙ ap (λ v. (ok tt, v)) end))
      shaken (err x, w1) q e = cc

  -- A client is handed out by `connect` only behind the detection of the layout, the opening of the
  -- configured path, and an acknowledgement within 5 s with the right magic and major version 2.
  pub connect-Made :
      (config : SocketConfig) (c : ProgressClient R) (w w' : R.World)
      → connect R config w ≡ (ok c, w')
      → Made config c w w'
  unfolding connect
  connect-Made config c w w' e = opening (connect_progress R config (detect_layout R w).1) refl e
    where
      opening :
          (r : Result R.Stream × R.World)
          → connect_progress R config (detect_layout R w).1 ≡ r
          → continue r (greet R config (detect_layout R w).0) ≡ (ok c, w')
          → Made config c w w'
      opening (ok s, w1) q e =
          let (made, welcome) = greet-Welcomed config (detect_layout R w).0 s c w1 w' e in
          record {
            after_detection = (detect_layout R w).1;
            after_opening = w1;
            same_config = ap (λ (d : ProgressClient R). d.config) made;
            detected =
                ap (λ layout. (layout, (detect_layout R w).1))
                  (sym (ap (λ (d : ProgressClient R). d.layout) made));
            opened = q ∙ ap (λ t. (ok t, w1)) (sym (ap (λ (d : ProgressClient R). d.stream) made));
            welcomed =
                subst (λ t. Welcomed t w1 w') (sym (ap (λ (d : ProgressClient R). d.stream) made))
                  welcome;
          }
      opening (err x, w1) q e = cc
