-- ===== src/Cli/Monitor/Reports.antt =====
-- src/bin/swupdate-client.rs: the monitoring loop against the messages of the daemon.
use swupdate_rs.Common.{◌≡◌, List, [], ◌∷◌, map, true, false, Bytes, Bool-cases, inl, inr}
use swupdate_rs.Error.{ok, done}
use swupdate_rs.Runtime.{Runtime}
use swupdate_rs.Types.Event.{from_raw, is_terminal, fields_of_packed}
use swupdate_rs.Types.Event.Laws.{EndsUpdate, is_terminal-from_fields}
use swupdate_rs.Wire.Constants.{msg_size}
use swupdate_rs.Wire.ProgressMsg.{RawProgressMsg}
use swupdate_rs.Wire.ProgressMsg.Parts.{IsPacked}
use swupdate_rs.Progress.Client.{ProgressClient, receive}
use swupdate_rs.Progress.Client.Encoded.{Encoded, receive-Encoded}
use swupdate_rs.Cli.Monitor.Events.{Watched, last, next}

module _ (R : Runtime) (c : ProgressClient R) where
  -- The message, with values that fit its fields, arrives in the client's layout.
  pub record Arrives (m : RawProgressMsg) (w w' : R.World) : Type 0 where
    pub fits : IsPacked m
    pub bytes : Bytes
    pub encoded : Encoded c.layout m bytes
    pub arrived : R.read_exact c.stream (msg_size c.layout) w ≡ (done bytes, w')

  -- The daemon reports an update: the messages arrive one after the other, and the status of the
  -- last one alone ends the update.
  pub data Reported : List RawProgressMsg → R.World → R.World → Type 0 where
    final :
        {m : RawProgressMsg} {w w' : R.World}
        → Arrives m w w'
        → EndsUpdate m.status
        → Reported (m ∷ []) w w'
    report :
        {m : RawProgressMsg} {ms : List RawProgressMsg} {w w1 w' : R.World}
        → Arrives m w w1
        → ¬ EndsUpdate m.status
        → Reported ms w1 w'
        → Reported (m ∷ ms) w w'

  pub received :
      (m : RawProgressMsg) (w w' : R.World) → Arrives m w w' → receive R c w ≡ (ok (from_raw m), w')
  received m w w' a = receive-Encoded R c m a.bytes w w' a.fits a.encoded a.arrived

  ends : (m : RawProgressMsg) → EndsUpdate m.status → is_terminal (from_raw m) ≡ true
  unfolding from_raw
  ends m h = (is_terminal-from_fields (fields_of_packed m)).1 h

  pub goes_on : (m : RawProgressMsg) → ¬ EndsUpdate m.status → is_terminal (from_raw m) ≡ false
  unfolding from_raw
  goes_on m h = elim (Bool-cases (is_terminal (from_raw m))) [
    | inl over ↦ absurd (h ((is_terminal-from_fields (fields_of_packed m)).0 over))
    | inr going ↦ going
  ]

  pub Reported-Watched :
      (ms : List RawProgressMsg) {w w' : R.World}
      → Reported ms w w'
      → Watched R c (map from_raw ms) w w'
  Reported-Watched [] t = elim t [ ]
  Reported-Watched (m ∷ []) (final a h) = last (received m _ _ a) (ends m h)
  Reported-Watched (m ∷ ms) (report a h rest) =
      next (received m _ _ a) (goes_on m h) (Reported-Watched ms rest)
