-- ===== src/Control/Client/Drop.antt =====
-- src/control.rs: the `Drop` of `ControlClient`.
use swupdate_rs.Common.{◌≡◌, []}
use swupdate_rs.Runtime.{Runtime, IsLawful}
use swupdate_rs.Control.Client.{ControlClient}

module _ (R : Runtime) where
  -- The result of the write is ignored.
  unfoldable pub drop : ControlClient R → R.World → R.World
  drop c w = (R.try_write c.stream [] w).1

  drop_lem : IsLawful R → (c : ControlClient R) (w : R.World) → drop c w ≡ w
  unfolding drop
  drop_lem lawful c w = lawful.try_write_nothing c.stream w
