-- ===== src/Progress/Client/Drop.antt =====
-- src/progress.rs: the `Drop` of `ProgressClient`.
use swupdate_rs.Common.{◌≡◌, []}
use swupdate_rs.Runtime.{Runtime, IsLawful}
use swupdate_rs.Progress.Client.{ProgressClient}

module _ (R : Runtime) where
  -- The result of the write is ignored.
  unfoldable pub drop : ProgressClient R → R.World → R.World
  drop c w = (R.try_write c.stream [] w).1

  drop_lem : IsLawful R → (c : ProgressClient R) (w : R.World) → drop c w ≡ w
  unfolding drop
  drop_lem lawful c w = lawful.try_write_nothing c.stream w
