-- ===== src/Tests/Life.antt =====
-- A run of the program.
use etfpulse.Base.{◌≡◌, refl, some, arith}
use etfpulse.Models.{Order, Db, find_order}
use etfpulse.Reaper.{expire_overdue_orders}
use etfpulse.Reconcile.Sweep.{reconcile_open_orders}
use etfpulse.Life.{Advanced}
use etfpulse.Life.Steps.{
  sweeps, reaps, submits, Reach, start, then, Consistent, Reach-order, Reach-Consistent,
}
use etfpulse.Tests.Fixtures.{order, db, signature}
use etfpulse.Tests.Positions.{db_apart}
use etfpulse.Tests.Execution.{env, acked_db, reply, submitted_once}
use etfpulse.Tests.Reconcile.{reads}

consistent : Consistent db
consistent = (((refl, tt), (omega arith, tt)), db_apart)

-- The pending order is submitted and acknowledged; a sweep folds the venue's fill; the reaper runs.
abbrev swept : Db
swept = (reconcile_open_orders reads acked_db).db

abbrev reaped : Db
reaped = (expire_overdue_orders 2000000000 swept).1

run : Reach db reaped
run =
    then swept reaped
      (then acked_db swept
        (then db acked_db start (submits env 1 signature reply acked_db submitted_once))
        (sweeps reads))
      (reaps 2000000000)

Reach-order_example : (o' : Order) × ((find_order 1 reaped ≡ some o') × Advanced order o')
Reach-order_example = Reach-order db reaped 1 order run consistent refl

Reach-Consistent_example : Consistent reaped
Reach-Consistent_example = Reach-Consistent db reaped run consistent
