-- ===== src/Delivery/Steps.antt =====
-- The jobs that write the table of deliveries, in any order, and what holds along every run of them.
use etfpulse.Base.{ℕ, arith, List}
use etfpulse.Delivery.Rows.{Outbox}
use etfpulse.Delivery.FanOut.{fan_out_pending}
use etfpulse.Delivery.Send.{SendEnv, Message, send_pending_deliveries}
use etfpulse.Delivery.Once.{SentOnce, fan_out_all-Fanned}
use etfpulse.Delivery.Keeps.{
  Settles, Settles-refl, Settles-trans, fan_out_all-Settles, send_rows-Settles, fail_stuck-Settles,
  send_rows-count, fail_stuck-count,
}
use etfpulse.Reaper.{expire_overdue_signals, fail_stuck_deliveries}

-- One run of a job.
pub data Step : Outbox → Outbox → Type 0 where
  fan_out :
      (now min_confirmation : ℕ) (box : Outbox)
      → Step box (fan_out_pending now min_confirmation box).1
  send :
      (env : SendEnv) (messages : List Message) (box : Outbox)
      → Step box (send_pending_deliveries env messages box).1
  reap_signals :
      (now : ℕ) (box : Outbox)
      → Step box (record box { signals = (expire_overdue_signals now box.signals).1 })
  reap_deliveries :
      (now max_age_seconds : ℕ) (box : Outbox)
      → Step box
          (record box { deliveries = (fail_stuck_deliveries now max_age_seconds box.deliveries).1 })

pub data Reach : Outbox → Outbox → Type 0 where
  done : (box : Outbox) → Reach box box
  step : (a b c : Outbox) → Step a b → Reach b c → Reach a c

Step-Settles : (a b : Outbox) → Step a b → Settles a.deliveries b.deliveries
unfolding fan_out_pending send_pending_deliveries fail_stuck_deliveries
Step-Settles a _ (fan_out now m _) = fan_out_all-Settles now m _ a
Step-Settles a _ (send env messages _) = send_rows-Settles env a.deliveries _
Step-Settles a _ (reap_signals now _) = Settles-refl a.deliveries
Step-Settles a _ (reap_deliveries now age _) = fail_stuck-Settles now age a.deliveries

-- Along every run of the fan-out, the worker and the two reapers, in any order and at any times, a
-- row stays in its place with its signal and its recipient, its attempts do not decrease, and once
-- it is not pending it never changes again.
pub Reach-Settles : (a b : Outbox) → Reach a b → Settles a.deliveries b.deliveries
Reach-Settles a _ (done _) = Settles-refl a.deliveries
Reach-Settles a c (step _ b _ s r) =
    Settles-trans a.deliveries b.deliveries c.deliveries (Step-Settles a b s) (Reach-Settles b c r)

Step-SentOnce : (a b : Outbox) → Step a b → SentOnce a.deliveries → SentOnce b.deliveries
unfolding fan_out_pending send_pending_deliveries fail_stuck_deliveries
Step-SentOnce a _ (fan_out now m _) once k u = (fan_out_all-Fanned now m _ a once).1.0 k u
Step-SentOnce a _ (send env messages _) once k u =
    omega (arith, send_rows-count env k u a.deliveries _, once k u)
Step-SentOnce a _ (reap_signals now _) once k u = once k u
Step-SentOnce a _ (reap_deliveries now age _) once k u =
    omega (arith, fail_stuck-count now age k u a.deliveries, once k u)

-- Along every run of the jobs, a table with at most one row for each signal and recipient stays one.
pub Reach-SentOnce : (a b : Outbox) → Reach a b → SentOnce a.deliveries → SentOnce b.deliveries
Reach-SentOnce a _ (done _) once = once
Reach-SentOnce a c (step _ b _ s r) once = Reach-SentOnce b c r (Step-SentOnce a b s once)
