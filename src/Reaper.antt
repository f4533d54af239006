-- ===== src/Reaper.antt =====
-- backend/etfpulse/pipeline/reapers.py, the three bulk updates, and the count of
-- pipeline/boot_recovery.py.
pub mod Laws
use etfpulse.Base.{
  ℕ, ◌*◌, ◌-◌, Bool, true, false, not, ◌&&◌, Option, none, some, is_none, List, [], ◌∷◌, map, ltb,
  count_if, if◌then◌else◌, Text, codes,
}
use etfpulse.Delivery.Rows.{
  SignalStatus, signal_pending, signal_alerted, signal_expired, Signal, delivery_pending,
  delivery_failed, DeliveryStatus, SignalDelivery,
}
use etfpulse.Delivery.Send.{is_delivery_pending}
use etfpulse.Models.{OrderStatus, pending, submitted, expired, Order, Db, Action}

-- `result.rowcount`, and the rows after `update(...).where(test).values(...)`.
abbrev pub bulk_update {ℓ} : {A : Type ℓ} → (A → Bool) → (A → A) → List A → List A
bulk_update test f xs = map (λ x. if test x then f x else x) xs

-- `column is not None and column < t`
abbrev pub is_before : Option ℕ → ℕ → Bool
is_before none t = false
is_before (some s) t = ltb s t

-- `_OVERDUE_ORDER_STATUSES`
unfoldable pub is_unsent : OrderStatus → Bool
is_unsent pending = true
is_unsent submitted = true
is_unsent _ = false

-- The WHERE clause of `expire_overdue_orders`.
unfoldable pub is_overdue : ℕ → Order → Bool
is_overdue now o = is_unsent o.status && is_before o.nonce_expires_at now

abbrev pub expire : Order → Order
expire o = record o { status = expired }

-- The row count, and the rows.
unfoldable pub expire_overdue_orders : ℕ → Db → ℕ × Db
expire_overdue_orders now db = (
  count_if (is_overdue now) db.orders,
  record db { orders = bulk_update (is_overdue now) expire db.orders },
)

abbrev is_expired : SignalStatus → Bool
is_expired signal_expired = true
is_expired _ = false

unfoldable pub is_overdue_signal : ℕ → Signal → Bool
is_overdue_signal now s = not (is_expired s.status) && is_before s.expires_at now

abbrev pub expire_signal : Signal → Signal
expire_signal s = record s { status = signal_expired }

unfoldable pub expire_overdue_signals : ℕ → List Signal → ℕ × List Signal
expire_overdue_signals now signals = (
  count_if (is_overdue_signal now) signals,
  bulk_update (is_overdue_signal now) expire_signal signals,
)

-- Pending, never attempted, and older than the setting, which is in seconds.
unfoldable pub is_stuck : ℕ → ℕ → SignalDelivery → Bool
is_stuck now max_age_seconds d =
    is_delivery_pending d.status
    && is_none d.last_attempt_at
    && ltb d.created_at (now - max_age_seconds * 1000000)

abbrev pub fail_stuck : SignalDelivery → SignalDelivery
fail_stuck d = record d {
  status = delivery_failed;
  error_message = some (codes "reaper: pending exceeded max age");
}

unfoldable pub fail_stuck_deliveries : ℕ → ℕ → List SignalDelivery → ℕ × List SignalDelivery
fail_stuck_deliveries now max_age_seconds ds = (
  count_if (is_stuck now max_age_seconds) ds,
  bulk_update (is_stuck now max_age_seconds) fail_stuck ds,
)

abbrev is_submitted : OrderStatus → Bool
is_submitted submitted = true
is_submitted _ = false

-- boot_recovery.py: how many submitted orders have no id of the venue and no change for two intervals.
unfoldable pub flag_orphan_submitted_on_boot : ℕ → ℕ → Db → ℕ
flag_orphan_submitted_on_boot now interval_seconds db =
    count_if
      (λ o.
        is_submitted o.status
        && is_none o.exchange_order_id
        && ltb o.updated_at (now - 2 * interval_seconds * 1000000))
      db.orders
