-- ===== src/Risk/Queries.antt =====
-- What the risk controller reads: `_find_active_breaker_trigger`, `_count_open_orders`,
-- `_sum_notional` and `compute_usage`.
use etfpulse.Base.{
  ℕ, ◌+◌, ◌-◌, ◌*◌, ◌/◌, Bool, true, false, not, ◌&&◌, Option, none, some, is_none, List, [], ◌∷◌,
  Text, text_eq, leb, count_if, find, if◌then◌else◌,
}
use etfpulse.Decimal.{Decimal, one}
use etfpulse.Models.{
  OrderStatus, rejected, expired, cancelled, is_terminal, Trigger, Order, CircuitBreaker, Db,
}
use etfpulse.Positions.{option_eq}

-- An unresolved breaker of one user, or of nobody.
abbrev pub in_scope : Option ℕ → CircuitBreaker → Bool
in_scope user b = is_none b.resolved_at && option_eq b.user_id user

abbrev pub trigger_of : Option CircuitBreaker → Option Trigger
trigger_of none = none
trigger_of (some b) = some b.trigger_type

-- `limit(1)` with no order: any active row may come. The model takes the first of the table, which is
-- some list of the rows.
unfoldable pub find_active_breaker_trigger : Option ℕ → Db → Option Trigger
find_active_breaker_trigger user db = trigger_of (find (in_scope user) db.breakers)

abbrev pub belongs : ℕ → Order → Bool
belongs user o = option_eq o.user_id (some user)

unfoldable pub count_open_orders : ℕ → Db → ℕ
count_open_orders user db = count_if (λ o. belongs user o && not (is_terminal o.status)) db.orders

-- `_NOTIONAL_COUNTED_STATUSES`
abbrev pub is_counted : OrderStatus → Bool
is_counted rejected = false
is_counted expired = false
is_counted cancelled = false
is_counted _ = true

-- 24 hours, in microseconds.
abbrev pub notional_window : ℕ
notional_window = 24 * 60 * 60 * 1000000

abbrev pub coalesce : Option Decimal → Option Decimal → Option Decimal
coalesce none b = b
coalesce (some a) b = some a

-- `requested_size * COALESCE(filled_price, requested_price)`, exact; NULL adds nothing to the sum.
unfoldable pub contribution : Order → Decimal
contribution o = elim (coalesce o.filled_price o.requested_price) [
  | none ↦ 0
  | some price ↦ o.requested_size * price / one
]

-- The WHERE clause; no asset means every asset.
abbrev pub is_asset : Option Text → Order → Bool
is_asset none o = true
is_asset (some a) o = text_eq o.asset a

abbrev pub is_exposure : ℕ → ℕ → Option Text → Order → Bool
is_exposure user window_start asset o =
    belongs user o && is_counted o.status && leb window_start o.created_at && is_asset asset o

abbrev pub total : (Order → Bool) → List Order → Decimal
total p [] = 0
total p (o ∷ os) = (if p o then contribution o else 0) + total p os

unfoldable pub sum_notional : ℕ → ℕ → Option Text → Db → Decimal
sum_notional user window_start asset db = total (is_exposure user window_start asset) db.orders

pub record UsageSnapshot : Type 0 where
  pub open_orders : ℕ
  pub daily_notional : Decimal
  pub per_symbol_notional : Option Decimal

unfoldable pub compute_usage : ℕ → ℕ → Option Text → Db → UsageSnapshot
compute_usage now user asset db = record {
  open_orders = count_open_orders user db;
  daily_notional = sum_notional user (now - notional_window) none db;
  per_symbol_notional = elim asset [
    | none ↦ none
    | some a ↦ some (sum_notional user (now - notional_window) (some a) db)
  ];
}
