-- ===== src/Risk/Gates.antt =====
-- The checks of `check_order`, in the order of the code: each is the denial that it makes, or none.
use etfpulse.Base.{
  ℕ, ◌-◌, Bool, true, false, not, ◌&&◌, ◌||◌, Option, none, some, is_none, is_some_of, [], ◌∷◌,
  Text, text_eq, leb, ltb, ◌==◌, if◌then◌else◌,
}
use etfpulse.Decimal.{Decimal, add, mul}
use etfpulse.Models.{
  Venue, sodex_spot, sodex_perps, unknown_venue, venue_eq, is_perps, OrderSide, side_eq,
  sodex_to_db_side, OrderStatus, rejected, expired, cancelled, Trigger, manual, Order, User, Db,
  find_order,
}
use etfpulse.Positions.{option_eq}
use etfpulse.Risk.Requests.{
  Settings, RiskRequest, RiskDecision, deny, deny_breaker, wallet_not_bound,
  sodex_account_not_cached, unsupported_venue, api_key_not_registered, global_breaker_active,
  per_user_breaker_active, unsupported_time_in_force, unsupported_trigger_type,
  unsupported_position_side, perps_leverage_missing, leverage_above_cap, spot_leverage_not_allowed,
  stop_price_perps_only, reduce_only_perps_only, stop_requires_trigger_type, parent_order_not_found,
  parent_order_mismatch, parent_order_terminal, parent_order_same_side, parent_requires_reduce_only,
  open_order_cap_exceeded, missing_requested_price, daily_notional_cap_exceeded,
  per_symbol_notional_cap_exceeded,
}
use etfpulse.Risk.Queries.{
  find_active_breaker_trigger, count_open_orders, sum_notional, notional_window,
}

-- `not text`, where the text may be `None`.
abbrev pub is_blank : Option Text → Bool
is_blank none = true
is_blank (some []) = true
is_blank (some (c ∷ cs)) = false

-- `_VENUE_TO_API_KEY_FIELD` and the read of that field.
abbrev pub api_key_field : Venue → User → Option (Option Text)
api_key_field sodex_spot user = some user.sodex_spot_api_key_name
api_key_field sodex_perps user = some user.sodex_perps_api_key_name
api_key_field unknown_venue user = none

-- Gate 1.
unfoldable pub identity_gate : RiskRequest → User → Option RiskDecision
identity_gate r user =
    if is_blank user.wallet_address
    then deny wallet_not_bound
    else if is_none user.sodex_account_id
    then deny sodex_account_not_cached
    else elim (api_key_field r.venue user) [
      | none ↦ deny unsupported_venue
      | some name ↦ if is_blank name then deny api_key_not_registered else none
    ]

abbrev pub is_manual : Trigger → Bool
is_manual manual = true
is_manual _ = false

-- Gate 2: a global breaker denies everything; one of the user denies all but a reduce-only order, and
-- that too where it is a manual halt.
unfoldable pub breaker_gate : RiskRequest → Db → User → Option RiskDecision
breaker_gate r db user = elim (find_active_breaker_trigger none db) [
  | some t ↦ deny_breaker global_breaker_active t
  | none ↦ elim (find_active_breaker_trigger (some user.id) db) [
    | none ↦ none
    | some t ↦
        if r.reduce_only && not (is_manual t) then none else deny_breaker per_user_breaker_active t
  ]
]

-- Gate 3: FOK; the last and the index price; long and short.
unfoldable pub enum_gate : RiskRequest → Option RiskDecision
enum_gate r =
    if r.time_in_force == 2
    then deny unsupported_time_in_force
    else if is_some_of r.trigger_type 1 || is_some_of r.trigger_type 3
    then deny unsupported_trigger_type
    else if is_some_of r.position_side 2 || is_some_of r.position_side 3
    then deny unsupported_position_side
    else none

-- Gate 4, the leverage.
unfoldable pub leverage_gate : Settings → RiskRequest → Option RiskDecision
leverage_gate s r = elim r.leverage [
  | none ↦ if is_perps r.venue then deny perps_leverage_missing else none
  | some l ↦
      if is_perps r.venue
      then if leb l 0
        then deny perps_leverage_missing
        else if not r.reduce_only && ltb s.execution_max_leverage l
        then deny leverage_above_cap
        else none
      else deny spot_leverage_not_allowed
]

-- Gate 4b.
unfoldable pub stop_gate : RiskRequest → Option RiskDecision
stop_gate r =
    if not (is_none r.stop_price) && not (is_perps r.venue)
    then deny stop_price_perps_only
    else if r.reduce_only && not (is_perps r.venue)
    then deny reduce_only_perps_only
    else if not (is_none r.stop_price) && is_none r.trigger_type
    then deny stop_requires_trigger_type
    else none

abbrev pub is_failed : OrderStatus → Bool
is_failed rejected = true
is_failed expired = true
is_failed cancelled = true
is_failed _ = false

-- `parent.side == _SODEX_TO_DB_SIDE.get(request.side)`
abbrev pub is_db_side : ℕ → OrderSide → Bool
is_db_side side of_parent = elim (sodex_to_db_side side) [
  | none ↦ false
  | some s ↦ side_eq of_parent s
]

abbrev pub parent_checks : RiskRequest → User → Order → Option RiskDecision
parent_checks r user parent =
    if not (option_eq parent.user_id (some user.id))
    then deny parent_order_not_found
    else if not (venue_eq parent.venue r.venue) || not (text_eq parent.asset r.asset)
    then deny parent_order_mismatch
    else if is_failed parent.status
    then deny parent_order_terminal
    else if is_db_side r.side parent.side
    then deny parent_order_same_side
    else if not r.reduce_only
    then deny parent_requires_reduce_only
    else none

-- Gate 4c.
unfoldable pub parent_gate : RiskRequest → Db → User → Option RiskDecision
parent_gate r db user = elim r.parent_order_id [
  | none ↦ none
  | some id ↦ elim (find_order id db) [
    | none ↦ deny parent_order_not_found
    | some parent ↦ parent_checks r user parent
  ]
]

unfoldable pub open_order_gate : Settings → RiskRequest → Db → User → Option RiskDecision
open_order_gate s r db user =
    if not r.reduce_only && leb s.execution_max_open_orders_per_user (count_open_orders user.id db)
    then deny open_order_cap_exceeded
    else none

unfoldable pub price_gate : RiskRequest → Option RiskDecision
price_gate r =
    if is_none r.requested_price && not r.is_conditional then deny missing_requested_price else none

abbrev pub caps : Settings → ℕ → RiskRequest → Db → User → Decimal → Option RiskDecision
caps s now r db user notional =
    if ltb s.execution_daily_notional_usd_cap
      (add (sum_notional user.id (now - notional_window) none db) notional)
    then deny daily_notional_cap_exceeded
    else if ltb s.execution_per_symbol_notional_usd_cap
        (add (sum_notional user.id (now - notional_window) (some r.asset) db) notional)
    then deny per_symbol_notional_cap_exceeded
    else none

unfoldable pub notional_gate : Settings → ℕ → RiskRequest → Db → User → Option RiskDecision
notional_gate s now r db user = elim r.requested_price [
  | none ↦ none
  | some price ↦ if r.reduce_only then none else caps s now r db user (mul r.requested_size price)
]
