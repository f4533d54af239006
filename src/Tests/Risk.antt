-- ===== src/Tests/Risk.antt =====
-- Decisions of the risk controller.
use etfpulse.Base.{◌*◌, ◌≡◌, refl, true, false, none, some, codes, any}
use etfpulse.Decimal.{one, add, mul, context, excess, excess_from, half_even}
use etfpulse.Models.{sodex_perps, Order, find_order, stop_loss}
use etfpulse.Risk.{check_order, gates, Settings, RiskRequest}
use etfpulse.Risk.Queries.{
  in_scope, count_open_orders, sum_notional, contribution, find_active_breaker_trigger,
}
use etfpulse.Risk.Gates.{
  identity_gate, breaker_gate, enum_gate, leverage_gate, stop_gate, parent_gate, open_order_gate,
  price_gate, notional_gate,
}
use etfpulse.Risk.Laws.{allows}
use etfpulse.Risk.Halts.{check_order-breakers, check_order-reduce_only}
use etfpulse.Risk.Caps.{check_order-caps, check_order-parent, FitsCaps, IsParentOf}
use etfpulse.Tests.Fixtures.{db}

abbrev pub settings : Settings
settings = record {
  execution_max_open_orders_per_user = 5;
  execution_daily_notional_usd_cap = 10000 * one;
  execution_per_symbol_notional_usd_cap = 5000 * one;
  execution_max_leverage = 5 * one;
}

abbrev strict : Settings
strict = record settings { execution_max_open_orders_per_user = 0; execution_max_leverage = one }

-- A BUY of one unit at 100, and the stop that hangs on order 1.
abbrev pub request : RiskRequest
request = record {
  venue = sodex_perps;
  asset = codes "BTC";
  side = 1;
  order_type = 1;
  time_in_force = 1;
  requested_size = one;
  requested_price = some (100 * one);
  position_side = some 1;
  trigger_type = none;
  leverage = some (2 * one);
  is_conditional = false;
  stop_price = none;
  stop_type = none;
  reduce_only = false;
  parent_order_id = none;
}

abbrev stop_request : RiskRequest
stop_request = record request {
  side = 2;
  requested_price = none;
  trigger_type = some 2;
  is_conditional = true;
  stop_price = some (80 * one);
  stop_type = some stop_loss;
  reduce_only = true;
  parent_order_id = some 1;
}

request_allowed : allows (check_order settings 50 7 request db).0 ≡ true
unfolding check_order gates identity_gate breaker_gate enum_gate leverage_gate stop_gate parent_gate
    open_order_gate price_gate notional_gate find_active_breaker_trigger count_open_orders
    sum_notional contribution add mul context excess excess_from half_even
request_allowed = refl

stop_allowed : allows (check_order settings 50 7 stop_request db).0 ≡ true
unfolding check_order gates identity_gate breaker_gate enum_gate leverage_gate stop_gate parent_gate
    open_order_gate price_gate notional_gate find_active_breaker_trigger count_open_orders
    sum_notional contribution add mul context excess excess_from half_even
stop_allowed = refl

check_order-caps_example : FitsCaps settings 50 7 request db (mul one (100 * one))
check_order-caps_example =
    check_order-caps settings 50 7 request db (100 * one) refl refl request_allowed

check_order-breakers_example :
    (any (in_scope none) db.breakers ≡ false)
    × (request.reduce_only ≡ false → any (in_scope (some 7)) db.breakers ≡ false)
check_order-breakers_example = check_order-breakers settings 50 7 request db request_allowed

check_order-reduce_only_example :
    check_order settings 50 7 stop_request db ≡ check_order strict 90 7 stop_request db
check_order-reduce_only_example =
    check_order-reduce_only settings strict 50 90 7 stop_request db refl

check_order-parent_example :
    (stop_request.reduce_only ≡ true)
    × ((parent : Order) × ((find_order 1 db ≡ some parent) × IsParentOf 7 stop_request parent))
check_order-parent_example = check_order-parent settings 50 7 stop_request db 1 refl stop_allowed
