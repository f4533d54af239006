-- ===== src/Tests/Reconcile.antt =====
-- The sweep, the reapers and the symbols.
use etfpulse.Base.{
  leb, or_zero, if◌then◌else◌, ◌⊎◌, ℕ, ◌+◌, ◌-◌, ◌*◌, ◌≡◌, refl, none, some, Option, List, [], ◌∷◌,
  Text, Dict, codes, arith,
}
use etfpulse.Decimal.{add, mul, Decimal, one, sub, context, excess, excess_from, half_even}
use etfpulse.Models.{
  filled, partially_filled, expired, sodex_spot, sodex_perps, acked, long, Order, Db, ok, raised,
  client_error, find_order,
}
use etfpulse.Positions.{order_key, holds}
use etfpulse.Positions.Book.{holding}
use mathlib.Core.Option.{bind}
use etfpulse.Symbols.{first_not_empty, strip_v, before, extract_asset_from_symbol_name}
use etfpulse.Symbols.Laws.{extract_asset-base}
use etfpulse.Reaper.{expire_overdue_signals, fail_stuck_deliveries, expire_overdue_orders}
use etfpulse.Delivery.Rows.{Signal, signal_pending, SignalDelivery, delivery_pending, to_group}
use etfpulse.Reaper.Laws.{
  expire_overdue_orders-twice, expire_overdue_signals-twice, fail_stuck_deliveries-twice,
  expire_overdue_orders-row, Overdue,
}
use etfpulse.Reconcile.Json.{non_empty_text, null, string, safe_decimal, truthy_or, is_truthy}
use etfpulse.Reconcile.Rows.{VenuePosition, normalise_venue_position, venue_side, side_of_text}
use etfpulse.Reconcile.Spot.{spot_reconcile_positions}
use etfpulse.Reconcile.Perps.{perps_reconcile_positions}
use etfpulse.Reconcile.Tasks.{Tick, no_counts}
use etfpulse.Reconcile.Fold.{
  Reads, VenueOrder, process_one_order_fill, with_fill, derive_fill_price,
}
use etfpulse.Reconcile.Folded.{NewFill, process_one_order_fill-holding}
use etfpulse.Reconcile.Again.{process_one_order_fill-again}
use etfpulse.Reconcile.Sweep.{reconcile_open_orders, user_ids}
use etfpulse.Reconcile.Tally.{reconcile_open_orders-users}
use etfpulse.Reconcile.Ends.{spot_reconcile_positions-holding, perps_reconcile_positions-holding}
use etfpulse.Tests.Fixtures.{order, db}
use etfpulse.Tests.Positions.{db_apart, spot_db, spot_db_apart}

-- A text of digits, as `Decimal` reads it; other texts are refused.
abbrev digits : ℕ → Text → Option Decimal
digits n [] = some (n * one)
digits n (c ∷ cs) = digits (n * 10 + (c - b'0')) cs

abbrev live_order : Order
live_order = record order { status = acked }

abbrev live_db : Db
live_db = record db { orders = live_order ∷ [] }

-- The venue has filled one unit of the order, at 100 on average.
abbrev row : VenueOrder
row = record {
  cl_ord_id = string (codes "ep-p-1");
  filled_quantity = string (codes "1");
  filled_funds = null;
  avg_price = string (codes "100");
  avg_price_snake = null;
}

abbrev index : Dict VenueOrder
index = (codes "ep-p-1", row) ∷ []

-- The venue lists one open order, no balance and no position.
abbrev pub reads : Reads
reads = record {
  now = 1000000000;
  order_reconcile_min_age_seconds = 60;
  order_reconcile_orphan_grace_seconds = 300;
  read_decimal = digits 0;
  get_open_orders = λ venue address. ok (row ∷ []);
  get_balances = λ address. raised (client_error 503);
  get_positions = λ address. ok [];
}

abbrev tick : Tick
tick = record { db = live_db; summary = no_counts }

extract_asset-base_example :
    (extract_asset_from_symbol_name (codes "vBTC_vUSDC") ≡ some (codes "BTC"))
    × (extract_asset_from_symbol_name (codes "BTC-vUSDC") ≡ some (codes "BTC"))
    × (extract_asset_from_symbol_name (codes "BTC") ≡ some (codes "BTC"))
extract_asset-base_example = extract_asset-base b'B' (codes "TC") (codes "vUSDC") refl refl

reconcile_open_orders-users_example :
    let c = (reconcile_open_orders reads live_db).summary in c.users_processed + c.user_errors ≡ 1
unfolding user_ids
reconcile_open_orders-users_example = reconcile_open_orders-users reads live_db

new_fill : NewFill reads index live_order one (100 * one)
unfolding derive_fill_price safe_decimal truthy_or is_truthy
new_fill = record { row = row; listed = refl; quantity = refl; more = refl; priced = refl }

process_one_order_fill-holding_example :
    let db' = (process_one_order_fill reads index live_order tick).1.db in
    (find_order 1 db'
      ≡ some (record live_order {
        filled_size = some one;
        filled_price = some (100 * one);
        filled_value = some (add (or_zero live_order.filled_value) (mul one (100 * one)));
        status = if leb live_order.requested_size one then filled else partially_filled;
      }))
    × (holding (order_key live_order) db' ≡ some (long, 4 * one))
unfolding holds context excess excess_from half_even sub
process_one_order_fill-holding_example =
    process_one_order_fill-holding reads index live_order one (100 * one) tick long new_fill refl
      refl refl (ground arith) db_apart refl (refl, refl)

process_one_order_fill-again_example :
    let s = (process_one_order_fill reads index live_order tick).1 in
    process_one_order_fill reads index (with_fill live_order one (100 * one)) s ≡ (ok tt, s)
unfolding with_fill holds context excess excess_from half_even sub
process_one_order_fill-again_example =
    process_one_order_fill-again reads index row live_order (with_fill live_order one (100 * one))
      tick refl refl process_one_order_fill-holding_example.0

spot_reconcile_positions-holding_example :
    holding
      (record (order_key order) { venue = sodex_spot })
      (spot_reconcile_positions 20 7 sodex_spot ((codes "BTC", 0) ∷ []) spot_db).1
    ≡ none
spot_reconcile_positions-holding_example =
    spot_reconcile_positions-holding 20 7 spot_db spot_db_apart ((codes "BTC", 0) ∷ [])
      (record (order_key order) { venue = sodex_spot })

-- The venue lists the asset with size 0 only: the position is closed there.
abbrev flat : VenuePosition
flat = record {
  asset = string (codes "BTC");
  symbol = null;
  s = null;
  side = string (codes "LONG");
  position_side = null;
  S = null;
  size = string (codes "0");
  quantity = null;
  q = null;
}

perps_reconcile_positions-holding_example :
    holding
      (order_key order)
      (perps_reconcile_positions (digits 0) 20 7 sodex_perps (flat ∷ []) db).1
    ≡ none
unfolding normalise_venue_position venue_side side_of_text safe_decimal truthy_or is_truthy
    non_empty_text extract_asset_from_symbol_name first_not_empty strip_v before bind
perps_reconcile_positions-holding_example =
    perps_reconcile_positions-holding 20 7 db db_apart (digits 0) (flat ∷ []) (order_key order)

expire_overdue_orders-twice_example :
    let (first, db') = expire_overdue_orders 2000 db in
    let (second, db'') = expire_overdue_orders 3000 db' in
    (db'' ≡ (expire_overdue_orders 3000 db).1)
    × (first + second ≡ (expire_overdue_orders 3000 db).0)
expire_overdue_orders-twice_example = expire_overdue_orders-twice 2000 3000 db (ground arith)

-- An order that was never accepted is expired; an accepted one would be left.
expire_overdue_orders-row_example :
    let after = find_order 1 (expire_overdue_orders 2000 db).1 in
    (Overdue 2000 order × (after ≡ some (record order { status = expired })))
    ⊎ ((¬ (Overdue 2000 order)) × (after ≡ some order))
expire_overdue_orders-row_example = expire_overdue_orders-row 2000 1 db order refl

abbrev signals : List Signal
signals =
    record {
      id = 1;
      asset = codes "BTC";
      status = signal_pending;
      confidence = some 60;
      confirmation_score = none;
      expires_at = some 1000;
    }
    ∷ []

expire_overdue_signals-twice_example :
    let (first, rest) = expire_overdue_signals 2000 signals in
    let (second, end) = expire_overdue_signals 3000 rest in
    (end ≡ (expire_overdue_signals 3000 signals).1)
    × (first + second ≡ (expire_overdue_signals 3000 signals).0)
expire_overdue_signals-twice_example = expire_overdue_signals-twice 2000 3000 signals (ground arith)

abbrev deliveries : List SignalDelivery
deliveries =
    record {
      id = 1;
      signal_id = 1;
      target = to_group 1;
      status = delivery_pending;
      error_message = none;
      attempt_count = 0;
      last_attempt_at = none;
      created_at = 10;
      delivered_at = none;
    }
    ∷ []

fail_stuck_deliveries-twice_example :
    let (first, rest) = fail_stuck_deliveries 2000 0 deliveries in
    let (second, end) = fail_stuck_deliveries 3000 0 rest in
    (end ≡ (fail_stuck_deliveries 3000 0 deliveries).1)
    × (first + second ≡ (fail_stuck_deliveries 3000 0 deliveries).0)
fail_stuck_deliveries-twice_example =
    fail_stuck_deliveries-twice 2000 3000 0 deliveries (ground arith)
