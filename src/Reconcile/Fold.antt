-- ===== src/Reconcile/Fold.antt =====
-- `_process_one_order_fill`, `_handle_unmatched_order`, `_index_venue_orders_by_clordid` and
-- `_derive_fill_price`: an order against the venue's list of open orders.
use etfpulse.Base.{
  ℕ, suc, ◌-◌, ◌*◌, Bool, leb, ltb, ◌==◌, Option, none, some, or_zero, List, [], ◌∷◌, Text, Dict,
  dict_get, dict_set, if◌then◌else◌,
}
use etfpulse.Decimal.{Decimal, add, sub, mul, div}
use etfpulse.Models.{
  Venue, sodex_spot, sodex_perps, unknown_venue, filled, partially_filled, Order, Position, Action,
  pure, save_order, Result,
}
use etfpulse.Positions.Spot.{spot_apply_fill}
use etfpulse.Positions.Perps.{perps_apply_fill}
use etfpulse.Reconcile.Json.{Json, truthy_or, safe_decimal, non_empty_text}
use etfpulse.Reconcile.Rows.{VenuePosition}
use etfpulse.Reconcile.Tasks.{Summary, Task, done, on_db, count, ◌>>◌}

-- A row of the venue's open orders: the fields that the code reads.
pub record VenueOrder : Type 0 where
  pub cl_ord_id : Json
  pub filled_quantity : Json
  pub filled_funds : Json
  pub avg_price : Json
  pub avg_price_snake : Json

-- An entry of the venue's balances: `asset` and `total` are texts.
pub record BalanceEntry : Type 0 where
  pub asset : Text
  pub total : Text

-- What a sweep has from outside: the clock in microseconds, two settings in seconds, `Decimal` of a
-- text, and the answers of the venue to its three reads, by wallet address.
pub record Reads : Type 0 where
  pub now : ℕ
  pub order_reconcile_min_age_seconds : ℕ
  pub order_reconcile_orphan_grace_seconds : ℕ
  pub read_decimal : Text → Option Decimal
  pub get_open_orders : Venue → Text → Result (List VenueOrder)
  pub get_balances : Text → Result (List BalanceEntry)
  pub get_positions : Text → Result (List VenuePosition)

-- `now - timedelta(seconds=n)`: no time is before 0.
abbrev pub seconds_before : ℕ → ℕ → ℕ
seconds_before now n = now - n * 1000000

abbrev put_row : Option Text → VenueOrder → Dict VenueOrder → Dict VenueOrder
put_row none row out = out
put_row (some id) row out = dict_set id row out

-- `_index_venue_orders_by_clordid`, from the dict that the rows before made.
unfoldable pub index_venue_orders_by_clordid : Dict VenueOrder → List VenueOrder → Dict VenueOrder
index_venue_orders_by_clordid out [] = out
index_venue_orders_by_clordid out (row ∷ rows) =
    index_venue_orders_by_clordid (put_row (non_empty_text row.cl_ord_id) row out) rows

-- The first of three prices that is there and positive.
abbrev pub positive_or : Option Decimal → Option Decimal → Option Decimal
positive_or none other = other
positive_or (some d) other = if d == 0 then other else some d

abbrev pub quotient : Option Decimal → Decimal → Option Decimal
quotient none quantity = none
quotient (some funds) quantity = if quantity == 0 then none else some (div funds quantity)

-- `_derive_fill_price`
unfoldable pub derive_fill_price :
    Reads → VenueOrder → Decimal → Option Decimal → Option Decimal → Option Decimal
derive_fill_price r row filled_quantity filled_funds fallback =
    positive_or (safe_decimal r.read_decimal (truthy_or row.avg_price row.avg_price_snake))
      (positive_or (quotient filled_funds filled_quantity) (positive_or fallback none))

-- `_handle_unmatched_order`
unfoldable pub handle_unmatched_order : Reads → Order → Task (Unit {0})
handle_unmatched_order r o =
    if ltb o.updated_at (seconds_before r.now r.order_reconcile_orphan_grace_seconds)
    then count (λ c. record c { orders_drift_unmatched = suc c.orders_drift_unmatched })
    else done tt

-- The order's row after a fill up to `venue_filled` at `fill_price`.
unfoldable pub with_fill : Order → Decimal → Decimal → Order
with_fill o venue_filled fill_price = record o {
  filled_size = some venue_filled;
  filled_price = some fill_price;
  filled_value =
      some
        (add (or_zero o.filled_value) (mul (sub venue_filled (or_zero o.filled_size)) fill_price));
  status = if leb o.requested_size venue_filled then filled else partially_filled;
}

abbrev pub count_fill : Bool → Summary → Summary
count_fill whole c =
    if whole
    then record c { orders_filled = suc c.orders_filled }
    else record c { orders_partially_filled = suc c.orders_partially_filled }

-- The fill of the order's venue; an order of no venue has no position.
unfoldable pub apply_delta : ℕ → Order → Venue → Decimal → Decimal → Action (Option Position)
apply_delta now o sodex_spot fill_price size = spot_apply_fill now o fill_price size
apply_delta now o sodex_perps fill_price size = perps_apply_fill now o fill_price size
apply_delta now o unknown_venue fill_price size = pure none

-- The branch of a new fill whose price is known.
unfoldable pub fold_fill : Reads → Order → Decimal → Decimal → Task (Unit {0})
fold_fill r o venue_filled fill_price =
    let o' = with_fill o venue_filled fill_price in
    on_db (save_order o')
    >> count (count_fill (leb o.requested_size venue_filled))
    >> on_db (apply_delta r.now o' o.venue fill_price (sub venue_filled (or_zero o.filled_size)))
    >> done tt

unfoldable pub fold_priced : Reads → Order → Decimal → Option Decimal → Task (Unit {0})
fold_priced r o venue_filled none = done tt
fold_priced r o venue_filled (some fill_price) = fold_fill r o venue_filled fill_price

unfoldable pub fold_row : Reads → Order → VenueOrder → Option Decimal → Task (Unit {0})
fold_row r o row none = done tt
fold_row r o row (some venue_filled) =
    if leb venue_filled (or_zero o.filled_size)
    then done tt
    else fold_priced r o venue_filled (
        derive_fill_price r row venue_filled (safe_decimal r.read_decimal row.filled_funds)
          o.requested_price)

-- What is done with the row that `venue_open_by_clordid.get` finds.
unfoldable pub process_row : Reads → Order → Option VenueOrder → Task (Unit {0})
process_row r o none = handle_unmatched_order r o
process_row r o (some row) = fold_row r o row (safe_decimal r.read_decimal row.filled_quantity)

-- `_process_one_order_fill`
unfoldable pub process_one_order_fill : Reads → Dict VenueOrder → Order → Task (Unit {0})
process_one_order_fill r index o = process_row r o (dict_get o.client_order_id index)
