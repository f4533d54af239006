-- ===== src/Execution/Paper.antt =====
-- Paper trading: `simulate_fill` of paper.py, `_ack_paper_conditional` and `_simulate_paper_fill`.
use etfpulse.Base.{
  ℕ, ◌*◌, false, ◌&&◌, Option, none, some, is_none, Text, codes, ◌==◌, if◌then◌else◌,
}
use etfpulse.Decimal.{Decimal, one, add, sub, mul, div, quantize}
use etfpulse.Models.{
  sodex_spot, sodex_perps, unknown_venue, acked, filled, rejected, OrderSide, buy, sell,
  unknown_side, paper_id, Order, Position, Action, pure, raise, raise_if, or_raise, value_error,
  ◌>>=◌, ◌>>◌,
}
use etfpulse.Positions.Spot.{spot_apply_fill}
use etfpulse.Positions.Perps.{perps_apply_fill}
use etfpulse.Execution.Clients.{SubmitResult}
use etfpulse.Execution.Orders.{flush_order, reported}

unfoldable pub slipped_price : ℕ → OrderSide → Decimal → Option Decimal
slipped_price bps side price =
    let slippage = div (bps * one) (10000 * one) in
    elim side [
      | buy ↦ some (quantize (mul price (add one slippage)))
      | sell ↦ some (quantize (mul price (sub one slippage)))
      | unknown_side ↦ none
    ]

-- `simulate_fill`: the price and the size of the fill.
unfoldable pub simulate_fill : ℕ → Order → Action (Decimal × Decimal)
simulate_fill bps o = do
  price ← or_raise o.requested_price value_error
  raise_if (o.requested_size == 0) value_error
  fill_price ← or_raise (slipped_price bps o.side price) value_error
  pure (fill_price, o.requested_size)

unfoldable pub ack_paper_conditional : Order → Action SubmitResult
ack_paper_conditional o =
    let resting = record o { exchange_order_id = some (paper_id o.id); status = acked } in
    flush_order resting
    >> pure (record {
      status = acked;
      order_id = o.id;
      exchange_order_id = some (paper_id o.id);
      error_message = none;
      replayed = false;
    })

unfoldable pub apply_fill : ℕ → Order → Decimal → Decimal → Action (Option Position)
apply_fill now o fill_price fill_size = elim o.venue [
  | sodex_spot ↦ spot_apply_fill now o fill_price fill_size
  | sodex_perps ↦ perps_apply_fill now o fill_price fill_size
  | unknown_venue ↦ raise value_error
]

abbrev pub nothing_reduced : Text
nothing_reduced = codes "paper: reduce_only order had no position to reduce"

-- The order after its fill: rejected where it was to reduce and nothing was there, else filled.
unfoldable pub record_paper_fill : Order → Decimal → Decimal → Option Position → Action SubmitResult
record_paper_fill o fill_price fill_size position =
    let marked = record o { exchange_order_id = some (paper_id o.id) } in
    if is_none position && o.reduce_only
    then (let refused = record marked { status = rejected; error_message = some nothing_reduced } in
        flush_order refused >> pure (reported refused))
    else (let done = record marked {
      filled_price = some fill_price;
      filled_size = some fill_size;
      filled_value = some (mul fill_price fill_size);
      status = filled;
    } in
        flush_order done >> pure (record (reported done) { error_message = none }))

unfoldable pub simulate_paper_fill : ℕ → ℕ → Order → Action SubmitResult
simulate_paper_fill now bps o = do
  (fill_price, fill_size) ← simulate_fill bps o
  position ← apply_fill now o fill_price fill_size
  record_paper_fill o fill_price fill_size position
