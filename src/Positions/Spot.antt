-- ===== src/Positions/Spot.antt =====
-- positions_spot.py: `spot_apply_fill` and its two branches. `now` is the clock that is read where
-- the code calls `datetime.now`.
use etfpulse.Base.{ℕ, ◌==◌, Option, none, some, min, if◌then◌else◌}
use etfpulse.Base.Int.{ℤ, pos}
use etfpulse.Decimal.{Decimal, add, sub, sub_signed, mul_signed, add_signed}
use etfpulse.Models.{
  OrderSide, buy, sell, unknown_side, long, open_position, closed_position, Order, Position, Action,
  pure, raise, raise_if, value_error, insert_position, save_position, ◌>>=◌, ◌>>◌,
}
use etfpulse.Positions.{existing_position, weighted_entry}

-- The row that a first BUY inserts. The id is the table's.
unfoldable pub opened : Order → Decimal → Decimal → Position
opened o fill_price fill_size = record {
  id = 0;
  user_id = o.user_id;
  signal_id = o.signal_id;
  order_id = some o.id;
  venue = o.venue;
  asset = o.asset;
  side = long;
  size = fill_size;
  entry_price = fill_price;
  status = open_position;
  paper_trade = o.paper_trade;
  leverage = none;
  closed_at = none;
  close_price = none;
  realized_pnl = none;
}

unfoldable pub extended : Position → Decimal → Decimal → Position
extended p fill_price fill_size = record p {
  size = add p.size fill_size;
  entry_price = weighted_entry p.entry_price p.size fill_price fill_size;
}

-- `_apply_spot_buy`
unfoldable pub apply_spot_buy : Order → Decimal → Decimal → Option Position → Action Position
apply_spot_buy o fill_price fill_size none = insert_position (opened o fill_price fill_size)
apply_spot_buy o fill_price fill_size (some p) =
    let p' = extended p fill_price fill_size in save_position p' >> pure p'

-- `existing.realized_pnl or Decimal("0")`
abbrev pub pnl_or_zero : Option ℤ → ℤ
pnl_or_zero none = pos 0
pnl_or_zero (some x) = x

-- `if existing.size <= 0`: the row is closed at the fill's price.
unfoldable pub close_if_empty : ℕ → Decimal → Position → Position
close_if_empty now fill_price p =
    if p.size == 0
    then record p { status = closed_position; close_price = some fill_price; closed_at = some now }
    else p

-- The part of a reduction that the two venues share: `per_unit` is the profit of one unit, and a fill
-- beyond the held size counts for the held size only.
unfoldable pub shrunk : Position → ℤ → Decimal → Position
shrunk p per_unit fill_size =
    let matched = min fill_size p.size in
    record p {
      realized_pnl = some (add_signed (pnl_or_zero p.realized_pnl) (mul_signed per_unit matched));
      size = sub p.size matched;
    }

unfoldable pub reduced : ℕ → Position → Decimal → Decimal → Position
reduced now p fill_price fill_size =
    close_if_empty now fill_price (shrunk p (sub_signed fill_price p.entry_price) fill_size)

-- `_apply_spot_sell`
unfoldable pub apply_spot_sell :
    ℕ → Order → Decimal → Decimal → Option Position → Action (Option Position)
apply_spot_sell now o fill_price fill_size none = pure none
apply_spot_sell now o fill_price fill_size (some p) =
    let p' = reduced now p fill_price fill_size in save_position p' >> pure (some p')

-- The branch on the order's side, with the position that the query found.
unfoldable pub dispatch_spot :
    ℕ → Order → Decimal → Decimal → Option Position → OrderSide → Action (Option Position)
dispatch_spot now o fill_price fill_size existing buy =
    apply_spot_buy o fill_price fill_size existing >>= λ p. pure (some p)
dispatch_spot now o fill_price fill_size existing sell =
    apply_spot_sell now o fill_price fill_size existing
dispatch_spot now o fill_price fill_size existing unknown_side = raise value_error

unfoldable pub spot_apply_fill : ℕ → Order → Decimal → Decimal → Action (Option Position)
spot_apply_fill now o fill_price fill_size = do
  raise_if (fill_size == 0) value_error
  raise_if (fill_price == 0) value_error
  existing ← existing_position o
  dispatch_spot now o fill_price fill_size existing o.side
