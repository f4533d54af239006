-- ===== src/Positions/Perps.antt =====
-- positions_perps.py: `perps_apply_fill` and its three branches. A position is reduced as on spot,
-- with the profit of a SHORT reversed.
use etfpulse.Base.{ℕ, Bool, true, ◌&&◌, ◌==◌, Option, none, some, if◌then◌else◌}
use etfpulse.Base.Int.{ℤ}
use etfpulse.Decimal.{Decimal, sub_signed}
use etfpulse.Models.{
  OrderSide, buy, sell, unknown_side, PositionSide, long, short, position_side_eq, Order, Position,
  Action, pure, raise_if, or_raise, value_error, insert_position, save_position, ◌>>=◌, ◌>>◌,
}
use etfpulse.Positions.{existing_position}
use etfpulse.Positions.Spot.{opened, extended, close_if_empty, shrunk}

abbrev pub fill_side : OrderSide → Option PositionSide
fill_side buy = some long
fill_side sell = some short
fill_side unknown_side = none

-- A reduce-only fill has nothing to reduce: no position, or one on the fill's own side.
unfoldable pub nothing_to_reduce : PositionSide → Option Position → Bool
nothing_to_reduce side none = true
nothing_to_reduce side (some p) = position_side_eq p.side side

-- `_perps_open`
unfoldable pub perps_open : Order → Decimal → Decimal → PositionSide → Action Position
perps_open o fill_price fill_size side =
    insert_position (let p = opened o fill_price fill_size in record p { side = side })

-- `_perps_extend`
unfoldable pub perps_extend : Position → Decimal → Decimal → Action Position
perps_extend p fill_price fill_size =
    let p' = extended p fill_price fill_size in save_position p' >> pure p'

-- The profit of one unit, by the side that is held.
unfoldable pub pnl_per_unit : PositionSide → Decimal → Decimal → ℤ
pnl_per_unit long entry fill_price = sub_signed fill_price entry
pnl_per_unit short entry fill_price = sub_signed entry fill_price

unfoldable pub perps_reduced : ℕ → Position → Decimal → Decimal → Position
perps_reduced now p fill_price fill_size =
    close_if_empty now fill_price
      (shrunk p (pnl_per_unit p.side p.entry_price fill_price) fill_size)

-- `_perps_reduce_or_close`
unfoldable pub perps_reduce_or_close : ℕ → Position → Decimal → Decimal → Action Position
perps_reduce_or_close now p fill_price fill_size =
    let p' = perps_reduced now p fill_price fill_size in save_position p' >> pure p'

-- Where the fill goes once its side and the existing position are known.
unfoldable pub dispatch_fill :
    ℕ → Order → Decimal → Decimal → PositionSide → Option Position → Action Position
dispatch_fill now o fill_price fill_size side none = perps_open o fill_price fill_size side
dispatch_fill now o fill_price fill_size side (some p) =
    if position_side_eq p.side side
    then perps_extend p fill_price fill_size
    else perps_reduce_or_close now p fill_price fill_size

-- The reduce-only guard in front of it.
unfoldable pub guarded_fill :
    ℕ → Order → Decimal → Decimal → Option Position → PositionSide → Action (Option Position)
guarded_fill now o fill_price fill_size existing side =
    if o.reduce_only && nothing_to_reduce side existing
    then pure none
    else (dispatch_fill now o fill_price fill_size side existing >>= λ p. pure (some p))

unfoldable pub perps_apply_fill : ℕ → Order → Decimal → Decimal → Action (Option Position)
perps_apply_fill now o fill_price fill_size = do
  raise_if (fill_size == 0) value_error
  raise_if (fill_price == 0) value_error
  existing ← existing_position o
  side ← or_raise (fill_side o.side) value_error
  guarded_fill now o fill_price fill_size existing side
