-- ===== src/Life/Fills.antt =====
-- A fill leaves the orders table and its sequence.
use etfpulse.Base.{ℕ, ◌≡◌, refl, ◌&&◌, Option, none, some, inl, inr, Bool-cases}
use etfpulse.Decimal.{Decimal}
use etfpulse.Models.{
  Order, Position, OrderSide, buy, sell, unknown_side, PositionSide, position_side_eq, Db,
  insert_position, save_position,
}
use etfpulse.Positions.Spot.{spot_apply_fill, dispatch_spot, apply_spot_buy, apply_spot_sell}
use etfpulse.Positions.Perps.{
  perps_apply_fill, guarded_fill, dispatch_fill, perps_open, perps_extend, perps_reduce_or_close,
  nothing_to_reduce,
}
use etfpulse.Positions.Apart.{PositionsApart}
use etfpulse.Positions.Cases.{spot_cases, perps_cases}

abbrev OrderFrame : Db → Db → Type 0
OrderFrame db db' = (db'.orders ≡ db.orders) × (db'.next_order_id ≡ db.next_order_id)

module _ (now : ℕ) (o : Order) (price size : Decimal) (db : Db) where
  dispatch_spot-OrderFrame :
      (e : Option Position) (s : OrderSide)
      → OrderFrame db (dispatch_spot now o price size e s db).1
  unfolding dispatch_spot apply_spot_buy apply_spot_sell insert_position save_position
  dispatch_spot-OrderFrame none buy = (refl, refl)
  dispatch_spot-OrderFrame (some p) buy = (refl, refl)
  dispatch_spot-OrderFrame none sell = (refl, refl)
  dispatch_spot-OrderFrame (some p) sell = (refl, refl)
  dispatch_spot-OrderFrame e unknown_side = (refl, refl)

  guarded_fill-OrderFrame :
      (e : Option Position) (s : PositionSide)
      → OrderFrame db (guarded_fill now o price size e s db).1
  unfolding guarded_fill dispatch_fill perps_open perps_extend perps_reduce_or_close insert_position
      save_position
  guarded_fill-OrderFrame none s = elim (Bool-cases (o.reduce_only && nothing_to_reduce s none)) [
    | inl h ↦ rw (h, guarded_fill) (refl, refl)
    | inr h ↦ rw (h, guarded_fill) (refl, refl)
  ]
  guarded_fill-OrderFrame (some p) s =
      elim (Bool-cases (o.reduce_only && nothing_to_reduce s (some p))) [
        | inl h ↦ rw (h, guarded_fill) (refl, refl)
        | inr h ↦ elim (Bool-cases (position_side_eq p.side s)) [
          | inl e ↦ rw (h, e, guarded_fill, dispatch_fill) (refl, refl)
          | inr e ↦ rw (h, e, guarded_fill, dispatch_fill) (refl, refl)
        ]
      ]

  pub spot_apply_fill-OrderFrame :
      PositionsApart db → OrderFrame db (spot_apply_fill now o price size db).1
  spot_apply_fill-OrderFrame a =
      spot_cases (λ t. OrderFrame db t.1) now o price size db a (λ _. (refl, refl))
        (λ _. dispatch_spot-OrderFrame none o.side)
        (λ p _. dispatch_spot-OrderFrame (some p) o.side)

  pub perps_apply_fill-OrderFrame :
      PositionsApart db → OrderFrame db (perps_apply_fill now o price size db).1
  perps_apply_fill-OrderFrame a =
      perps_cases (λ t. OrderFrame db t.1) now o price size db a (λ _. (refl, refl))
        (λ s _ _. guarded_fill-OrderFrame none s) (λ s p _ _. guarded_fill-OrderFrame (some p) s)
