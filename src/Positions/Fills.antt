-- ===== src/Positions/Fills.antt =====
-- Every fill keeps the rows of the positions table apart.
use etfpulse.Base.{ℕ, ◌≡◌, refl, none, some, [], ◌∷◌, select, inl, inr, Bool-cases, ◌&&◌}
use etfpulse.Decimal.{Decimal, sub_signed}
use etfpulse.Models.{
  Order, OrderSide, Position, PositionSide, position_side_eq, Db, buy, sell, unknown_side,
  save_position, insert_position,
}
use etfpulse.Positions.{holds, order_key}
use etfpulse.Positions.Spot.{
  spot_apply_fill, dispatch_spot, apply_spot_buy, apply_spot_sell, opened, extended, reduced,
}
use etfpulse.Positions.Perps.{
  perps_apply_fill, guarded_fill, dispatch_fill, perps_open, perps_extend, perps_reduce_or_close,
  perps_reduced, pnl_per_unit, nothing_to_reduce,
}
use etfpulse.Positions.Apart.{PositionsApart}
use etfpulse.Positions.Cases.{spot_cases, perps_cases, insert_keeps, save_keeps, reduced_keeps}

module _ (now : ℕ) (o : Order) (fill_price fill_size : Decimal) (db : Db)
    (a : PositionsApart db) where
  spot_empty :
      (s : OrderSide)
      → select (holds (order_key o)) db.positions ≡ []
      → PositionsApart (dispatch_spot now o fill_price fill_size none s db).1
  unfolding dispatch_spot apply_spot_buy apply_spot_sell opened insert_position
  spot_empty buy e = insert_keeps o (opened o fill_price fill_size) db a e refl refl refl refl
  spot_empty sell e = a
  spot_empty unknown_side e = a

  spot_one :
      (s : OrderSide) (p : Position)
      → select (holds (order_key o)) db.positions ≡ p ∷ []
      → PositionsApart (dispatch_spot now o fill_price fill_size (some p) s db).1
  unfolding dispatch_spot apply_spot_buy apply_spot_sell extended save_position reduced
  spot_one buy p e =
      save_keeps o p (extended p fill_price fill_size) db a e (refl, refl, refl, refl, refl)
  spot_one sell p e =
      save_keeps o p (reduced now p fill_price fill_size) db a e
        (reduced_keeps now p (sub_signed fill_price p.entry_price) fill_price fill_size)
  spot_one unknown_side p e = a

  -- A spot fill keeps ids distinct and each key at one OPEN position.
  pub spot_apply_fill-PositionsApart :
      PositionsApart (spot_apply_fill now o fill_price fill_size db).1
  spot_apply_fill-PositionsApart =
      spot_cases (λ t. PositionsApart t.1) now o fill_price fill_size db a (λ _. a)
        (spot_empty o.side) (λ p e. spot_one o.side p e)

  perps_empty :
      (s : PositionSide)
      → select (holds (order_key o)) db.positions ≡ []
      → PositionsApart (guarded_fill now o fill_price fill_size none s db).1
  unfolding guarded_fill dispatch_fill perps_open nothing_to_reduce opened insert_position
  perps_empty s e = elim (Bool-cases o.reduce_only) [
    | inl r ↦ rw (r, guarded_fill) a
    | inr r ↦
        rw (r, guarded_fill)
          (insert_keeps o (record (opened o fill_price fill_size) { side = s }) db a e refl refl
            refl refl)
  ]

  perps_one :
      (s : PositionSide) (p : Position)
      → select (holds (order_key o)) db.positions ≡ p ∷ []
      → PositionsApart (guarded_fill now o fill_price fill_size (some p) s db).1
  unfolding guarded_fill dispatch_fill nothing_to_reduce perps_extend perps_reduce_or_close extended
      save_position perps_reduced
  perps_one s p e = elim (Bool-cases (o.reduce_only && position_side_eq p.side s)) [
    | inl r ↦ rw (r, guarded_fill) a
    | inr r ↦ elim (Bool-cases (position_side_eq p.side s)) [
      | inl same ↦
          rw (r, same, guarded_fill, dispatch_fill)
            (save_keeps o p (extended p fill_price fill_size) db a e (refl, refl, refl, refl, refl))
      | inr other ↦
          rw (r, other, guarded_fill, dispatch_fill)
            (save_keeps o p (perps_reduced now p fill_price fill_size) db a e (
              reduced_keeps now p (pnl_per_unit p.side p.entry_price fill_price) fill_price
                fill_size))
    ]
  ]

  -- A perps fill keeps ids distinct and each key at one OPEN position.
  pub perps_apply_fill-PositionsApart :
      PositionsApart (perps_apply_fill now o fill_price fill_size db).1
  perps_apply_fill-PositionsApart =
      perps_cases (λ t. PositionsApart t.1) now o fill_price fill_size db a (λ _. a)
        (λ s _. perps_empty s) (λ s p _. perps_one s p)
