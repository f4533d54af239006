-- ===== src/Positions/SpotBook.antt =====
-- `spot_apply_fill` refines the book: a SELL may only reduce.
use etfpulse.Base.{ℕ, ◌<◌, ◌≡◌, refl, sym, ap, ◌∙◌, subst, none, some, [], ◌∷◌, select}
use etfpulse.Decimal.{Decimal}
use etfpulse.Models.{
  Order, OrderSide, side_eq, Position, PositionSide, Db, buy, sell, unknown_side, long, short,
  save_position, insert_position,
}
use etfpulse.Positions.{holds, order_key}
use etfpulse.Positions.Book.{Holding, holding, first_holding, book_fill, FitsContext}
use etfpulse.Positions.Spot.{
  spot_apply_fill, dispatch_spot, apply_spot_buy, apply_spot_sell, opened, reduced,
}
use etfpulse.Positions.Perps.{fill_side}
use etfpulse.Positions.Apart.{PositionsApart}
use etfpulse.Positions.Cases.{spot_cases, not-IsRefused}
use etfpulse.Positions.Holdings.{holding-opened, holding-extended, holding-shrunk}

-- Spot holdings are LONG.
abbrev pub IsLong : Holding → Type 0
IsLong none = Unit
IsLong (some (s, _)) = s ≡ long

module _ (now : ℕ) (o : Order) (fill_price fill_size : Decimal) (db : Db)
    (a : PositionsApart db) where
  spot_holding_empty :
      (t : OrderSide) (side : PositionSide)
      → fill_side t ≡ some side
      → select (holds (order_key o)) db.positions ≡ []
      → holding (order_key o) (dispatch_spot now o fill_price fill_size none t db).1
        ≡ book_fill (side_eq t sell) side fill_size none
  unfolding dispatch_spot apply_spot_buy apply_spot_sell insert_position opened
  spot_holding_empty buy long k e = holding-opened now o fill_price fill_size db a long e
  spot_holding_empty sell side k e = rw e refl
  spot_holding_empty buy short k e = cc
  spot_holding_empty unknown_side side k e = cc

  spot_holding_one :
      (t : OrderSide) (side : PositionSide) (p : Position)
      → fill_side t ≡ some side
      → p.side ≡ long
      → FitsContext (some (p.side, p.size)) fill_size
      → select (holds (order_key o)) db.positions ≡ p ∷ []
      → holding (order_key o) (dispatch_spot now o fill_price fill_size (some p) t db).1
        ≡ book_fill (side_eq t sell) side fill_size (some (p.side, p.size))
  unfolding dispatch_spot apply_spot_buy apply_spot_sell save_position reduced
  spot_holding_one buy long p k l fits e =
      holding-extended now o fill_price fill_size db a p e fits.0 ∙ rw l refl
  spot_holding_one sell short p k l fits e =
      holding-shrunk now o fill_price fill_size db a p _ e fits.1 ∙ rw l refl
  spot_holding_one buy short p k l fits e = cc
  spot_holding_one sell long p k l fits e = cc
  spot_holding_one unknown_side side p k l fits e = cc

  -- A spot fill with a positive size and price moves the holding of the order's key as the book says: a
  -- BUY opens or grows it, a SELL only reduces it. The table's rows are apart, the holding is LONG, and
  -- the sizes fit the context's 28 digits.
  pub spot_apply_fill-holding :
      (side : PositionSide)
      → fill_side o.side ≡ some side
      → 0 < fill_size
      → 0 < fill_price
      → IsLong (holding (order_key o) db)
      → FitsContext (holding (order_key o) db) fill_size
      → holding (order_key o) (spot_apply_fill now o fill_price fill_size db).1
        ≡ book_fill (side_eq o.side sell) side fill_size (holding (order_key o) db)
  spot_apply_fill-holding side sided size price is_long fits =
      spot_cases
        (λ t.
          holding (order_key o) t.1
          ≡ book_fill (side_eq o.side sell) side fill_size (holding (order_key o) db))
        now o fill_price fill_size db a
        (λ why. absurd (not-IsRefused o fill_price fill_size side sided size price why))
        (λ e.
          spot_holding_empty o.side side sided e
          ∙ ap (book_fill (side_eq o.side sell) side fill_size) (sym (ap first_holding e)))
        (λ p e.
          let seen : holding (order_key o) db ≡ some (p.side, p.size) = ap first_holding e in
          spot_holding_one o.side side p sided (subst IsLong seen is_long)
            (subst (λ h. FitsContext h fill_size) seen fits) e
          ∙ ap (book_fill (side_eq o.side sell) side fill_size) (sym seen))
