-- ===== src/Positions.antt =====
-- The position tracker: backend/etfpulse/pipeline/execution/positions_spot.py and
-- positions_perps.py. This file has what the two share.
pub mod Spot
pub mod Perps
pub mod Average
pub mod Keys
pub mod OneOpen
pub mod Apart
pub mod Rows
pub mod Book
pub mod Cases
pub mod Fills
pub mod Holdings
pub mod PerpsBook
pub mod SpotBook
use etfpulse.Base.{
  ℕ, suc, Bool, true, false, not, ◌&&◌, ◌==◌, Option, none, some, List, [], ◌∷◌, Text, text_eq,
  select,
}
use etfpulse.Decimal.{Decimal, add, mul, div, quantize_half_up}
use etfpulse.Models.{
  Venue, venue_eq, is_open, Order, Position, Action, pure, raise, gets, multiple_results, ◌>>=◌, Db,
}

-- `=` on a nullable column, where the code compares with a Python value: `None` finds the NULLs.
abbrev pub option_eq : Option ℕ → Option ℕ → Bool
option_eq none none = true
option_eq none (some b) = false
option_eq (some a) none = false
option_eq (some a) (some b) = a == b

abbrev pub bool_eq : Bool → Bool → Bool
bool_eq true b = b
bool_eq false b = not b

-- What a fill finds its position by.
pub record Key : Type 0 where
  pub user_id : Option ℕ
  pub venue : Venue
  pub asset : Text
  pub paper_trade : Bool

abbrev pub order_key : Order → Key
order_key o = record {
  user_id = o.user_id;
  venue = o.venue;
  asset = o.asset;
  paper_trade = o.paper_trade;
}

-- The WHERE clause of the query for the OPEN position of a fill.
unfoldable pub holds : Key → Position → Bool
holds k p =
    option_eq p.user_id k.user_id
    && venue_eq p.venue k.venue
    && text_eq p.asset k.asset
    && is_open p.status
    && bool_eq p.paper_trade k.paper_trade

-- `scalar_one_or_none()`
unfoldable pub one_or_none : List Position → Action (Option Position)
one_or_none [] = pure none
one_or_none (p ∷ []) = pure (some p)
one_or_none (p ∷ q ∷ ps) = raise multiple_results

unfoldable pub existing_position : Order → Action (Option Position)
existing_position o = do one_or_none (← gets (λ db. select (holds (order_key o)) db.positions))

-- The average entry of a position of `size` at `entry` that a fill extends, in price quanta.
unfoldable pub weighted_entry : Decimal → Decimal → Decimal → Decimal → Decimal
weighted_entry entry size fill_price fill_size =
    quantize_half_up (div (add (mul entry size) (mul fill_price fill_size)) (add size fill_size))
