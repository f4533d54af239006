-- ===== src/Life.antt =====
-- The life of orders: models/order.py says that a status moves forward along the enum and that a
-- terminal one is never reopened. Life/Rows has the tables along a step, Life/Upholds what keeps
-- them, and Life/Steps the steps of the whole program.
pub mod Rows
pub mod Fills
pub mod Upholds
pub mod Submits
pub mod Cancels
pub mod Prepares
pub mod Sweeps
pub mod Reapers
pub mod Steps
use etfpulse.Base.{ℕ, ◌≡◌, ◌≤◌, true}
use etfpulse.Models.{
  OrderStatus, pending, submitted, acked, partially_filled, filled, cancelled, rejected, expired,
  is_terminal, Order,
}

-- The place of a status in the enum.
unfoldable pub rank : OrderStatus → ℕ
rank pending = 0
rank submitted = 1
rank acked = 2
rank partially_filled = 3
rank filled = 4
rank cancelled = 5
rank rejected = 6
rank expired = 7

-- What becomes of an order's row: the same row, no earlier in its life; as it was if terminal.
pub record Advanced (x y : Order) : Type 0 where
  pub same_id : y.id ≡ x.id
  pub forward : rank x.status ≤ rank y.status
  pub settled : is_terminal x.status ≡ true → y ≡ x
