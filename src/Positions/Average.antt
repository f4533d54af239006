-- ===== src/Positions/Average.antt =====
-- The average entry price of a position that a fill extends.
use native.Mathlib.Nat.{mul-le-mul_right}
use etfpulse.Base.{ℕ, ◌+◌, ◌*◌, ◌/◌, ◌^◌, ◌≤◌, ◌<◌, ◌≡◌, arith}
use etfpulse.Decimal.{one, price_quantum, add, mul}
use etfpulse.Decimal.Laws.{div-lower, div-upper, quantize_half_up-lower, quantize_half_up-upper}
use etfpulse.Positions.{weighted_entry}

-- The products and sums of an average have at most 28 significant digits, and the average is below
-- 10^20: nothing is lost before the quotient.
pub record IsExact (entry size fill_price fill_size : ℕ) : Type 0 where
  pub held : mul entry size * one ≡ entry * size
  pub filled : mul fill_price fill_size * one ≡ fill_price * fill_size
  pub cost :
      add (mul entry size) (mul fill_price fill_size) ≡ mul entry size + mul fill_price fill_size
  pub total : add size fill_size ≡ size + fill_size
  pub small : add (mul entry size) (mul fill_price fill_size) * one / add size fill_size < 10 ^ 66

-- The bounds are prices: whole numbers of quanta.
module _ (lo hi entry size fill_price fill_size : ℕ)
    (exact : IsExact entry size fill_price fill_size) (pos : 0 < fill_size) where
  cost_one :
      add (mul entry size) (mul fill_price fill_size) * one ≡ entry * size + fill_price * fill_size
  cost_one = rw exact.cost (omega (arith, exact.held, exact.filled))

  total_pos : 0 < add size fill_size
  total_pos = rw exact.total (omega arith)

  -- The average entry is not below a price in quanta that neither the entry nor the fill price is below,
  -- for a positive fill whose products and sums are exact and whose average is below 10^20.
  pub weighted_entry-lower :
      lo * price_quantum ≤ entry
      → lo * price_quantum ≤ fill_price
      → lo * price_quantum ≤ weighted_entry entry size fill_price fill_size
  unfolding weighted_entry
  weighted_entry-lower h k =
      quantize_half_up-lower lo _ (div-lower _ _ lo total_pos exact.small bound)
    where
      bound :
          lo * price_quantum * add size fill_size
          ≤ add (mul entry size) (mul fill_price fill_size) * one
      bound =
          rw (cost_one, exact.total)
            (omega (arith, mul-le-mul_right size h, mul-le-mul_right fill_size k))

  -- The average entry is not above a price in quanta that neither the entry nor the fill price is above,
  -- for a positive fill whose products and sums are exact and whose average is below 10^20.
  pub weighted_entry-upper :
      entry ≤ hi * price_quantum
      → fill_price ≤ hi * price_quantum
      → weighted_entry entry size fill_price fill_size ≤ hi * price_quantum
  unfolding weighted_entry
  weighted_entry-upper h k =
      quantize_half_up-upper hi _ (div-upper _ _ hi total_pos exact.small bound)
    where
      bound :
          add (mul entry size) (mul fill_price fill_size) * one
          ≤ hi * price_quantum * add size fill_size
      bound =
          rw (cost_one, exact.total)
            (omega (arith, mul-le-mul_right size h, mul-le-mul_right fill_size k))
