-- ===== src/Decimal.antt =====
-- Python's `decimal` with its default context, as the execution code uses it: 28 significant digits,
-- ROUND_HALF_EVEN. A decimal is a count of units of 10^-46, so that a size (Numeric(28, 18)), a price
-- (Numeric(18, 8)), their product and a 28-digit quotient of such have exact counterparts. A result
-- with digits below 10^-46 loses those.
pub mod Laws
use etfpulse.Base.{ℕ, zero, suc, ◌+◌, ◌-◌, ◌*◌, ◌/◌, ◌%◌, ◌^◌, Bool, ltb, leb, ◌==◌, if◌then◌else◌}
use etfpulse.Base.Int.{ℤ, pos, negsuc, pos_part, neg_part, sub_ℕ, ◌+ℤ◌}

-- A decimal that is not negative, in units of 10^-46.
abbrev pub Decimal : Type 0
Decimal = ℕ

-- `Decimal("1")`
abbrev pub one : Decimal
one = 10 ^ 46

-- `Decimal("0.00000001")`, the quantum of a price column.
abbrev pub price_quantum : Decimal
price_quantum = 10 ^ 38

-- n / d to the nearest integer, ties to the even one.
unfoldable pub half_even : ℕ → ℕ → ℕ
half_even n d =
    if ltb (2 * (n % d)) d
    then n / d
    else if ltb d (2 * (n % d))
    then n / d + 1
    else n / d + n / d % 2

-- How many digits a coefficient has beyond the 28 of the context. The fuel is enough for any value
-- below 10^(28 + fuel).
unfoldable pub excess_from : ℕ → ℕ → ℕ
excess_from zero n = 0
excess_from (suc fuel) n =
    let more = suc (excess_from fuel (n / 10)) in if ltb n (10 ^ 28) then 0 else more

unfoldable pub excess : ℕ → ℕ
excess n = excess_from 256 n

-- The context's rounding of an exact result.
unfoldable pub context : ℕ → ℕ
context n = half_even n (10 ^ excess n) * 10 ^ excess n

-- `a + b`, `a - b` (for `b` at most `a`), `a * b` and `a / b` (for `b` not 0).
unfoldable pub add : Decimal → Decimal → Decimal
add a b = context (a + b)

unfoldable pub sub : Decimal → Decimal → Decimal
sub a b = context (a - b)

unfoldable pub mul : Decimal → Decimal → Decimal
mul a b = context (a * b) / one

unfoldable pub div : Decimal → Decimal → Decimal
div a b = half_even (a * one) (b * 10 ^ excess (a * one / b)) * 10 ^ excess (a * one / b)

-- `x.quantize(Decimal("0.00000001"), rounding=ROUND_HALF_UP)`
unfoldable pub quantize_half_up : Decimal → Decimal
quantize_half_up x = (2 * x + price_quantum) / (2 * price_quantum) * price_quantum

-- `x.quantize(Decimal("0.00000001"))`, in the context's rounding.
unfoldable pub quantize : Decimal → Decimal
quantize x = half_even x price_quantum * price_quantum

-- Signed results: the context rounds the magnitude.
unfoldable pub context_signed : ℤ → ℤ
context_signed (pos n) = pos (context n)
context_signed (negsuc n) = sub_ℕ 0 (context (suc n))

-- `a - b` of any two, `x * b` and `x + y`, where `x` and `y` may be negative.
unfoldable pub sub_signed : Decimal → Decimal → ℤ
sub_signed a b = context_signed (sub_ℕ a b)

unfoldable pub mul_signed : ℤ → Decimal → ℤ
mul_signed (pos n) b = pos (mul n b)
mul_signed (negsuc n) b = sub_ℕ 0 (mul (suc n) b)

unfoldable pub add_signed : ℤ → ℤ → ℤ
add_signed x y = context_signed (x +ℤ y)

-- `abs(a - b)`
unfoldable pub abs_diff : Decimal → Decimal → Decimal
abs_diff a b = if leb b a then sub a b else sub b a
