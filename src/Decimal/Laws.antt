-- ===== src/Decimal/Laws.antt =====
-- What the rounding keeps: exact results, order against representable bounds, and the quantum.
use native.Mathlib.Nat.{
  div-le_of_le-mul, le-div_iff_mul-le, div-lt_iff_lt-mul, mul_comm, mul_assoc, pow-suc, mul-pos,
  mul-le-mul_right, add-zero, add-suc, mul-mod_left,
}
use native.Mathlib.Decide
use etfpulse.Base.{ap, sym, ◌∙◌, ℕ, zero, suc, ◌+◌, ◌-◌, ◌*◌, ◌/◌, ◌%◌, ◌^◌, ◌≤◌, ◌<◌, ◌≡◌, arith}
use etfpulse.Decimal.{
  half_even, quantize_half_up, div, price_quantum, one, context, excess, excess_from,
}

-- Rounding does not go below a whole number that the quotient reaches.
pub half_even_lower : (n d m : ℕ) → 0 < d → m * d ≤ n → m ≤ half_even n d
unfolding half_even
half_even_lower n d m p h = ground (arith, (le-div_iff_mul-le {k = d} {x = m} {y = n} p).1 h)

-- A quotient with a remainder is below any whole number that it does not exceed.
div-lt_of_remainder : (n d m : ℕ) → 0 < d → n ≤ m * d → 0 < n % d → n / d < m
div-lt_of_remainder n d m p h r = (div-lt_iff_lt-mul {k = d} {x = n} {y = m} p).1 strict
  where
    strict : n < m * d
    strict = elim (Decide.dec_lt n (m * d)) [
      | yes lt ↦ lt
      | no ge ↦
          let e : n ≡ m * d = omega arith in
          absurd (omega (arith, ap (λ t. t % d) e, mul-mod_left m d))
    ]

-- Nor above a whole number that the quotient does not exceed.
pub half_even_upper : (n d m : ℕ) → 0 < d → n ≤ m * d → half_even n d ≤ m
unfolding half_even
half_even_upper n d m p h = ground (arith, div-lt_of_remainder n d m p h, whole)
  where
    whole : n / d ≤ m
    whole = div-le_of_le-mul d (rw (mul_comm d m) h)

pow_pos : (k : ℕ) → 0 < 10 ^ k
pow_pos zero = omega arith
pow_pos (suc k) = rw (pow-suc 10 k) (omega (arith, pow_pos k))

pow_add : (j k : ℕ) → 10 ^ (j + k) ≡ 10 ^ j * 10 ^ k
pow_add j zero = rw add-zero (omega arith)
pow_add j (suc k) =
    rw (add-suc j k, pow-suc 10 (j + k), pow-suc 10 k, pow_add j k) (mul_assoc (10 ^ j) (10 ^ k) 10)

-- A value below 10^(28 + j) has at most j digits too many.
excess_from-le : (fuel j n : ℕ) → n < 10 ^ (28 + j) → excess_from fuel n ≤ j
unfolding excess_from
excess_from-le zero j n h = omega arith
excess_from-le (suc fuel) zero n h = ground arith
excess_from-le (suc fuel) (suc j) n h = ground (arith, excess_from-le fuel j (n / 10) smaller)
  where
    smaller : n / 10 < 10 ^ (28 + j)
    smaller = omega (arith, h, pow-suc 10 (28 + j), ap (λ t. 10 ^ t) (add-suc 28 j))

pub excess-le : (j n : ℕ) → n < 10 ^ (28 + j) → excess n ≤ j
unfolding excess
excess-le j n h = excess_from-le 256 j n h

half_even_exact : (m d : ℕ) → 0 < d → half_even (m * d) d ≡ m
half_even_exact m d p = omega (
  arith,
  half_even_lower (m * d) d m p (omega arith),
  half_even_upper (m * d) d m p (omega arith),
)

-- A result of at most 28 significant digits is exact.
pub context-exact : (m n : ℕ) → n ≡ m * 10 ^ excess n → context n ≡ n
unfolding context
context-exact m n e =
    ap (λ t. half_even t (10 ^ excess n) * 10 ^ excess n) e
    ∙ ap (λ t. t * 10 ^ excess n) (half_even_exact m (10 ^ excess n) (pow_pos (excess n)))
    ∙ sym e

pub context-exact_small : (n : ℕ) → n < 10 ^ 28 → context n ≡ n
context-exact_small n h = context-exact n n (rw none_dropped (omega arith))
  where
    none_dropped : excess n ≡ 0
    none_dropped = omega (arith, excess-le 0 n h)

-- A count of price quanta, written in the digits that a quotient below 10^20 keeps.
split_quanta : (i k : ℕ) → k ≤ 38 → i * 10 ^ (38 - k) * 10 ^ k ≡ i * price_quantum
split_quanta i k h =
    mul_assoc i (10 ^ (38 - k)) (10 ^ k)
    ∙ ap (λ t. i * t) (sym (pow_add (38 - k) k) ∙ ap (λ t. 10 ^ t) all)
  where
    all : 38 - k + k ≡ 38
    all = omega arith

-- The two halves for a divisor that was scaled by `10 ^ k`.
module _ (n b i k : ℕ) (p : 0 < b) (h : k ≤ 38) where
  scaled_pos : 0 < b * 10 ^ k
  scaled_pos = mul-pos p (pow_pos k)

  regroup : i * 10 ^ (38 - k) * (b * 10 ^ k) ≡ i * price_quantum * b
  regroup = omega (arith, ap (λ t. t * b) (split_quanta i k h))

  scaled-lower : i * price_quantum * b ≤ n → i * price_quantum ≤ half_even n (b * 10 ^ k) * 10 ^ k
  scaled-lower le =
      rw (← split_quanta i k h)
        (mul-le-mul_right (10 ^ k) (half_even_lower n (b * 10 ^ k) _ scaled_pos (rw regroup le)))

  scaled-upper : n ≤ i * price_quantum * b → half_even n (b * 10 ^ k) * 10 ^ k ≤ i * price_quantum
  scaled-upper le =
      rw (← split_quanta i k h)
        (mul-le-mul_right (10 ^ k) (half_even_upper n (b * 10 ^ k) _ scaled_pos (rw regroup le)))

-- A quotient below 10^20 keeps its place among the prices.
pub div-lower :
    (a b i : ℕ)
    → 0 < b
    → a * one / b < 10 ^ 66
    → i * price_quantum * b ≤ a * one
    → i * price_quantum ≤ div a b
unfolding div
div-lower a b i p small = scaled-lower (a * one) b i (excess (a * one / b)) p (excess-le 38 _ small)

pub div-upper :
    (a b i : ℕ)
    → 0 < b
    → a * one / b < 10 ^ 66
    → a * one ≤ i * price_quantum * b
    → div a b ≤ i * price_quantum
unfolding div
div-upper a b i p small = scaled-upper (a * one) b i (excess (a * one / b)) p (excess-le 38 _ small)

-- Rounding to the quantum does not cross a price.
pub quantize_half_up-lower :
    (i x : ℕ) → i * price_quantum ≤ x → i * price_quantum ≤ quantize_half_up x
unfolding quantize_half_up
quantize_half_up-lower i x h = omega arith

pub quantize_half_up-upper :
    (i x : ℕ) → x ≤ i * price_quantum → quantize_half_up x ≤ i * price_quantum
unfolding quantize_half_up
quantize_half_up-upper i x h = omega arith
