-- ===== src/Nonce.antt =====
-- backend/etfpulse/pipeline/execution/nonce.py.
use etfpulse.Base.{
  ℕ, ◌+◌, ◌≤◌, ◌<◌, ◌≡◌, max, Option, none, some, or_zero, List, [], ◌∷◌, All, arith, ap, refl, map,
  if◌then◌else◌,
}
use etfpulse.Models.{Order, Db}
use etfpulse.Positions.{option_eq}

-- SQL `MAX` over a nullable column: NULLs do not count.
abbrev pub max_option : Option ℕ → Option ℕ → Option ℕ
max_option none b = b
max_option (some a) none = some a
max_option (some a) (some b) = some (max a b)

-- `SELECT max(nonce) FROM orders WHERE user_id = ...`
unfoldable pub last_nonce : ℕ → List Order → Option ℕ
last_nonce user [] = none
last_nonce user (o ∷ os) =
    let rest = last_nonce user os in
    if option_eq o.user_id (some user) then max_option o.nonce rest else rest

unfoldable pub next_nonce_for_user : ℕ → ℕ → Db → ℕ
next_nonce_for_user now_ms user db = max now_ms (or_zero (last_nonce user db.orders) + 1)

-- Every order of the user with a nonce has a smaller one.
abbrev pub Below : ℕ → ℕ → Order → Type 0
Below user n o = (m : ℕ) → o.user_id ≡ some user → o.nonce ≡ some m → m < n

Below-All :
    (user n : ℕ) (os : List Order) → or_zero (last_nonce user os) < n → All (Below user n) os
unfolding last_nonce
Below-All user n [] h = tt
Below-All user n (o ∷ os) h = (λ m u e. ground arith, Below-All user n os (ground arith))

-- The orders with other nonces for their cancels.
abbrev pub with_cancels : (Order → Option ℕ) → List Order → List Order
with_cancels cancels os = map {A = Order} (λ o. record o { cancel_nonce = cancels o }) os

last_nonce-cancels :
    (user : ℕ) (cancels : Order → Option ℕ) (os : List Order)
    → last_nonce user (with_cancels cancels os) ≡ last_nonce user os
unfolding last_nonce
last_nonce-cancels user cancels [] = refl
last_nonce-cancels user cancels (o ∷ os) =
    ap (λ r. if option_eq o.user_id (some user) then max_option o.nonce r else r)
      (last_nonce-cancels user cancels os)

-- The next nonce of a user is not before the clock, and above the `nonce` of every order of the user.
-- The nonces of cancels do not count: the answer is the same whatever `cancel_nonce` the orders have,
-- so that it may be one of those.
pub next_nonce-fresh :
    (now_ms user : ℕ) (db : Db) (cancels : Order → Option ℕ)
    → let cancelled = record db { orders = with_cancels cancels db.orders } in
      (now_ms ≤ next_nonce_for_user now_ms user db)
      × (All (Below user (next_nonce_for_user now_ms user db)) db.orders
          × (next_nonce_for_user now_ms user cancelled ≡ next_nonce_for_user now_ms user db))
unfolding next_nonce_for_user
next_nonce-fresh now_ms user db cancels = (
  omega arith,
  (
    Below-All user _ db.orders (omega arith),
    ap (λ l. max now_ms (or_zero l + 1)) (last_nonce-cancels user cancels db.orders),
  ),
)
