-- ===== src/Life/Reapers.antt =====
-- `expire_overdue_orders` along the life of orders.
use etfpulse.Base.{
  ℕ, ◌<◌, ◌≡◌, refl, ap, ◌∙◌, List, [], ◌∷◌, All, any, ◌==◌, arith, inl, inr, Bool-cases,
  if◌then◌else◌, map,
}
use etfpulse.Models.{Order, Db}
use etfpulse.Reaper.{is_overdue, is_unsent, expire, expire_overdue_orders}
use etfpulse.Life.{rank, Advanced}
use etfpulse.Life.Rows.{Advanced-refl, Grows, DistinctOrders}
use etfpulse.Life.Upholds.{Kept}

-- What the reaper makes of a row.
abbrev reaped : ℕ → Order → Order
reaped now o = if is_overdue now o then expire o else o

reaped-Advanced : (now : ℕ) (o : Order) → Advanced o (reaped now o)
unfolding rank is_overdue is_unsent
reaped-Advanced now o = elim (Bool-cases (is_overdue now o)) [
  | inl e ↦ rw e (record { same_id = refl; forward = ground arith; settled = λ t. ground arith })
  | inr e ↦ rw e (Advanced-refl o)
]

reaped-id : (now : ℕ) (o : Order) → (reaped now o).id ≡ o.id
reaped-id now o = ground arith

all-Grows : (now : ℕ) (os : List Order) → Grows os (map (reaped now) os)
all-Grows now [] = tt
all-Grows now (o ∷ os) = (reaped-Advanced now o, all-Grows now os)

any-reaped :
    (now i : ℕ) (os : List Order)
    → any (λ x. x.id == i) (map (reaped now) os) ≡ any (λ x. x.id == i) os
any-reaped now i [] = refl
any-reaped now i (o ∷ os) = rw (reaped-id now o, any-reaped now i os) refl

distinct-reaped :
    (now : ℕ) (os : List Order) → DistinctOrders os → DistinctOrders (map (reaped now) os)
distinct-reaped now [] d = tt
distinct-reaped now (o ∷ os) d = (
  any-reaped now (reaped now o).id os ∙ ap (λ i. any (λ x. x.id == i) os) (reaped-id now o) ∙ d.0,
  distinct-reaped now os d.1,
)

below-reaped :
    (now n : ℕ) (os : List Order)
    → All (λ o. o.id < n) os
    → All (λ o. o.id < n) (map (reaped now) os)
below-reaped now n [] b = tt
below-reaped now n (o ∷ os) b = (omega (arith, reaped-id now o, b.0), below-reaped now n os b.1)

pub expire_overdue_orders-Kept :
    (now : ℕ) (db : Db) → Kept db.orders db → Kept db.orders (expire_overdue_orders now db).1
unfolding expire_overdue_orders
expire_overdue_orders-Kept now db k = (
  (distinct-reaped now db.orders k.0.0, below-reaped now db.next_order_id db.orders k.0.1),
  (k.1.0, all-Grows now db.orders),
)
