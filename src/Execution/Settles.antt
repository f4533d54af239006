-- ===== src/Execution/Settles.antt =====
-- The state of an order after `submit_new`, and what a second submission does.
use etfpulse.Base.{
  ℕ, ◌≡◌, refl, ◌∙◌, arith, Bool, true, false, some, List, [], ◌∷◌, find, ◌==◌, inl, inr,
  Bool-cases, if◌then◌else◌, ap,
}
use etfpulse.Models.{
  Order, OrderStatus, submitted, acked, filled, rejected, Db, Action, Result, ok, raised, pure,
  find_order, put_order, save_order, ◌>>=◌, ◌>>◌,
}
use etfpulse.Models.Checks.{order_checks}
use etfpulse.Execution.Clients.{SubmitResult}
use etfpulse.Execution.Orders.{flush_order}
use etfpulse.Execution.Frames.{Quiet, split}

-- The states that a submission of a pending order ends in.
abbrev pub is_outcome : OrderStatus → Bool
is_outcome submitted = true
is_outcome acked = true
is_outcome filled = true
is_outcome rejected = true
is_outcome _ = false

-- A returned result tells the status of the stored order, which passes the test.
abbrev pub Settled : (OrderStatus → Bool) → ℕ → Result SubmitResult × Db → Type 0
Settled p id (ok r, db) =
    (o : Order) × ((find_order id db ≡ some o) × ((p o.status ≡ true) × (r.status ≡ o.status)))
Settled p id (raised e, db) = Unit

abbrev pub Present : ℕ → Db → Type 0
Present id db = (o : Order) × (find_order id db ≡ some o)

abbrev pub Settles : (OrderStatus → Bool) → ℕ → Action SubmitResult → Type 0
Settles p id m = (db : Db) → Present id db → Settled p id (m db)

abbrev pub KeepsPresent {ℓ} : {A : Type ℓ} → ℕ → Action A → Type 0
KeepsPresent id m = (db : Db) → Present id db → Present id (m db).1

pub find_put :
    (o : Order) (id : ℕ) (os : List Order) (old : Order)
    → o.id ≡ id
    → find (λ x. x.id == id) os ≡ some old
    → find (λ x. x.id == id) (put_order o os) ≡ some o
find_put o id [] old e h = ground (arith, h)
find_put o id (x ∷ xs) old e h = ground (arith, e, h, find_put o id xs old e)

module _ {ℓ} {A : Type ℓ} (p : OrderStatus → Bool) (id : ℕ) where
  pub Settles->>= :
      (m : Action A) (f : A → Action SubmitResult)
      → KeepsPresent id m
      → ((a : A) → Settles p id (f a))
      → Settles p id (m >>= f)
  Settles->>= m f q k db h = split f (Settled p id) (m db) (λ e. tt) (λ a. k a (m db).1 (q db h))

  pub Quiet-KeepsPresent : (m : Action A) → Quiet m → KeepsPresent id m
  Quiet-KeepsPresent m q db (o, e) = (o, ap (λ os. find (λ x. x.id == id) os) (q db).0 ∙ e)

pub flush_order-KeepsPresent : (o : Order) → KeepsPresent o.id (flush_order o)
unfolding flush_order save_order
flush_order-KeepsPresent o db (old, e) = elim (Bool-cases (order_checks o)) [
  | inl c ↦ rw (c, flush_order) (o, find_put o o.id db.orders old refl e)
  | inr c ↦ rw (c, flush_order) (old, e)
]

pub flush_pure-Settles :
    (p : OrderStatus → Bool) (o : Order) (r : SubmitResult)
    → p o.status ≡ true
    → r.status ≡ o.status
    → Settles p o.id (flush_order o >> pure r)
unfolding flush_order save_order
flush_pure-Settles p o r h k db (old, e) = elim (Bool-cases (order_checks o)) [
  | inl c ↦ rw (c, flush_order) (o, (find_put o o.id db.orders old refl e, (h, k)))
  | inr c ↦ rw (c, flush_order) tt
]

pub Settles-if :
    (p : OrderStatus → Bool) (id : ℕ) (c : Bool) (m n : Action SubmitResult)
    → Settles p id m
    → Settles p id n
    → Settles p id (if c then m else n)
Settles-if p id true m n h k = h
Settles-if p id false m n h k = k
