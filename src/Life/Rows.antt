-- ===== src/Life/Rows.antt =====
-- The orders table along a step: ids stay distinct, every row advances, and new rows come behind.
use etfpulse.Base.{
  subst, ◌⊎◌, ℕ, suc, ◌<◌, ◌≡◌, ◌≢◌, refl, sym, ap, ◌∙◌, true, false, ◌==◌, some, List, [], ◌∷◌,
  ◌++◌, All, any, find, arith, find_sound, inl, inr, Bool-cases, if◌then◌else◌, ==_iff,
}
use etfpulse.Models.{Order, Db, put_order, is_terminal}
use etfpulse.Life.{Advanced}

abbrev pub DistinctOrders : List Order → Type 0
DistinctOrders [] = Unit
DistinctOrders (o ∷ os) = (any (λ x. x.id == o.id) os ≡ false) × DistinctOrders os

-- Ids are distinct and below the sequence.
abbrev pub OrdersApart : Db → Type 0
OrdersApart db = DistinctOrders db.orders × All (λ o. o.id < db.next_order_id) db.orders

-- Each row of the first table has advanced to the row in its place in the second.
abbrev pub Grows : List Order → List Order → Type 0
Grows [] ys = Unit
Grows (x ∷ xs) [] = ⊥
Grows (x ∷ xs) (y ∷ ys) = Advanced x y × Grows xs ys

-- No row but the order itself has its id.
abbrev pub OnlyRow : Order → List Order → Type 0
OnlyRow o xs = All (λ x. x.id ≡ o.id → x ≡ o) xs

pub Advanced-refl : (x : Order) → Advanced x x
Advanced-refl x = record { same_id = refl; forward = omega arith; settled = λ _. refl }

pub Grows-refl : (xs : List Order) → Grows xs xs
Grows-refl [] = tt
Grows-refl (x ∷ xs) = (Advanced-refl x, Grows-refl xs)

Advanced-trans : (x y z : Order) → Advanced x y → Advanced y z → Advanced x z
Advanced-trans x y z f g = record {
  same_id = g.same_id ∙ f.same_id;
  forward = omega (arith, f.forward, g.forward);
  settled = λ t. g.settled (ap (λ o. is_terminal o.status) (f.settled t) ∙ t) ∙ f.settled t;
}

pub Grows-trans : (xs ys zs : List Order) → Grows xs ys → Grows ys zs → Grows xs zs
Grows-trans [] ys zs f g = tt
Grows-trans (x ∷ xs) (y ∷ ys) (z ∷ zs) f g =
    (Advanced-trans x y z f.0 g.0, Grows-trans xs ys zs f.1 g.1)
Grows-trans (x ∷ xs) [] zs f g = absurd f
Grows-trans (x ∷ xs) (y ∷ ys) [] f g = absurd g

pub Grows-append : (xs ys zs : List Order) → Grows xs ys → Grows xs (ys ++ zs)
Grows-append [] ys zs g = tt
Grows-append (x ∷ xs) [] zs g = absurd g
Grows-append (x ∷ xs) (y ∷ ys) zs g = (g.0, Grows-append xs ys zs g.1)

-- Writing back what has become of an order.
pub Grows-put :
    (o o' : Order) (xs ys : List Order)
    → OnlyRow o xs
    → Advanced o o'
    → Grows xs ys
    → Grows xs (put_order o' ys)
Grows-put o o' [] ys only a g = tt
Grows-put o o' (x ∷ xs) [] only a g = absurd g
Grows-put o o' (x ∷ xs) (y ∷ ys) only a g =
    (head (Bool-cases (y.id == o'.id)), Grows-put o o' xs ys only.1 a g.1)
  where
    head :
        ((y.id == o'.id) ≡ true) ⊎ ((y.id == o'.id) ≡ false)
        → Advanced x (if y.id == o'.id then o' else y)
    head (inl e) = rw e (
        subst (λ z. Advanced z o')
          (sym (only.0 (sym g.0.same_id ∙ (==_iff y.id o'.id).0 e ∙ a.same_id))) a)
    head (inr e) = rw e g.0

any-put :
    (i : ℕ) (o : Order) (xs : List Order)
    → any (λ x. x.id == i) (put_order o xs) ≡ any (λ x. x.id == i) xs
any-put i o [] = refl
any-put i o (x ∷ xs) = ground (arith, any-put i o xs)

distinct-put : (o : Order) (xs : List Order) → DistinctOrders xs → DistinctOrders (put_order o xs)
distinct-put o [] d = tt
distinct-put o (x ∷ xs) d =
    ground (arith, any-put x.id o xs, any-put o.id o xs, distinct-put o xs d.1)

below-put :
    (n : ℕ) (o : Order) (xs : List Order)
    → All (λ x. x.id < n) xs
    → All (λ x. x.id < n) (put_order o xs)
below-put n o [] h = tt
below-put n o (x ∷ xs) h = ground (arith, below-put n o xs h.1)

pub OrdersApart-put :
    (o : Order) (db : Db)
    → OrdersApart db
    → OrdersApart (record db { orders = put_order o db.orders })
OrdersApart-put o db a = (distinct-put o db.orders a.0, below-put db.next_order_id o db.orders a.1)

fresh : (n : ℕ) (xs : List Order) → All (λ x. x.id < n) xs → any (λ x. x.id == n) xs ≡ false
fresh n [] h = refl
fresh n (x ∷ xs) h = ground (arith, fresh n xs h.1)

any-append_one :
    (i : ℕ) (o : Order) (xs : List Order)
    → any (λ x. x.id == i) xs ≡ false
    → o.id ≢ i
    → any (λ x. x.id == i) (xs ++ o ∷ []) ≡ false
any-append_one i o [] h ne = ground arith
any-append_one i o (x ∷ xs) h ne = ground (arith, any-append_one i o xs)

distinct-append :
    (n : ℕ) (o : Order) (xs : List Order)
    → o.id ≡ n
    → All (λ x. x.id < n) xs
    → DistinctOrders xs
    → DistinctOrders (xs ++ o ∷ [])
distinct-append n o [] e b d = ground arith
distinct-append n o (x ∷ xs) e b d =
    (any-append_one x.id o xs d.0 (omega arith), distinct-append n o xs e b.1 d.1)

below-append :
    (n : ℕ) (o : Order) (xs : List Order)
    → o.id ≡ n
    → All (λ x. x.id < n) xs
    → All (λ x. x.id < suc n) (xs ++ o ∷ [])
below-append n o [] e b = ground arith
below-append n o (x ∷ xs) e b = (omega arith, below-append n o xs e b.1)

pub below_later : (n : ℕ) (xs : List Order) → All (λ x. x.id < n) xs → All (λ x. x.id < suc n) xs
below_later n [] h = tt
below_later n (x ∷ xs) h = (omega arith, below_later n xs h.1)

pub OrdersApart-insert :
    (o : Order) (db : Db)
    → o.id ≡ db.next_order_id
    → OrdersApart db
    → OrdersApart (record db { next_order_id = suc db.next_order_id; orders = db.orders ++ o ∷ [] })
OrdersApart-insert o db e a = (
  distinct-append db.next_order_id o db.orders e a.1 a.0,
  below-append db.next_order_id o db.orders e a.1,
)

-- The row that a primary key finds is the only one of its id.
absent-only : (o : Order) (xs : List Order) → any (λ x. x.id == o.id) xs ≡ false → OnlyRow o xs
absent-only o [] h = tt
absent-only o (x ∷ xs) h = ((λ e. absurd (ground arith)), absent-only o xs (ground arith))

find→any :
    (id : ℕ) (xs : List Order) (o : Order)
    → find (λ x. x.id == id) xs ≡ some o
    → any (λ x. x.id == id) xs ≡ true
find→any id [] o h = ground arith
find→any id (x ∷ xs) o h = elim (Bool-cases (x.id == id)) [
  | inl e ↦ ground arith
  | inr e ↦
      let rest : any (λ x. x.id == id) xs ≡ true = find→any id xs o (ground arith) in ground arith
]

pub found-OnlyRow :
    (id : ℕ) (xs : List Order) (o : Order)
    → DistinctOrders xs
    → find (λ x. x.id == id) xs ≡ some o
    → OnlyRow o xs
found-OnlyRow id [] o d h = tt
found-OnlyRow id (x ∷ xs) o d h = elim (Bool-cases (x.id == id)) [
  | inl e ↦
      let here : x ≡ o = ground arith in
      ((λ _. here), subst (λ z. OnlyRow z xs) here (absent-only x xs d.0))
  | inr e ↦
      let found : find (λ x. x.id == id) xs ≡ some o = ground arith in
      (
        (λ same. absurd (ground (arith, find_sound (λ z. z.id == id) xs o found))),
        found-OnlyRow id xs o d.1 found,
      )
]

extend :
    (x : Order) (xs ys : List Order)
    → any (λ z. z.id == x.id) ys ≡ false
    → All (λ o. OnlyRow o xs) ys
    → All (λ o. OnlyRow o (x ∷ xs)) ys
extend x xs [] h a = tt
extend x xs (y ∷ ys) h a = (((λ e. absurd (ground arith)), a.0), extend x xs ys (ground arith) a.1)

-- In a table of distinct ids, every row is the only one of its id.
pub All-OnlyRow : (xs : List Order) → DistinctOrders xs → All (λ o. OnlyRow o xs) xs
All-OnlyRow [] d = tt
All-OnlyRow (x ∷ xs) d =
    (((λ _. refl), absent-only x xs d.0), extend x xs xs d.0 (All-OnlyRow xs d.1))
