-- ===== src/Reaper/Laws.antt =====
-- The sweeps of the reapers in sequence, and what the reaper of orders leaves alone.
use etfpulse.Base.{
  ℕ, ◌+◌, ◌≤◌, ◌≡◌, refl, ap, ◌∙◌, Bool, true, false, some, List, [], ◌∷◌, arith, count_if, find,
  ◌==◌, subst, inl, inr, ◌⊎◌, ◌<◌, Option-cases, lt→ltb, Bool-cases, if◌then◌else◌,
}
use etfpulse.Delivery.Rows.{Signal, SignalDelivery}
use etfpulse.Models.{
  Order, Db, find_order, OrderStatus, pending, submitted, acked, partially_filled, filled,
  cancelled, rejected, expired,
}
use etfpulse.Reaper.{
  bulk_update, is_unsent, is_overdue, expire, expire_overdue_orders, is_overdue_signal,
  expire_signal, expire_overdue_signals, is_stuck, fail_stuck, fail_stuck_deliveries,
}

-- An update after one whose rows it would have taken too, and which takes none of those again.
module _ {A : Type 0} (p q : A → Bool) (f : A → A) (wider : (x : A) → p x ≡ true → q x ≡ true)
    (done : (x : A) → q (f x) ≡ false) where
  bulk_update-twice : (xs : List A) → bulk_update q f (bulk_update p f xs) ≡ bulk_update q f xs
  bulk_update-twice [] = refl
  bulk_update-twice (x ∷ xs) = elim (Bool-cases (p x)) [
    | inl e ↦ rw (e, done x, wider x e) (ap (λ l. f x ∷ l) (bulk_update-twice xs))
    | inr e ↦ rw e (ap (λ l. (if q x then f x else x) ∷ l) (bulk_update-twice xs))
  ]

  count-twice : (xs : List A) → count_if p xs + count_if q (bulk_update p f xs) ≡ count_if q xs
  count-twice [] = omega arith
  count-twice (x ∷ xs) = ground (arith, wider x, done x, count-twice xs)

is_overdue-later :
    (now later : ℕ)
    → now ≤ later
    → (o : Order) → is_overdue now o ≡ true
    → is_overdue later o ≡ true
unfolding is_overdue
is_overdue-later now later h o e = ground arith

expired-done : (now : ℕ) (o : Order) → is_overdue now (expire o) ≡ false
unfolding is_overdue is_unsent
expired-done now o = refl

-- Two sweeps of the order reaper, the second one not earlier, are the second sweep alone: the orders
-- are the same, and the two row counts add up to its count. At the same time the second sweep
-- finds nothing.
pub expire_overdue_orders-twice :
    (now later : ℕ) (db : Db)
    → now ≤ later
    → let (first, db') = expire_overdue_orders now db in
      let (second, db'') = expire_overdue_orders later db' in
      let (alone, end) = expire_overdue_orders later db in (db'' ≡ end) × (first + second ≡ alone)
unfolding expire_overdue_orders
expire_overdue_orders-twice now later db h = (
  ap (λ os. record db { orders = os })
      (bulk_update-twice (is_overdue now) (is_overdue later) expire (is_overdue-later now later h)
        (expired-done later) db.orders),
  count-twice (is_overdue now) (is_overdue later) expire (is_overdue-later now later h)
      (expired-done later) db.orders,
)

is_overdue_signal-later :
    (now later : ℕ)
    → now ≤ later
    → (s : Signal) → is_overdue_signal now s ≡ true
    → is_overdue_signal later s ≡ true
unfolding is_overdue_signal
is_overdue_signal-later now later h s e = ground arith

expired_signal-done : (now : ℕ) (s : Signal) → is_overdue_signal now (expire_signal s) ≡ false
unfolding is_overdue_signal
expired_signal-done now s = refl

is_stuck-later :
    (now later age : ℕ)
    → now ≤ later
    → (d : SignalDelivery) → is_stuck now age d ≡ true
    → is_stuck later age d ≡ true
unfolding is_stuck
is_stuck-later now later age h d e = ground arith

failed-done : (now age : ℕ) (d : SignalDelivery) → is_stuck now age (fail_stuck d) ≡ false
unfolding is_stuck
failed-done now age d = refl

-- Two sweeps of the signal reaper, the second one not earlier, are the second sweep alone, in rows
-- and in row counts.
pub expire_overdue_signals-twice :
    (now later : ℕ) (signals : List Signal)
    → now ≤ later
    → let (first, signals') = expire_overdue_signals now signals in
      let (second, signals'') = expire_overdue_signals later signals' in
      (signals'' ≡ (expire_overdue_signals later signals).1)
      × (first + second ≡ (expire_overdue_signals later signals).0)
unfolding expire_overdue_signals
expire_overdue_signals-twice now later signals h = (
  bulk_update-twice (is_overdue_signal now) (is_overdue_signal later) expire_signal
      (is_overdue_signal-later now later h) (expired_signal-done later) signals,
  count-twice (is_overdue_signal now) (is_overdue_signal later) expire_signal
      (is_overdue_signal-later now later h) (expired_signal-done later) signals,
)

-- Two sweeps over stuck deliveries with one maximal age are the later one alone, in rows and counts.
pub fail_stuck_deliveries-twice :
    (now later age : ℕ) (ds : List SignalDelivery)
    → now ≤ later
    → let (first, ds') = fail_stuck_deliveries now age ds in
      let (second, ds'') = fail_stuck_deliveries later age ds' in
      (ds'' ≡ (fail_stuck_deliveries later age ds).1)
      × (first + second ≡ (fail_stuck_deliveries later age ds).0)
unfolding fail_stuck_deliveries
fail_stuck_deliveries-twice now later age ds h = (
  bulk_update-twice (is_stuck now age) (is_stuck later age) fail_stuck
      (is_stuck-later now later age h) (failed-done later age) ds,
  count-twice (is_stuck now age) (is_stuck later age) fail_stuck (is_stuck-later now later age h)
      (failed-done later age) ds,
)

-- Never accepted by the venue, and with a nonce that is past.
pub record Overdue (now : ℕ) (o : Order) : Type 0 where
  pub unaccepted : (o.status ≡ pending) ⊎ (o.status ≡ submitted)
  pub deadline : ℕ
  pub has_deadline : o.nonce_expires_at ≡ some deadline
  pub past : deadline < now

is_unsent-cases : (s : OrderStatus) → is_unsent s ≡ true → (s ≡ pending) ⊎ (s ≡ submitted)
unfolding is_unsent
is_unsent-cases pending h = inl refl
is_unsent-cases submitted h = inr refl
is_unsent-cases acked h = ground arith
is_unsent-cases partially_filled h = ground arith
is_unsent-cases filled h = ground arith
is_unsent-cases cancelled h = ground arith
is_unsent-cases rejected h = ground arith
is_unsent-cases expired h = ground arith

is_overdue-Overdue : (now : ℕ) (o : Order) → is_overdue now o ≡ true → Overdue now o
unfolding is_overdue
is_overdue-Overdue now o h = elim (Option-cases o.nonce_expires_at) [
  | inl e ↦ absurd (ground (arith, h, e))
  | inr (t, e) ↦ record {
    unaccepted = is_unsent-cases o.status (ground arith);
    deadline = t;
    has_deadline = e;
    past = ground (arith, h, e);
  }
]

Overdue-is_overdue : (now : ℕ) (o : Order) → Overdue now o → is_overdue now o ≡ true
unfolding is_overdue is_unsent
Overdue-is_overdue now o v = elim (v.unaccepted) [
  | inl s ↦ rw (s, v.has_deadline) (lt→ltb _ _ v.past)
  | inr s ↦ rw (s, v.has_deadline) (lt→ltb _ _ v.past)
]

find_swept :
    (now id : ℕ) (os : List Order) (o : Order)
    → find (λ x. x.id == id) os ≡ some o
    → find (λ x. x.id == id) (bulk_update (is_overdue now) expire os)
      ≡ some (if is_overdue now o then expire o else o)
find_swept now id [] o h = ground arith
find_swept now id (x ∷ xs) o h = elim (Bool-cases (x.id == id)) [
  | inl e ↦
      let here : x ≡ o = ground arith in
      elim (Bool-cases (is_overdue now x)) [
        | inl d ↦
            let later : is_overdue now o ≡ true = subst (λ y. is_overdue now y ≡ true) here d in
            rw (d, e, later) (ap (λ y. some (expire y)) here)
        | inr d ↦
            let later : is_overdue now o ≡ false = subst (λ y. is_overdue now y ≡ false) here d in
            rw (d, e, later) (ap some here)
      ]
  | inr e ↦
      let found : find (λ x. x.id == id) xs ≡ some o = ground arith in
      elim (Bool-cases (is_overdue now x)) [
        | inl d ↦ rw (d, e) (find_swept now id xs o found)
        | inr d ↦ rw (d, e) (find_swept now id xs o found)
      ]
]

-- After a run of the reaper, a stored order is expired if it was pending or submitted with a nonce
-- that is past, and is all as it was if not: so an order that the venue has accepted, or a terminal
-- one, stays however old its nonce is.
pub expire_overdue_orders-row :
    (now id : ℕ) (db : Db) (o : Order)
    → find_order id db ≡ some o
    → let after = find_order id (expire_overdue_orders now db).1 in
      (Overdue now o × (after ≡ some (record o { status = expired })))
      ⊎ ((¬ (Overdue now o)) × (after ≡ some o))
unfolding expire_overdue_orders
expire_overdue_orders-row now id db o found =
    let h = find_swept now id db.orders o found in
    elim (Bool-cases (is_overdue now o)) [
      | inl e ↦ inl (is_overdue-Overdue now o e, h ∙ rw e refl)
      | inr e ↦ inr ((λ v. ground (arith, e, Overdue-is_overdue now o v)), h ∙ rw e refl)
    ]
