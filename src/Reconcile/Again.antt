-- ===== src/Reconcile/Again.antt =====
-- The same row of the venue, seen twice.
use etfpulse.Base.{
  ◌≡◌, refl, true, leb, Option, some, none, or_zero, Dict, dict_get, arith, inl, inr, Bool-cases,
  Option-cases, subst,
}
use etfpulse.Decimal.{Decimal}
use etfpulse.Models.{Order, ok, find_order}
use etfpulse.Reconcile.Json.{safe_decimal}
use etfpulse.Reconcile.Tasks.{Tick}
use etfpulse.Reconcile.Fold.{
  Reads, VenueOrder, with_fill, fold_fill, fold_priced, fold_row, process_row,
  process_one_order_fill, derive_fill_price,
}
use etfpulse.Reconcile.Folded.{fold_fill-order}

-- Nothing is left to do for an order that has been taken to a state.
abbrev Settled : Reads → VenueOrder → Option Decimal → Order → Tick → Type 0
Settled r row v o s =
    (o' : Order)
    → find_order o.id s.db ≡ some o'
    → (o'.client_order_id ≡ o.client_order_id) × (fold_row r o' row v s ≡ (ok tt, s))

module _ (r : Reads) (row : VenueOrder) (o : Order) (s : Tick)
    (found : find_order o.id s.db ≡ some o) where
  -- The order that is found where nothing was written is the order.
  unchanged : (v : Option Decimal) → fold_row r o row v s ≡ (ok tt, s) → Settled r row v o s
  unchanged v e o' h =
      let same : o ≡ o' = ground arith in
      subst (λ z. (z.client_order_id ≡ o.client_order_id) × (fold_row r z row v s ≡ (ok tt, s)))
        same (refl, e)

  folded : (v p : Decimal) → Settled r row (some v) o (fold_fill r o v p s).1
  unfolding fold_row with_fill
  folded v p o' h =
      let there = fold_fill-order r o v p s o found in
      let same : with_fill o v p ≡ o' = ground arith in
      let caught_up : leb v v ≡ true = ground arith in
      subst
        (λ z.
          (z.client_order_id ≡ o.client_order_id)
          × (fold_row r z row (some v) (fold_fill r o v p s).1 ≡ (ok tt, (fold_fill r o v p s).1)))
        same (refl, rw (caught_up, fold_row) refl)

  fold_row-Settled : (v : Option Decimal) → Settled r row v o (fold_row r o row v s).1
  unfolding fold_row fold_priced
  fold_row-Settled none = unchanged none refl
  fold_row-Settled (some v) = elim (Bool-cases (leb v (or_zero o.filled_size))) [
    | inl old ↦ rw (old, fold_row) (unchanged (some v) (rw (old, fold_row) refl))
    | inr new ↦ elim (Option-cases (price v)) [
      | inl e ↦
          rw (new, fold_row, e, fold_priced)
            (unchanged (some v) (rw (new, fold_row, e, fold_priced) refl))
      | inr (p, e) ↦ rw (new, fold_row, e, fold_priced) (folded v p)
    ]
  ]
    where
      price : Decimal → Option Decimal
      price v =
          derive_fill_price r row v (safe_decimal r.read_decimal row.filled_funds) o.requested_price

-- Once the sweep has looked at an order that the venue lists, a second look at the same list does
-- nothing and raises nothing, for the order as it is then stored: no fill is counted twice, even where
-- the first look raised.
pub process_one_order_fill-again :
    (r : Reads) (index : Dict VenueOrder) (row : VenueOrder) (o o' : Order) (s : Tick)
    → find_order o.id s.db ≡ some o
    → dict_get o.client_order_id index ≡ some row
    → let s' = (process_one_order_fill r index o s).1 in
      find_order o.id s'.db ≡ some o' → process_one_order_fill r index o' s' ≡ (ok tt, s')
unfolding process_one_order_fill process_row
process_one_order_fill-again r index row o o' s found listed = rw listed λ h.
    let (id, e) =
      fold_row-Settled r row o s found (safe_decimal r.read_decimal row.filled_quantity) o' h in
    simp (id, listed) e
