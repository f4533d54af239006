-- ===== src/Reconcile/Folded.antt =====
-- The state after a fill was folded into its order.
use etfpulse.Base.{
  ℕ, ◌-◌, ◌<◌, ◌≡◌, refl, ap, ◌∙◌, false, leb, Option, some, or_zero, ◌==◌, find, Dict, dict_get,
  arith, if◌then◌else◌,
}
use etfpulse.Decimal.{Decimal, add, mul, sub}
use etfpulse.Models.{
  Position, Venue, sodex_spot, sodex_perps, unknown_venue, Order, PositionSide, Db, Action,
  find_order, put_order, save_order, filled, partially_filled,
}
use etfpulse.Positions.{order_key}
use etfpulse.Positions.Apart.{PositionsApart}
use etfpulse.Positions.Book.{holding, book_fill, FitsContext}
use etfpulse.Positions.Perps.{perps_apply_fill, fill_side}
use etfpulse.Positions.PerpsBook.{perps_apply_fill-holding}
use etfpulse.Execution.Frames.{Quiet, spot_apply_fill-Quiet, perps_apply_fill-Quiet}
use etfpulse.Execution.Settles.{find_put}
use etfpulse.Reconcile.Tasks.{Tick, done, on_db, count, ◌>>◌}
use etfpulse.Reconcile.Keeps.{split}
use etfpulse.Reconcile.Fold.{
  Reads, VenueOrder, with_fill, count_fill, apply_delta, fold_fill, fold_row, fold_priced,
  process_row, process_one_order_fill, derive_fill_price,
}
use etfpulse.Reconcile.Json.{safe_decimal}

apply_delta-Quiet :
    (now : ℕ) (o : Order) (venue : Venue) (price size : Decimal)
    → Quiet (apply_delta now o venue price size)
unfolding apply_delta
apply_delta-Quiet now o sodex_spot price size = spot_apply_fill-Quiet now o price size
apply_delta-Quiet now o sodex_perps price size = perps_apply_fill-Quiet now o price size
apply_delta-Quiet now o unknown_venue price size = λ db. (refl, refl)

module _ (r : Reads) (o : Order) (v price : Decimal) (s : Tick) where
  -- The session in which the position is updated.
  abbrev pub saved : Db
  saved = record (s.db) { orders = put_order (with_fill o v price) s.db.orders }

  pub fold_fill-db :
      (fold_fill r o v price s).1.db
      ≡ (apply_delta r.now
          (with_fill o v price)
          o.venue
          price
          (sub v (or_zero o.filled_size))
          saved).1
  unfolding fold_fill save_order
  fold_fill-db =
      split (λ _. done tt) (λ t. t.1.db ≡ (delta saved).1)
        ((on_db (save_order (with_fill o v price))
            >> count (count_fill (leb o.requested_size v))
            >> on_db delta)
          s)
        (λ e. refl) (λ x. refl)
    where
      delta : Action (Option Position)
      delta = apply_delta r.now (with_fill o v price) o.venue price (sub v (or_zero o.filled_size))

  -- The order's row is the one with the fill, whether or not the position followed.
  pub fold_fill-order :
      (old : Order)
      → find_order o.id s.db ≡ some old
      → find_order o.id (fold_fill r o v price s).1.db ≡ some (with_fill o v price)
  unfolding with_fill
  fold_fill-order old e =
      ap (find_order o.id) fold_fill-db
      ∙ ap (λ os. find (λ x. x.id == o.id) os)
          (apply_delta-Quiet r.now (with_fill o v price) o.venue price
            (sub v (or_zero o.filled_size)) saved).0
      ∙ find_put (with_fill o v price) o.id s.db.orders old refl e

-- The row that the sweep has for an order, with more filled than is known and a price for it.
pub record NewFill (r : Reads) (index : Dict VenueOrder) (o : Order) (v price : Decimal)
    : Type 0 where
  pub row : VenueOrder
  pub listed : dict_get o.client_order_id index ≡ some row
  pub quantity : safe_decimal r.read_decimal row.filled_quantity ≡ some v
  pub more : leb v (or_zero o.filled_size) ≡ false
  pub priced :
      derive_fill_price r row v (safe_decimal r.read_decimal row.filled_funds) o.requested_price
      ≡ some price

process-fold_fill :
    (r : Reads) (index : Dict VenueOrder) (o : Order) (v price : Decimal) (s : Tick)
    → NewFill r index o v price
    → process_one_order_fill r index o s ≡ fold_fill r o v price s
unfolding process_one_order_fill process_row fold_row fold_priced
process-fold_fill r index o v price s n =
    rw n.listed (rw n.quantity (rw (n.more, fold_row) (rw (n.priced, fold_priced) refl)))

leb-false : (a b : ℕ) → leb a b ≡ false → b < a
leb-false a b h = ground arith

-- A new fill of a perps order moves the holding of the order's key by what the venue has filled beyond
-- what was known, as the book says. The stored order then has the venue's quantity, the price, a
-- filled value that has grown by the new quantity at the price, and the status for its quantity, and
-- all else as before. The order is stored, the positions are apart, and the quantities fit the
-- context's 28 digits.
pub process_one_order_fill-holding :
    (r : Reads) (index : Dict VenueOrder) (o : Order) (v price : Decimal) (s : Tick)
    (side : PositionSide)
    → NewFill r index o v price
    → find_order o.id s.db ≡ some o
    → o.venue ≡ sodex_perps
    → fill_side o.side ≡ some side
    → 0 < price
    → PositionsApart s.db
    → sub v (or_zero o.filled_size) ≡ v - or_zero o.filled_size
    → FitsContext (holding (order_key o) s.db) (v - or_zero o.filled_size)
    → let db' = (process_one_order_fill r index o s).1.db in
      (find_order o.id db'
        ≡ some (record o {
          filled_size = some v;
          filled_price = some price;
          filled_value =
              some (add (or_zero o.filled_value) (mul (v - or_zero o.filled_size) price));
          status = if leb o.requested_size v then filled else partially_filled;
        }))
      × (holding (order_key o) db'
          ≡ book_fill o.reduce_only side (v - or_zero o.filled_size) (holding (order_key o) s.db))
unfolding with_fill apply_delta
process_one_order_fill-holding r index o v price s side n found perps sided pos a exact fits =
    let o' = with_fill o v price in
    let known = or_zero o.filled_size in
    let size : 0 < v - known = omega (arith, leb-false v known n.more) in
    let whole = ap (λ t. t.1.db) (process-fold_fill r index o v price s n) in
    (
      ap (find_order o.id) whole
          ∙ fold_fill-order r o v price s o found
          ∙ ap
              (λ z. some (record o {
                filled_size = some v;
                filled_price = some price;
                filled_value = some (add (or_zero o.filled_value) (mul z price));
                status = if leb o.requested_size v then filled else partially_filled;
              }))
              exact,
      ap (holding (order_key o)) (whole ∙ fold_fill-db r o v price s)
          ∙ ap
              (λ w.
                holding (order_key o)
                  (apply_delta r.now o' w price (sub v known) (saved r o v price s)).1)
              perps
          ∙ ap
              (λ z.
                holding (order_key o) (perps_apply_fill r.now o' price z (saved r o v price s)).1)
              exact
          ∙ perps_apply_fill-holding r.now o' price (v - known) (saved r o v price s) a side sided
              size pos fits,
    )
