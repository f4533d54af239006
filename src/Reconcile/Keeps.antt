-- ===== src/Reconcile/Keeps.antt =====
-- What every step of a user's reconciliation keeps, the whole reconciliation keeps, raise or not.
use etfpulse.Base.{
  ltb, dict_get, ◌≡◌, refl, Bool, true, false, ◌&&◌, leb, Option, none, some, List, [], ◌∷◌, Text,
  Dict, select, All, inl, inr, Bool-cases, ℕ, if◌then◌else◌, or_zero,
}
use etfpulse.Decimal.{Decimal, sub}
use etfpulse.Models.{
  Venue, sodex_spot, sodex_perps, venue_eq, Order, Position, User, find_user, Result, ok, raised,
  Exn, save_order,
}
use etfpulse.Positions.{option_eq}
use etfpulse.Risk.Gates.{is_blank}
use etfpulse.Symbols.{extract_asset_from_symbol_name}
use etfpulse.Reconcile.Rows.{VenuePosition}
use etfpulse.Execution.Orders.{or_empty}
use etfpulse.Reconcile.Spot.{SpotDrift, spot_reconcile_positions}
use etfpulse.Reconcile.Perps.{PerpsDrift, perps_reconcile_positions}
use etfpulse.Reconcile.Tasks.{Summary, Tick, Task, done, fail, on_db, fetched, count, ◌>>=◌, ◌>>◌}
use etfpulse.Reconcile.Fold.{
  Reads, VenueOrder, BalanceEntry, index_venue_orders_by_clordid, process_one_order_fill,
  process_row, fold_row, fold_priced, fold_fill, handle_unmatched_order, with_fill, apply_delta,
  seconds_before, count_fill,
}
use etfpulse.Reconcile.Sweep.{
  process_orders, balance_entry, venue_balances, reconcile_orders, reconcile_user_venue_spot,
  reconcile_user_venue_perps, with_orders, reconcile_venues, reconcile_found, reconcile_one_user,
  is_live, count_spot, count_perps,
}

-- A count that leaves the two of the users.
pub record LeavesUsers (f : Summary → Summary) : Type 0 where
  pub processed : (c : Summary) → (f c).users_processed ≡ c.users_processed
  pub errors : (c : Summary) → (f c).user_errors ≡ c.user_errors

-- What holds of the live orders holds of a user's.
All-live :
    (P : Order → Type 0) (p : Order → Bool) (os : List Order)
    → All (λ o. is_live o ≡ true → P o) os
    → All P (select (λ o. p o && is_live o) os)
All-live P p [] h = tt
All-live P p (o ∷ os) h = elim (Bool-cases (p o)) [
  | inl e ↦ elim (Bool-cases (is_live o)) [
    | inl live ↦ rw (e, live) (h.0 live, All-live P p os h.1)
    | inr dead ↦ rw (e, dead) (All-live P p os h.1)
  ]
  | inr e ↦ rw e (All-live P p os h.1)
]

-- The elements that pass a test keep a property.
pub All-select :
    (P : Order → Type 0) (p : Order → Bool) (os : List Order) → All P os → All P (select p os)
All-select P p [] h = tt
All-select P p (o ∷ os) h = elim (Bool-cases (p o)) [
  | inl e ↦ rw e (h.0, All-select P p os h.1)
  | inr e ↦ rw e (All-select P p os h.1)
]

module _ {ℓ κ λ'} {A : Type ℓ} {B : Type κ} (f : A → Task B) (Q : Result B × Tick → Type λ') where
  pub split :
      (t : Result A × Tick)
      → ((e : Exn) → Q (raised e, t.1))
      → ((a : A) → Q (f a t.1))
      → Q (elim t.0 [ ok a ↦ f a t.1 | raised e ↦ fail e t.1 ])
  split (ok a, s) bad good = good a
  split (raised e, s) bad good = bad e

module _ (P : Tick → Type 0) where
  abbrev pub Keeps {ℓ} : {A : Type ℓ} → Task A → Type 0
  Keeps m = (s : Tick) → P s → P (m s).1

  pub Keeps->>= {ℓ κ} :
      {A : Type ℓ} {B : Type κ} (m : Task A) (f : A → Task B)
      → Keeps m
      → ((a : A) → Keeps (f a))
      → Keeps (m >>= f)
  Keeps->>= m f h k s p = split f (λ t. P t.1) (m s) (λ e. h s p) (λ a. k a (m s).1 (h s p))

  pub Keeps->> {ℓ κ} :
      {A : Type ℓ} {B : Type κ} (m : Task A) (k : Task B) → Keeps m → Keeps k → Keeps (m >> k)
  Keeps->> m k h j = Keeps->>= m (λ _. k) h (λ _. j)

  Keeps-if {ℓ} :
      {A : Type ℓ} (b : Bool) (m n : Task A) → Keeps m → Keeps n → Keeps (if b then m else n)
  Keeps-if true m n h k = h
  Keeps-if false m n h k = k

  Keeps-fetched {ℓ} : {A : Type ℓ} (x : Result A) → Keeps (fetched x)
  Keeps-fetched x s p = p

module _ (P : Tick → Type 0) (Good : Order → Type 0) (r : Reads)
    (tallied : (f : Summary → Summary) → LeavesUsers f → Keeps P (count f))
    (saved : (o : Order) (v price : Decimal)
      → Good o
      → leb v (or_zero o.filled_size) ≡ false
      → Keeps P (on_db (save_order (with_fill o v price))))
    (applied : (o : Order) (venue : Venue) (price size : Decimal)
      → Keeps P (on_db (apply_delta r.now o venue price size)))
    (spot_matched : (user : ℕ) (balances : Dict Decimal)
      → Keeps P (on_db (spot_reconcile_positions r.now user sodex_spot balances)))
    (perps_matched : (user : ℕ) (rows : List VenuePosition)
      → Keeps P
          (on_db (perps_reconcile_positions r.read_decimal r.now user sodex_perps rows))) where
  fold_fill-Keeps :
      (o : Order) (v price : Decimal)
      → Good o
      → leb v (or_zero o.filled_size) ≡ false
      → Keeps P (fold_fill r o v price)
  unfolding fold_fill
  fold_fill-Keeps o v price g new =
      Keeps->> P (saving >> counting >> applying) (done tt)
        (Keeps->> P (saving >> counting) applying
          (Keeps->> P saving counting (saved o v price g new)
            (tallied (count_fill whole) (fill_counts whole)))
          (applied (with_fill o v price) o.venue price (sub v (or_zero o.filled_size))))
        λ s p. p
    where
      whole : Bool
      whole = leb o.requested_size v

      saving : Task (Unit {0})
      saving = on_db (save_order (with_fill o v price))

      counting : Task (Unit {0})
      counting = count (count_fill whole)

      applying : Task (Option Position)
      applying =
          on_db
            (apply_delta r.now (with_fill o v price) o.venue price (sub v (or_zero o.filled_size)))

      fill_counts : (b : Bool) → LeavesUsers (count_fill b)
      fill_counts true = record { processed = λ c. refl; errors = λ c. refl }
      fill_counts false = record { processed = λ c. refl; errors = λ c. refl }

  fold_priced-Keeps :
      (o : Order) (v : Decimal) (price : Option Decimal)
      → Good o
      → leb v (or_zero o.filled_size) ≡ false
      → Keeps P (fold_priced r o v price)
  unfolding fold_priced
  fold_priced-Keeps o v none g new s p = p
  fold_priced-Keeps o v (some price) g new s p = fold_fill-Keeps o v price g new s p

  fold_row-Keeps :
      (o : Order) (row : VenueOrder) (v : Option Decimal) → Good o → Keeps P (fold_row r o row v)
  unfolding fold_row
  fold_row-Keeps o row none g s p = p
  fold_row-Keeps o row (some v) g s p = elim (Bool-cases (leb v (or_zero o.filled_size))) [
    | inl old ↦ rw (old, fold_row) p
    | inr new ↦ rw (new, fold_row) (fold_priced-Keeps o v _ g new s p)
  ]

  process_row-Keeps : (o : Order) (row : Option VenueOrder) → Good o → Keeps P (process_row r o row)
  unfolding process_row handle_unmatched_order
  process_row-Keeps o none g =
      Keeps-if P (ltb o.updated_at (seconds_before r.now r.order_reconcile_orphan_grace_seconds)) _
        (done tt) (tallied _ (record { processed = λ c. refl; errors = λ c. refl })) λ s p. p
  process_row-Keeps o (some row) g = fold_row-Keeps o row _ g

  process_orders-Keeps :
      (index : Dict VenueOrder) (os : List Order)
      → All Good os
      → Keeps P (process_orders r index os)
  unfolding process_orders process_one_order_fill
  process_orders-Keeps index [] h = λ s p. p
  process_orders-Keeps index (o ∷ os) h =
      Keeps->> P (process_one_order_fill r index o) (process_orders r index os)
        (process_row-Keeps o (dict_get o.client_order_id index) h.0)
        (process_orders-Keeps index os h.1)

  reconcile_orders-Keeps :
      (venue : Venue) (address : Text) (os : List Order)
      → All Good os
      → Keeps P (reconcile_orders r venue address os)
  unfolding reconcile_orders
  reconcile_orders-Keeps venue address os h =
      Keeps->>= P (fetched (r.get_open_orders venue address))
        (λ rows. process_orders r (index_venue_orders_by_clordid [] rows) os)
        (Keeps-fetched P (r.get_open_orders venue address))
        λ rows. process_orders-Keeps (index_venue_orders_by_clordid [] rows) os h

  balance_entry-Keeps :
      (qty : Option Decimal) (asset : Option Text) (out : Dict Decimal)
      → Keeps P (balance_entry qty asset out)
  unfolding balance_entry
  balance_entry-Keeps none asset out s p = p
  balance_entry-Keeps (some qty) none out s p = p
  balance_entry-Keeps (some qty) (some asset) out s p = p

  venue_balances-Keeps :
      (out : Dict Decimal) (entries : List BalanceEntry) → Keeps P (venue_balances r out entries)
  unfolding venue_balances
  venue_balances-Keeps out [] = λ s p. p
  venue_balances-Keeps out (entry ∷ entries) =
      Keeps->>= P
        (balance_entry (r.read_decimal entry.total) (extract_asset_from_symbol_name entry.asset)
          out)
        (λ out'. venue_balances r out' entries)
        (balance_entry-Keeps (r.read_decimal entry.total)
          (extract_asset_from_symbol_name entry.asset) out)
        λ out'. venue_balances-Keeps out' entries

  spot-Keeps :
      (u : User) (os : List Order) → All Good os → Keeps P (reconcile_user_venue_spot r u os)
  unfolding reconcile_user_venue_spot
  spot-Keeps u os h =
      Keeps->>= P (folding >> fetching)
        (λ entries. venue_balances r [] entries >>= λ b. matching b >>= tally)
        (Keeps->> P folding fetching
          (reconcile_orders-Keeps sodex_spot (or_empty u.wallet_address) os h)
          (Keeps-fetched P (r.get_balances (or_empty u.wallet_address))))
        λ entries.
          Keeps->>= P (venue_balances r [] entries) (λ b. matching b >>= tally)
            (venue_balances-Keeps [] entries)
            λ b.
              Keeps->>= P (matching b) tally (spot_matched u.id b)
                λ d. tallied (count_spot d) (record { processed = λ c. refl; errors = λ c. refl })
    where
      folding : Task (Unit {0})
      folding = reconcile_orders r sodex_spot (or_empty u.wallet_address) os

      fetching : Task (List BalanceEntry)
      fetching = fetched (r.get_balances (or_empty u.wallet_address))

      tally : SpotDrift → Task (Unit {0})
      tally d = count (count_spot d)

      matching : Dict Decimal → Task SpotDrift
      matching balances = on_db (spot_reconcile_positions r.now u.id sodex_spot balances)

  perps-Keeps :
      (u : User) (os : List Order) → All Good os → Keeps P (reconcile_user_venue_perps r u os)
  unfolding reconcile_user_venue_perps
  perps-Keeps u os h =
      Keeps->>= P (folding >> fetching) (λ rows. matching rows >>= tally)
        (Keeps->> P folding fetching
          (reconcile_orders-Keeps sodex_perps (or_empty u.wallet_address) os h)
          (Keeps-fetched P (r.get_positions (or_empty u.wallet_address))))
        λ rows.
          Keeps->>= P (matching rows) tally (perps_matched u.id rows)
            λ d. tallied (count_perps d) (record { processed = λ c. refl; errors = λ c. refl })
    where
      folding : Task (Unit {0})
      folding = reconcile_orders r sodex_perps (or_empty u.wallet_address) os

      fetching : Task (List VenuePosition)
      fetching = fetched (r.get_positions (or_empty u.wallet_address))

      tally : PerpsDrift → Task (Unit {0})
      tally d = count (count_perps d)

      matching : List VenuePosition → Task PerpsDrift
      matching rows = on_db (perps_reconcile_positions r.read_decimal r.now u.id sodex_perps rows)

  with_orders-Keeps :
      (f : List Order → Task (Unit {0})) (os : List Order)
      → Keeps P (f os)
      → Keeps P (with_orders f os)
  unfolding with_orders
  with_orders-Keeps f [] h = λ s p. p
  with_orders-Keeps f (o ∷ os) h = h

  reconcile_venues-Keeps :
      (u : User) (os : List Order) → All Good os → Keeps P (reconcile_venues r u os)
  unfolding reconcile_venues
  reconcile_venues-Keeps u os h =
      Keeps->> P (with_orders (reconcile_user_venue_spot r u) spot)
        (with_orders (reconcile_user_venue_perps r u) perps)
        (with_orders-Keeps (reconcile_user_venue_spot r u) spot
          (spot-Keeps u spot (All-select Good (λ o. venue_eq o.venue sodex_spot) os h)))
        (with_orders-Keeps (reconcile_user_venue_perps r u) perps
          (perps-Keeps u perps (All-select Good (λ o. venue_eq o.venue sodex_perps) os h)))
    where
      spot : List Order
      spot = select (λ o. venue_eq o.venue sodex_spot) os

      perps : List Order
      perps = select (λ o. venue_eq o.venue sodex_perps) os

  reconcile_found-Keeps :
      (user_id : ℕ) (u : Option User) (s : Tick)
      → All (λ o. is_live o ≡ true → Good o) s.db.orders
      → P s
      → P (reconcile_found r user_id u s).1
  unfolding reconcile_found
  reconcile_found-Keeps user_id none s h p = p
  reconcile_found-Keeps user_id (some u) s h p = elim (Bool-cases (is_blank u.wallet_address)) [
    | inl e ↦ rw (e, reconcile_found) p
    | inr e ↦
        rw (e, reconcile_found)
          (reconcile_venues-Keeps u
            (select (λ o. option_eq o.user_id (some user_id) && is_live o) s.db.orders)
            (All-live Good (λ o. option_eq o.user_id (some user_id)) s.db.orders h) s p)
  ]

  -- The reconciliation of one user keeps what its steps keep.
  pub reconcile_one_user-Keeps :
      (user_id : ℕ) (s : Tick)
      → All (λ o. is_live o ≡ true → Good o) s.db.orders
      → P s
      → P (reconcile_one_user r user_id s).1
  unfolding reconcile_one_user
  reconcile_one_user-Keeps user_id s h p =
      reconcile_found-Keeps user_id (find_user user_id s.db) s h p
