-- ===== src/Reconcile/Sweep.antt =====
-- `reconcile_open_orders`, with `_reconcile_one_user` and the two venues.
use etfpulse.Base.{
  ℕ, suc, ◌+◌, Bool, not, ◌&&◌, ltb, ◌==◌, Option, none, some, any, List, [], ◌∷◌, Text, Dict,
  dict_set, select, if◌then◌else◌,
}
use etfpulse.Decimal.{Decimal}
use etfpulse.Models.{
  Venue, venue_eq, sodex_spot, sodex_perps, is_terminal, Order, User, Db, find_user, Result, ok,
  raised, value_error,
}
use etfpulse.Positions.{option_eq}
use etfpulse.Risk.Gates.{is_blank}
use etfpulse.Execution.Orders.{or_empty}
use etfpulse.Symbols.{extract_asset_from_symbol_name}
use etfpulse.Reconcile.Tasks.{
  Summary, no_counts, Tick, Task, done, fail, on_db, fetched, count, ◌>>=◌, ◌>>◌,
}
use etfpulse.Reconcile.Fold.{
  Reads, VenueOrder, BalanceEntry, index_venue_orders_by_clordid, process_one_order_fill,
  seconds_before,
}
use etfpulse.Reconcile.Spot.{SpotDrift, spot_reconcile_positions}
use etfpulse.Reconcile.Perps.{PerpsDrift, perps_reconcile_positions}

-- `status in _RECONCILABLE_STATUSES` on a row that is no paper trade.
abbrev pub is_live : Order → Bool
is_live o = not (is_terminal o.status) && not o.paper_trade

-- The loop over a user's orders at a venue.
unfoldable pub process_orders : Reads → Dict VenueOrder → List Order → Task (Unit {0})
process_orders r index [] = done tt
process_orders r index (o ∷ os) = process_one_order_fill r index o >> process_orders r index os

-- One entry of the balances: a total that is no number is passed over, an asset without a base
-- raises.
unfoldable pub balance_entry : Option Decimal → Option Text → Dict Decimal → Task (Dict Decimal)
balance_entry none asset out = done out
balance_entry (some qty) none out = fail value_error
balance_entry (some qty) (some asset) out = done (dict_set asset qty out)

unfoldable pub venue_balances : Reads → Dict Decimal → List BalanceEntry → Task (Dict Decimal)
venue_balances r out [] = done out
venue_balances r out (entry ∷ entries) =
    balance_entry (r.read_decimal entry.total) (extract_asset_from_symbol_name entry.asset) out
    >>= λ out'. venue_balances r out' entries

abbrev pub count_spot : SpotDrift → Summary → Summary
count_spot d c = record c {
  positions_closed_via_reconcile = c.positions_closed_via_reconcile + d.closed;
  positions_orphans = c.positions_orphans + d.orphans;
  positions_drift = c.positions_drift + d.drift;
}

abbrev pub count_perps : PerpsDrift → Summary → Summary
count_perps d c = record c {
  positions_closed_via_reconcile = c.positions_closed_via_reconcile + d.closed;
  positions_orphans = c.positions_orphans + d.orphans;
  positions_drift = c.positions_drift + d.drift;
  positions_side_mismatch = c.positions_side_mismatch + d.side_mismatch;
  positions_skipped_unparseable = c.positions_skipped_unparseable + d.skipped;
}

-- The orders of a venue against its list of open orders.
unfoldable pub reconcile_orders : Reads → Venue → Text → List Order → Task (Unit {0})
reconcile_orders r venue address os = fetched (r.get_open_orders venue address) >>= λ rows.
    process_orders r (index_venue_orders_by_clordid [] rows) os

-- `_reconcile_user_venue_spot`
unfoldable pub reconcile_user_venue_spot : Reads → User → List Order → Task (Unit {0})
reconcile_user_venue_spot r u os =
    let address = or_empty u.wallet_address in
    reconcile_orders r sodex_spot address os >> fetched (r.get_balances address) >>= λ entries.
    venue_balances r [] entries >>= λ balances.
    on_db (spot_reconcile_positions r.now u.id sodex_spot balances) >>= λ d. count (count_spot d)

-- `_reconcile_user_venue_perps`
unfoldable pub reconcile_user_venue_perps : Reads → User → List Order → Task (Unit {0})
reconcile_user_venue_perps r u os =
    let address = or_empty u.wallet_address in
    reconcile_orders r sodex_perps address os >> fetched (r.get_positions address) >>= λ rows.
    on_db (perps_reconcile_positions r.read_decimal r.now u.id sodex_perps rows) >>= λ d.
    count (count_perps d)

-- `if venue in orders_by_venue`
unfoldable pub with_orders : (List Order → Task (Unit {0})) → List Order → Task (Unit {0})
with_orders f [] = done tt
with_orders f (o ∷ os) = f (o ∷ os)

-- The user's orders, grouped by venue: spot first.
unfoldable pub reconcile_venues : Reads → User → List Order → Task (Unit {0})
reconcile_venues r u os =
    with_orders (reconcile_user_venue_spot r u) (select (λ o. venue_eq o.venue sodex_spot) os)
    >> with_orders (reconcile_user_venue_perps r u) (select (λ o. venue_eq o.venue sodex_perps) os)

unfoldable pub reconcile_found : Reads → ℕ → Option User → Task (Unit {0})
reconcile_found r user_id none s = done tt s
reconcile_found r user_id (some u) s =
    if is_blank u.wallet_address
    then done tt s
    else reconcile_venues r u
        (select (λ o. option_eq o.user_id (some user_id) && is_live o) s.db.orders) s

-- `_reconcile_one_user`
unfoldable pub reconcile_one_user : Reads → ℕ → Task (Unit {0})
reconcile_one_user r user_id s = reconcile_found r user_id (find_user user_id s.db) s

-- `users_processed` or `user_errors`: one user's exception goes no further.
unfoldable pub contained : Result (Unit {0}) → Tick → Tick
contained (ok _) s = record s {
  summary = record (s.summary) { users_processed = suc s.summary.users_processed };
}
contained (raised e) s = record s {
  summary = record (s.summary) { user_errors = suc s.summary.user_errors };
}

unfoldable pub reconcile_users : Reads → List ℕ → Tick → Tick
reconcile_users r [] s = s
reconcile_users r (user_id ∷ ids) s =
    let (result, s') = reconcile_one_user r user_id s in reconcile_users r ids (contained result s')

-- The users of the orders that the sweep is about, each once.
abbrev add_user : Option ℕ → List ℕ → List ℕ
add_user none ids = ids
add_user (some id) ids = if any (λ j. j == id) ids then ids else id ∷ ids

unfoldable pub user_ids : ℕ → List Order → List ℕ
user_ids cutoff [] = []
user_ids cutoff (o ∷ os) =
    let rest = user_ids cutoff os in
    if is_live o && ltb o.created_at cutoff then add_user o.user_id rest else rest

unfoldable pub reconcile_open_orders : Reads → Db → Tick
reconcile_open_orders r db =
    let cutoff = seconds_before r.now r.order_reconcile_min_age_seconds in
    reconcile_users r (user_ids cutoff db.orders) (record { db = db; summary = no_counts })
