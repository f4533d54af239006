-- ===== src/Tests/Positions.antt =====
-- Fills, averages, nonces and breakers.
use mathlib.Core.Bool.{false≢true}
use etfpulse.Base.{
  sym, text_eq, ℕ, ◌*◌, ◌^◌, ◌+◌, ◌≤◌, ◌≡◌, refl, none, some, Option, [], ◌∷◌, codes, arith, All,
  count_if, ap,
}
use etfpulse.Decimal.{one, price_quantum, context, excess, excess_from, half_even, add, mul}
use etfpulse.Models.{
  ok, sodex_spot, sell, long, short, macro_event, manual, Order, CircuitBreaker, Db,
}
use etfpulse.Positions.{Key, order_key, holds, weighted_entry}
use etfpulse.Positions.Apart.{PositionsApart}
use etfpulse.Positions.Book.{holding}
use etfpulse.Positions.Spot.{spot_apply_fill}
use etfpulse.Positions.Perps.{perps_apply_fill}
use etfpulse.Positions.Fills.{spot_apply_fill-PositionsApart, perps_apply_fill-PositionsApart}
use etfpulse.Positions.PerpsBook.{perps_apply_fill-holding, perps_apply_fill_others}
use etfpulse.Positions.SpotBook.{spot_apply_fill-holding}
use etfpulse.Positions.Average.{IsExact, weighted_entry-lower, weighted_entry-upper}
use etfpulse.Breaker.{record_breaker, resolve, is_active, count_active, find_active}
use etfpulse.Breaker.Laws.{OneActive, record_breaker-OneActive, resolve-scope, Resolves}
use etfpulse.Nonce.{next_nonce_for_user, next_nonce-fresh, Below, with_cancels}
use etfpulse.Tests.Fixtures.{order, position, db}

one_position : (k : Key) → count_if (holds k) (position ∷ []) ≤ 1
one_position k = ground arith

pub db_apart : PositionsApart db
db_apart = record { distinct = (refl, tt); below = (omega arith, tt); one_open = one_position }

-- A SELL of two units at 100 on the perps venue, and the same on spot where three units are held.
abbrev sell_order : Order
sell_order = record order { side = sell }

abbrev spot_sell : Order
spot_sell = record sell_order { venue = sodex_spot }

abbrev pub spot_db : Db
spot_db = record db { positions = record position { venue = sodex_spot } ∷ [] }

spot_position : (k : Key) → count_if (holds k) spot_db.positions ≤ 1
spot_position k = ground arith

pub spot_db_apart : PositionsApart spot_db
spot_db_apart = record {
  distinct = (refl, tt);
  below = (omega arith, tt);
  one_open = spot_position;
}

perps_apply_fill-holding_example :
    holding (order_key sell_order) (perps_apply_fill 20 sell_order (100 * one) (2 * one) db).1
    ≡ some (long, one)
unfolding holds context excess excess_from half_even
perps_apply_fill-holding_example =
    perps_apply_fill-holding 20 sell_order (100 * one) (2 * one) db db_apart short refl
      (ground arith) (ground arith) (refl, refl)

abbrev other_key : Key
other_key = record (order_key order) { asset = codes "ETH" }

perps_apply_fill_others_example :
    holding other_key (perps_apply_fill 20 sell_order (100 * one) (2 * one) db).1
    ≡ holding other_key db
perps_apply_fill_others_example =
    perps_apply_fill_others 20 sell_order (100 * one) (2 * one) db db_apart other_key
      (λ e. false≢true (sym (ap (λ k. text_eq k.asset (codes "BTC")) e)))

spot_apply_fill-holding_example :
    holding (order_key spot_sell) (spot_apply_fill 20 spot_sell (100 * one) (5 * one) spot_db).1
    ≡ none
unfolding holds context excess excess_from half_even
spot_apply_fill-holding_example =
    spot_apply_fill-holding 20 spot_sell (100 * one) (5 * one) spot_db spot_db_apart short refl
      (ground arith) (ground arith) refl (refl, refl)

perps_apply_fill-PositionsApart_example :
    PositionsApart (perps_apply_fill 20 sell_order (100 * one) (2 * one) db).1
perps_apply_fill-PositionsApart_example =
    perps_apply_fill-PositionsApart 20 sell_order (100 * one) (2 * one) db db_apart

spot_apply_fill-PositionsApart_example :
    PositionsApart (spot_apply_fill 20 spot_sell (100 * one) (5 * one) spot_db).1
spot_apply_fill-PositionsApart_example =
    spot_apply_fill-PositionsApart 20 spot_sell (100 * one) (5 * one) spot_db spot_db_apart

exact : IsExact (90 * one) (3 * one) (100 * one) (2 * one)
unfolding add mul context excess excess_from half_even
exact = record { held = refl; filled = refl; cost = refl; total = refl; small = ground arith }

weighted_entry-lower_example :
    90 * 10 ^ 8 * price_quantum ≤ weighted_entry (90 * one) (3 * one) (100 * one) (2 * one)
weighted_entry-lower_example =
    weighted_entry-lower (90 * 10 ^ 8) (100 * 10 ^ 8) (90 * one) (3 * one) (100 * one) (2 * one)
      exact (ground arith) (ground arith) (ground arith)

weighted_entry-upper_example :
    weighted_entry (90 * one) (3 * one) (100 * one) (2 * one) ≤ 100 * 10 ^ 8 * price_quantum
weighted_entry-upper_example =
    weighted_entry-upper (90 * 10 ^ 8) (100 * 10 ^ 8) (90 * one) (3 * one) (100 * one) (2 * one)
      exact (ground arith) (ground arith) (ground arith)

-- A halt of everybody, and one of user 7.
abbrev halt : Option ℕ → CircuitBreaker
halt user = record {
  id = 1;
  user_id = user;
  trigger_type = manual;
  triggered_at = 5;
  resolved_at = none;
  resolved_by = none;
}

abbrev halted : Db
halted = record db { breakers = halt none ∷ halt (some 7) ∷ [] }

one_halt : OneActive halted.breakers
unfolding is_active
one_halt t none = ground arith
one_halt t (some u) = ground arith

record_breaker-OneActive_example :
    OneActive (record_breaker 9 macro_event (some 7) halted).1.breakers
record_breaker-OneActive_example = record_breaker-OneActive 9 macro_event (some 7) halted one_halt

resolve-scope_example :
    let (result, db') = resolve 9 manual (codes "admin") (some 7) halted in
    (find_active manual (some 7) db' ≡ none)
    × (Resolves 9 (codes "admin") manual (some 7) halted.breakers db'.breakers
        × ((n : ℕ) × ((result ≡ ok n) × (count_active db' + n ≡ count_active halted))))
resolve-scope_example = resolve-scope 9 manual (codes "admin") (some 7) halted

next_nonce-fresh_example :
    let cancelled = record db { orders = with_cancels (λ o. some 100) db.orders } in
    (30 ≤ next_nonce_for_user 30 7 db)
    × (All (Below 7 (next_nonce_for_user 30 7 db)) db.orders
        × (next_nonce_for_user 30 7 cancelled ≡ next_nonce_for_user 30 7 db))
next_nonce-fresh_example = next_nonce-fresh 30 7 db (λ o. some 100)
