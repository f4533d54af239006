-- ===== src/Reconcile/Ends.antt =====
-- A reconciliation of positions against the book of holdings.
use etfpulse.Base.{
  subst, ℕ, ◌≤◌, ◌<◌, ◌≡◌, refl, sym, ap, ◌∙◌, Bool, true, false, not, ◌&&◌, ◌==◌, some, none,
  Option, List, [], ◌∷◌, Text, Dict, dict_get, arith, any, select, map, All, count_if, inl, inr,
  Bool-cases, if◌then◌else◌, is_none,
}
use etfpulse.Decimal.{Decimal}
use etfpulse.Models.{Venue, sodex_spot, sodex_perps, venue_eq, Position, Db}
use etfpulse.Positions.{Key, holds, option_eq}
use etfpulse.Positions.OneOpen.{DistinctIds, Apart}
use etfpulse.Positions.Apart.{PositionsApart}
use etfpulse.Positions.Book.{holding, first_holding}
use etfpulse.Positions.Keys.{holds_sound}
use etfpulse.Reconcile.Rows.{VenuePosition}
use etfpulse.Reconcile.Drift.{is_tracked, closed_outside}
use etfpulse.Reconcile.Spot.{spot_reconcile_positions, balance_of}
use etfpulse.Reconcile.Perps.{perps_reconcile_positions, venue_by_asset}
use etfpulse.Reconcile.Listed.{is_listed, venue_by_asset-listed}
use etfpulse.Reconcile.Closing.{
  settled, spot_reconcile_positions-rows, perps_reconcile_positions-rows,
}

-- The keys that a reconciliation is about: of the user, at the venue, no paper trade.
abbrev pub is_about : ℕ → Venue → Key → Bool
is_about user venue k =
    option_eq k.user_id (some user) && venue_eq k.venue venue && not k.paper_trade

-- A row that holds a key is tracked when the key is.
tracked_by_key :
    (user : ℕ) (venue : Venue) (k : Key) (p : Position)
    → holds k p ≡ true
    → is_tracked user venue p ≡ is_about user venue k
unfolding is_tracked
tracked_by_key user venue k p h =
    let s = holds_sound k p h in rw (s.user, s.venue, s.is_open_row, s.paper) (ground arith)

closed-free : (now : ℕ) (k : Key) (p : Position) → holds k (closed_outside now p) ≡ false
unfolding holds closed_outside
closed-free now k p = ground arith

module _ (now user : ℕ) (venue : Venue) (gone : Text → Bool) where
  abbrev after : Position → Position
  after = settled now (is_tracked user venue) (λ p. gone p.asset)

  -- What is left of a row that a key holds, and of one that it does not.
  held_row :
      (k : Key) (p : Position)
      → holds k p ≡ true
      → after p ≡ (if is_about user venue k && gone k.asset then closed_outside now p else p)
  held_row k p h = rw (tracked_by_key user venue k p h, ap gone (holds_sound k p h).asset) refl

  free_row : (k : Key) (p : Position) → holds k p ≡ false → holds k (after p) ≡ false
  free_row k p h = elim (Bool-cases (is_tracked user venue p && gone p.asset)) [
    | inl e ↦ rw e (closed-free now k p)
    | inr e ↦ rw e h
  ]

  -- A key whose asset is gone holds nothing afterwards.
  select_ended :
      (k : Key) (ps : List Position)
      → is_about user venue k ≡ true
      → gone k.asset ≡ true
      → select (holds k) (map after ps) ≡ []
  select_ended k [] about g = refl
  select_ended k (p ∷ ps) about g = elim (Bool-cases (holds k p)) [
    | inl h ↦
        let ended : after p ≡ closed_outside now p = held_row k p h ∙ rw (about, g) refl in
        rw (ended, closed-free now k p) (select_ended k ps about g)
    | inr h ↦ rw (free_row k p h) (select_ended k ps about g)
  ]

  -- Any other key holds what it held.
  select_kept :
      (k : Key) (ps : List Position)
      → (is_about user venue k && gone k.asset) ≡ false
      → select (holds k) (map after ps) ≡ select (holds k) ps
  select_kept k [] other = refl
  select_kept k (p ∷ ps) other = elim (Bool-cases (holds k p)) [
    | inl h ↦
        let same : after p ≡ p = held_row k p h ∙ rw other refl in
        rw (same, h) (ap (λ l. p ∷ l) (select_kept k ps other))
    | inr h ↦ rw (free_row k p h, h) (select_kept k ps other)
  ]

  -- Both together: what a key holds afterwards.
  holding-after :
      (k : Key) (db : Db)
      → first_holding (select (holds k) (map after db.positions))
        ≡ (if is_about user venue k && gone k.asset then none else holding k db)
  holding-after k db = elim (Bool-cases (is_about user venue k && gone k.asset)) [
    | inl e ↦ rw e (ap first_holding (select_ended k db.positions (ground arith) (ground arith)))
    | inr e ↦ rw e (ap first_holding (select_kept k db.positions e))
  ]

  -- The rows stay apart.
  any-after :
      (i : ℕ) (ps : List Position) → any (λ q. q.id == i) (map after ps) ≡ any (λ q. q.id == i) ps
  unfolding closed_outside
  any-after i [] = refl
  any-after i (p ∷ ps) = ground (arith, any-after i ps)

  after-id : (p : Position) → (after p).id ≡ p.id
  unfolding closed_outside
  after-id p = ground arith

  distinct-after : (ps : List Position) → DistinctIds ps → DistinctIds (map after ps)
  unfolding closed_outside
  distinct-after [] d = tt
  distinct-after (p ∷ ps) d = (
    any-after (after p).id ps ∙ ap (λ i. any (λ q. q.id == i) ps) (after-id p) ∙ d.0,
    distinct-after ps d.1,
  )

  below-after :
      (n : ℕ) (ps : List Position) → All (λ p. p.id < n) ps → All (λ p. p.id < n) (map after ps)
  unfolding closed_outside
  below-after n [] b = tt
  below-after n (p ∷ ps) b = (ground arith, below-after n ps b.1)

  count-after :
      (k : Key) (ps : List Position) → count_if (holds k) (map after ps) ≤ count_if (holds k) ps
  count-after k [] = omega arith
  count-after k (p ∷ ps) = ground (arith, free_row k p, count-after k ps)

  pub after-Apart : (n : ℕ) (ps : List Position) → Apart n ps → Apart n (map after ps)
  after-Apart n ps a = record {
    distinct = distinct-after ps a.distinct;
    below = below-after n ps a.below;
    one_open = λ k. omega (arith, count-after k ps, a.one_open k);
  }

module _ (now user : ℕ) (db : Db) (a : PositionsApart db) where
  -- After a reconciliation of a user's spot positions, a key of the user's
  -- real spot holdings holds nothing where the venue's balance of the asset is 0 or missing; every
  -- other key, of this user or another, holds what it held, on a table whose rows are apart.
  pub spot_reconcile_positions-holding :
      (balances : Dict Decimal) (k : Key)
      → holding k (spot_reconcile_positions now user sodex_spot balances db).1 ≡ (
          if is_about user sodex_spot k && (balance_of k.asset balances == 0)
          then none
          else holding k db)
  spot_reconcile_positions-holding balances k =
      let (d, e) = spot_reconcile_positions-rows now user sodex_spot db a.distinct balances in
      ap (λ t. holding k t.1) e
      ∙ holding-after now user sodex_spot (λ asset. balance_of asset balances == 0) k db

  -- After a reconciliation of a user's perps positions, a key of the user's real perps holdings holds
  -- nothing where no row of the venue that can be read is a position of the asset with a size above
  -- 0; every other key holds what it held, on a table whose rows are apart.
  pub perps_reconcile_positions-holding :
      (read_decimal : Text → Option Decimal) (rows : List VenuePosition) (k : Key)
      → holding k (perps_reconcile_positions read_decimal now user sodex_perps rows db).1 ≡ (
          if is_about user sodex_perps k && not (is_listed read_decimal k.asset rows)
          then none
          else holding k db)
  perps_reconcile_positions-holding read_decimal rows k =
      let (d, e) =
        perps_reconcile_positions-rows now user sodex_perps db a.distinct read_decimal rows in
      ap (λ t. holding k t.1) e
      ∙ holding-after now user sodex_perps
          (λ asset. is_none (dict_get asset (venue_by_asset read_decimal [] rows))) k db
      ∙ ap (λ b. if is_about user sodex_perps k && b then none else holding k db)
          (venue_by_asset-listed read_decimal k.asset rows)

  pub spot_reconcile_positions-PositionsApart :
      (balances : Dict Decimal)
      → PositionsApart (spot_reconcile_positions now user sodex_spot balances db).1
  spot_reconcile_positions-PositionsApart balances =
      let (d, e) = spot_reconcile_positions-rows now user sodex_spot db a.distinct balances in
      subst (λ t. PositionsApart t.1) (sym e)
        (after-Apart now user sodex_spot (λ asset. balance_of asset balances == 0)
          db.next_position_id db.positions a)

  pub perps_reconcile_positions-PositionsApart :
      (read_decimal : Text → Option Decimal) (rows : List VenuePosition)
      → PositionsApart (perps_reconcile_positions read_decimal now user sodex_perps rows db).1
  perps_reconcile_positions-PositionsApart read_decimal rows =
      let (d, e) =
        perps_reconcile_positions-rows now user sodex_perps db a.distinct read_decimal rows in
      subst (λ t. PositionsApart t.1) (sym e)
        (after-Apart now user sodex_perps
          (λ asset. is_none (dict_get asset (venue_by_asset read_decimal [] rows)))
          db.next_position_id db.positions a)

  -- Neither reconciliation changes the orders or their sequence.
  pub spot_reconcile_positions-frame :
      (balances : Dict Decimal)
      → let db' = (spot_reconcile_positions now user sodex_spot balances db).1 in
        (db'.orders ≡ db.orders) × (db'.next_order_id ≡ db.next_order_id)
  spot_reconcile_positions-frame balances =
      let (d, e) = spot_reconcile_positions-rows now user sodex_spot db a.distinct balances in
      (ap (λ t. t.1.orders) e, ap (λ t. t.1.next_order_id) e)

  pub perps_reconcile_positions-frame :
      (read_decimal : Text → Option Decimal) (rows : List VenuePosition)
      → let db' = (perps_reconcile_positions read_decimal now user sodex_perps rows db).1 in
        (db'.orders ≡ db.orders) × (db'.next_order_id ≡ db.next_order_id)
  perps_reconcile_positions-frame read_decimal rows =
      let (d, e) =
        perps_reconcile_positions-rows now user sodex_perps db a.distinct read_decimal rows in
      (ap (λ t. t.1.orders) e, ap (λ t. t.1.next_order_id) e)
