-- ===== src/Reconcile/Closing.antt =====
-- The rows after a reconciliation of positions: the rows of the user at the venue whose asset is gone
-- are closed, and no other row is touched.
use etfpulse.Base.{
  not, ℕ, ◌≡◌, refl, ap, ◌∙◌, Bool, false, ◌&&◌, ◌==◌, some, List, [], ◌∷◌, Text, Dict, dict_get,
  arith, ==_refl, any, select, map, inl, inr, Bool-cases, if◌then◌else◌, is_none, Option, none,
}
use etfpulse.Decimal.{Decimal}
use etfpulse.Models.{
  position_side_eq, Venue, Position, put_position, Db, Action, ok, pure, save_position, >>=-ok,
}
use etfpulse.Positions.OneOpen.{DistinctIds, put_absent}
use etfpulse.Reconcile.Rows.{VenuePosition}
use etfpulse.Reconcile.Drift.{is_tracked, closed_outside, is_drifted, each}
use etfpulse.Reconcile.Spot.{
  SpotDrift, reconcile_spot_row, spot_reconcile_positions, balance_of, no_spot_drift,
  count_spot_orphans,
}
use etfpulse.Reconcile.Perps.{
  PerpsDrift, Entry, reconcile_perps_row, perps_reconcile_positions, venue_by_asset, count_skipped,
  count_perps_orphans,
}

-- The rows that are written back, one after the other.
abbrev put_gone : ℕ → (Position → Bool) → List Position → List Position → List Position
put_gone now gone [] ps = ps
put_gone now gone (x ∷ xs) ps =
    put_gone now gone xs (if gone x then put_position (closed_outside now x) ps else ps)

-- A row after the reconciliation.
abbrev pub settled : ℕ → (Position → Bool) → (Position → Bool) → Position → Position
settled now tracked gone p = if tracked p && gone p then closed_outside now p else p

any-select :
    (i : ℕ) (test : Position → Bool) (ps : List Position)
    → any (λ q. q.id == i) ps ≡ false
    → any (λ q. q.id == i) (select test ps) ≡ false
any-select i test [] h = refl
any-select i test (p ∷ ps) h = ground (arith, any-select i test ps)

-- A head whose id no written row has stays the head.
put_gone_past :
    (now : ℕ) (gone : Position → Bool) (xs : List Position) (y : Position) (ys : List Position)
    → any (λ q. q.id == y.id) xs ≡ false
    → put_gone now gone xs (y ∷ ys) ≡ y ∷ put_gone now gone xs ys
unfolding closed_outside
put_gone_past now gone [] y ys h = refl
put_gone_past now gone (x ∷ xs) y ys h = elim (Bool-cases (gone x)) [
  | inl e ↦
      let apart : (y.id == x.id) ≡ false = ground arith in
      rw (e, apart) (put_gone_past now gone xs y _ (ground arith))
  | inr e ↦ rw e (put_gone_past now gone xs y ys (ground arith))
]

-- Writing back the tracked rows that are gone is a change of each row by itself.
put_gone-select :
    (now : ℕ) (tracked gone : Position → Bool) (ps : List Position)
    → DistinctIds ps
    → put_gone now gone (select tracked ps) ps ≡ map (settled now tracked gone) ps
unfolding closed_outside
put_gone-select now tracked gone [] d = refl
put_gone-select now tracked gone (p ∷ ps) d = elim (Bool-cases (tracked p)) [
  | inl t ↦ elim (Bool-cases (gone p)) [
    | inl g ↦
        let alone : put_position (closed_outside now p) ps ≡ ps =
          put_absent p.id (closed_outside now p) ps refl d.0 in
        rw (t, g, put_gone, put_position, ==_refl p.id, alone)
          (put_gone_past now gone (select tracked ps) (closed_outside now p) ps
              (any-select p.id tracked ps d.0)
            ∙ ap (λ l. closed_outside now p ∷ l) (put_gone-select now tracked gone ps d.1))
    | inr g ↦
        rw (t, g, put_gone)
          (put_gone_past now gone (select tracked ps) p ps (any-select p.id tracked ps d.0)
            ∙ ap (λ l. p ∷ l) (put_gone-select now tracked gone ps d.1))
  ]
  | inr t ↦ rw t (
      put_gone_past now gone (select tracked ps) p ps (any-select p.id tracked ps d.0)
      ∙ ap (λ l. p ∷ l) (put_gone-select now tracked gone ps d.1))
]

-- A loop whose rounds return, and write back the row if it is gone.
ClosesRows : {D : Type 0} → ℕ → (Position → Bool) → (Position → D → Action D) → Type 0
ClosesRows {D} now gone f =
    (p : Position) (d : D) (db : Db)
    → (d' : D) × (f p d db ≡ (
      ok d',
      record db {
        positions =
            if gone p then put_position (closed_outside now p) db.positions else db.positions;
      },
    ))

each-put_gone :
    {D : Type 0} (now : ℕ) (gone : Position → Bool) (f : Position → D → Action D)
    → ClosesRows now gone f
    → (xs : List Position) (d : D) (db : Db)
    → (d' : D) × (each f xs d db
        ≡ (ok d', record db { positions = put_gone now gone xs db.positions }))
unfolding each ClosesRows
each-put_gone now gone f h [] d db = (d, refl)
each-put_gone now gone f h (x ∷ xs) d db =
    let (d1, e1) = h x d db in
    let (d2, e2) = each-put_gone now gone f h xs d1 (record db {
      positions = if gone x then put_position (closed_outside now x) db.positions else db.positions;
    }) in
    (d2, >>=-ok (f x d) (λ d'. each f xs d') d1 db _ e1 ∙ e2)

spot_rows_close :
    (now : ℕ) (balances : Dict Decimal)
    → ClosesRows now (λ p. balance_of p.asset balances == 0) (reconcile_spot_row now balances)
unfolding ClosesRows reconcile_spot_row save_position
spot_rows_close now balances p d db = elim (Bool-cases (balance_of p.asset balances == 0)) [
  | inl e ↦ rw (e, reconcile_spot_row) (_, refl)
  | inr e ↦ elim (Bool-cases (is_drifted (balance_of p.asset balances) p)) [
    | inl e' ↦ rw (e, e', reconcile_spot_row) (_, refl)
    | inr e' ↦ rw (e, e', reconcile_spot_row) (_, refl)
  ]
]

perps_rows_close :
    (now : ℕ) (entries : Dict Entry)
    → ClosesRows now
        (λ p. is_none (dict_get p.asset entries))
        (λ p d. reconcile_perps_row now p d (dict_get p.asset entries))
unfolding ClosesRows reconcile_perps_row save_position
perps_rows_close now entries p d db = row_closes (dict_get p.asset entries)
  where
    row_closes :
        (x : Option Entry)
        → (d' : PerpsDrift) × (reconcile_perps_row now p d x db ≡ (
          ok d',
          record db {
            positions =
                if is_none x
                then put_position (closed_outside now p) db.positions
                else db.positions;
          },
        ))
    row_closes none = (_, refl)
    row_closes (some (side, size)) = elim (Bool-cases (not (position_side_eq p.side side))) [
      | inl e ↦ rw (e, reconcile_perps_row) (_, refl)
      | inr e ↦ elim (Bool-cases (is_drifted size p)) [
        | inl e' ↦ rw (e, e', reconcile_perps_row) (_, refl)
        | inr e' ↦ rw (e, e', reconcile_perps_row) (_, refl)
      ]
    ]

-- The rows after either reconciliation, where ids are distinct. It never raises.
module _ (now user : ℕ) (venue : Venue) (db : Db) (distinct : DistinctIds db.positions) where
  closes_select :
      {D : Type 0} (gone : Position → Bool) (f : Position → D → Action D)
      → ClosesRows now gone f
      → (d : D)
      → (d' : D) × (each f (select (is_tracked user venue) db.positions) d db ≡ (
        ok d',
        record db { positions = map (settled now (is_tracked user venue) gone) db.positions },
      ))
  closes_select gone f h d =
      let (d', e) = each-put_gone now gone f h (select (is_tracked user venue) db.positions) d db in
      (
        d',
        e
            ∙ ap (λ l. (ok d', record db { positions = l }))
                (put_gone-select now (is_tracked user venue) gone db.positions distinct),
      )

  pub spot_reconcile_positions-rows :
      (balances : Dict Decimal)
      → (d : SpotDrift) × (spot_reconcile_positions now user venue balances db ≡ (
        ok d,
        record db {
          positions =
              map
                (settled now (is_tracked user venue) (λ p. balance_of p.asset balances == 0))
                db.positions;
        },
      ))
  unfolding spot_reconcile_positions
  spot_reconcile_positions-rows balances =
      let (d, e) =
        closes_select (λ p. balance_of p.asset balances == 0) (reconcile_spot_row now balances)
          (spot_rows_close now balances) no_spot_drift in
      (
        _,
        >>=-ok
            (each (reconcile_spot_row now balances) (select (is_tracked user venue) db.positions)
              no_spot_drift)
            (λ d. pure (record d {
              orphans = count_spot_orphans balances (select (is_tracked user venue) db.positions);
            }))
            d db _ e,
      )

  pub perps_reconcile_positions-rows :
      (read_decimal : Text → Option Decimal) (rows : List VenuePosition)
      → (d : PerpsDrift) × (perps_reconcile_positions read_decimal now user venue rows db ≡ (
        ok d,
        record db {
          positions =
              map
                (settled now
                  (is_tracked user venue)
                  (λ p. is_none (dict_get p.asset (venue_by_asset read_decimal [] rows))))
                db.positions;
        },
      ))
  unfolding perps_reconcile_positions
  perps_reconcile_positions-rows read_decimal rows =
      let (d, e) =
        closes_select (λ p. is_none (dict_get p.asset entries)) visit (perps_rows_close now entries)
          start in
      (
        _,
        >>=-ok (each visit (select (is_tracked user venue) db.positions) start)
            (λ d. pure (record d {
              orphans = count_perps_orphans entries (select (is_tracked user venue) db.positions);
            }))
            d db _ e,
      )
    where
      entries : Dict Entry
      entries = venue_by_asset read_decimal [] rows

      visit : Position → PerpsDrift → Action PerpsDrift
      visit p d = reconcile_perps_row now p d (dict_get p.asset entries)

      start : PerpsDrift
      start = record {
        closed = 0;
        orphans = 0;
        drift = 0;
        side_mismatch = 0;
        skipped = count_skipped read_decimal rows;
      }
