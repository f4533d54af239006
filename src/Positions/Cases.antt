-- ===== src/Positions/Cases.antt =====
-- The cases of a fill on a table whose rows are apart.
use etfpulse.Base.{
  ◌<◌, arith, ◌⊎◌, ℕ, ◌<◌, ◌≡◌, refl, ap, true, inl, inr, Option, none, some, [], ◌∷◌, arith,
  select, Bool-cases, Option-cases, ◌==◌,
}
use etfpulse.Base.Int.{ℤ}
use etfpulse.Decimal.{Decimal}
use etfpulse.Models.{
  >>=-ok, or_raise, ◌>>=◌, Order, Position, PositionSide, Db, Action, Result, ok, raised,
  value_error, insert_position, save_position,
}
use etfpulse.Positions.{holds, order_key, existing_position, one_or_none}
use etfpulse.Positions.Spot.{dispatch_spot, spot_apply_fill, close_if_empty, shrunk}
use etfpulse.Positions.Perps.{perps_apply_fill, guarded_fill, fill_side}
use etfpulse.Positions.Apart.{PositionsApart, select_cases, insert-Apart, update-Apart}

-- A row that has the id and the key columns of another.
abbrev pub SameColumns : Position → Position → Type 0
SameColumns q p =
    (q.id ≡ p.id)
    × (q.user_id ≡ p.user_id)
    × (q.venue ≡ p.venue)
    × (q.asset ≡ p.asset)
    × (q.paper_trade ≡ p.paper_trade)

-- A row after a reduction keeps its id and its key columns.
pub reduced_keeps :
    (now : ℕ) (p : Position) (per_unit : ℤ) (fill_price fill_size : Decimal)
    → SameColumns (close_if_empty now fill_price (shrunk p per_unit fill_size)) p
unfolding close_if_empty shrunk
reduced_keeps now p per_unit fill_price fill_size = ground arith

-- The answer of the query, for each of the two cases that distinct rows leave.
existing_none :
    (o : Order) (db : Db)
    → select (holds (order_key o)) db.positions ≡ []
    → existing_position o db ≡ (ok none, db)
unfolding existing_position one_or_none
existing_none o db e = ap (λ l. one_or_none l db) e

existing_some :
    (o : Order) (e : Position) (db : Db)
    → select (holds (order_key o)) db.positions ≡ e ∷ []
    → existing_position o db ≡ (ok (some e), db)
unfolding existing_position one_or_none
existing_some o e db h = ap (λ l. one_or_none l db) h

pub insert_keeps :
    (o : Order) (new : Position) (db : Db)
    → PositionsApart db
    → select (holds (order_key o)) db.positions ≡ []
    → new.user_id ≡ o.user_id
    → new.venue ≡ o.venue
    → new.asset ≡ o.asset
    → new.paper_trade ≡ o.paper_trade
    → PositionsApart (insert_position new db).1
unfolding insert_position
insert_keeps o new db a e u v t p =
    insert-Apart db.next_position_id db.positions o (record new { id = db.next_position_id }) a e
      refl u v t p

pub save_keeps :
    (o : Order) (e new : Position) (db : Db)
    → PositionsApart db
    → select (holds (order_key o)) db.positions ≡ e ∷ []
    → SameColumns new e
    → PositionsApart (save_position new db).1
unfolding save_position
save_keeps o e new db a one (i, u, v, t, p) =
    update-Apart db.next_position_id db.positions (order_key o) e new a one i u v t p

-- Why a fill raises.
abbrev pub IsRefused : Order → Decimal → Decimal → Type 0
IsRefused o fill_price fill_size =
    ((fill_size == 0) ≡ true) ⊎ (((fill_price == 0) ≡ true) ⊎ (fill_side o.side ≡ none))

module _ {ℓ} (P : Result (Option Position) × Db → Type ℓ) (now : ℕ) (o : Order)
    (fill_price fill_size : Decimal) (db : Db) (a : PositionsApart db)
    (refused : IsRefused o fill_price fill_size → P (raised value_error, db)) where
  -- A spot fill either raises, or goes on with no position or with one.
  pub spot_cases :
      (select (holds (order_key o)) db.positions ≡ []
        → P (dispatch_spot now o fill_price fill_size none o.side db))
      → ((e : Position)
          → select (holds (order_key o)) db.positions ≡ e ∷ []
          → P (dispatch_spot now o fill_price fill_size (some e) o.side db))
      → P (spot_apply_fill now o fill_price fill_size db)
  unfolding spot_apply_fill
  spot_cases empty one = elim (Bool-cases (fill_size == 0)) [
    | inl s ↦ rw (s, spot_apply_fill) (refused (inl s))
    | inr s ↦ elim (Bool-cases (fill_price == 0)) [
      | inl f ↦ rw (s, f, spot_apply_fill) (refused (inr (inl f)))
      | inr f ↦ elim (select_cases db.next_position_id db.positions (order_key o) a) [
        | inl e ↦
            rw (s, f, spot_apply_fill)
              (rw
                (>>=-ok (existing_position o)
                  (λ x. dispatch_spot now o fill_price fill_size x o.side) none db db
                  (existing_none o db e))
                (empty e))
        | inr (p, e) ↦
            rw (s, f, spot_apply_fill)
              (rw
                (>>=-ok (existing_position o)
                  (λ x. dispatch_spot now o fill_price fill_size x o.side) (some p) db db
                  (existing_some o p db e))
                (one p e))
      ]
    ]
  ]

  -- So does a perps fill, where the order's side gives the fill's.
  pub perps_cases :
      ((side : PositionSide)
        → fill_side o.side ≡ some side
        → select (holds (order_key o)) db.positions ≡ []
        → P (guarded_fill now o fill_price fill_size none side db))
      → ((side : PositionSide) (e : Position)
          → fill_side o.side ≡ some side
          → select (holds (order_key o)) db.positions ≡ e ∷ []
          → P (guarded_fill now o fill_price fill_size (some e) side db))
      → P (perps_apply_fill now o fill_price fill_size db)
  unfolding perps_apply_fill
  perps_cases empty one = elim (Bool-cases (fill_size == 0)) [
    | inl s ↦ rw (s, perps_apply_fill) (refused (inl s))
    | inr s ↦ elim (Bool-cases (fill_price == 0)) [
      | inl f ↦ rw (s, f, perps_apply_fill) (refused (inr (inl f)))
      | inr f ↦ elim (select_cases db.next_position_id db.positions (order_key o) a) [
        | inl e ↦
            rw (s, f, perps_apply_fill)
              (rw (>>=-ok (existing_position o) (found o) none db db (existing_none o db e))
                (sided none λ side k. empty side k e))
        | inr (p, e) ↦
            rw (s, f, perps_apply_fill)
              (rw (>>=-ok (existing_position o) (found o) (some p) db db (existing_some o p db e))
                (sided (some p) λ side k. one side p k e))
      ]
    ]
  ]
    where
      found : Order → Option Position → Action (Option Position)
      found o x = or_raise (fill_side o.side) value_error >>= λ side.
          guarded_fill now o fill_price fill_size x side

      sided :
          (x : Option Position)
          → ((side : PositionSide)
              → fill_side o.side ≡ some side
              → P (guarded_fill now o fill_price fill_size x side db))
          → P (found o x db)
      sided x go = elim (Option-cases (fill_side o.side)) [
        | inl e ↦ rw e (refused (inr (inr e)))
        | inr (side, e) ↦ rw e (go side e)
      ]

pub not-IsRefused :
    (o : Order) (fill_price fill_size : Decimal) (side : PositionSide)
    → fill_side o.side ≡ some side
    → 0 < fill_size
    → 0 < fill_price
    → ¬ IsRefused o fill_price fill_size
not-IsRefused o fill_price fill_size side sided size price why = ground arith

pub same_side :
    (o : Order) (s t : PositionSide) → fill_side o.side ≡ some s → fill_side o.side ≡ some t → s ≡ t
same_side o s t h k = ground arith
